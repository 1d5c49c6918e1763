-- ===== src/Producer/Generator/Copies.antt =====
-- Sequences of events of pv-producer/internal/generator/generator.go, with their duplicates.
use wallet_service.Base.{
  ℕ, ◌+◌, String, ◌≡◌, refl, Bool, true, false, Option, none, some, List, [], ◌∷◌, length, arith,
}
use wallet_service.Producer.Event.{PageViewEvent}
use wallet_service.Producer.Generator.{
  Generator, Draws, below, generate, generate_new, repeat_or, counted,
}

-- The events of successive calls of Generate.
unfoldable pub generate_all : List Draws → Generator → List PageViewEvent × Generator
unfolding generate
generate_all [] g = ([], g)
generate_all (d ∷ ds) g =
    let (ev, g1) = generate d g in let (evs, g2) = generate_all ds g1 in (ev ∷ evs, g2)

-- What the calls are to make: a duplicate is the event before it, whole.
abbrev pub copy_or : Bool → Option PageViewEvent → PageViewEvent → PageViewEvent
copy_or true (some last) ev = last
copy_or true none ev = ev
copy_or false last ev = ev

unfoldable pub views : ℕ → Option PageViewEvent → List Draws → List PageViewEvent
views rate last [] = []
views rate last (d ∷ ds) =
    let ev = copy_or (below d.duplicate_roll rate) last (generate_new d) in
    ev ∷ views rate (some ev) ds

-- The id kept beside the last event is its id.
abbrev pub Names : String → Option PageViewEvent → Type 0
Names id none = Unit
Names id (some ev) = ev.event_id ≡ id

-- One call, by its roll and the last event.
record Made (ev : PageViewEvent) (g : Generator) (r : PageViewEvent × Generator) : Type 0 where
  same : r.0 ≡ ev
  kept : r.1.last_event ≡ some ev
  named : Names r.1.last_event_id r.1.last_event
  rate : r.1.duplicate_rate ≡ g.duplicate_rate
  grown : r.1.event_counter ≡ g.event_counter

repeat_or-Made :
    (small : Bool) (last : Option PageViewEvent) (ev : PageViewEvent) (g : Generator)
    → g.last_event ≡ last
    → Names g.last_event_id last
    → Made (copy_or small last ev) g (repeat_or small last ev g)
repeat_or-Made true (some last) ev g e named = record {
  same = ground arith;
  kept = e;
  named = rw e named;
  rate = refl;
  grown = refl;
}
repeat_or-Made true none ev g e named = record {
  same = refl;
  kept = refl;
  named = refl;
  rate = refl;
  grown = refl;
}
repeat_or-Made false last ev g e named = record {
  same = refl;
  kept = refl;
  named = refl;
  rate = refl;
  grown = refl;
}

generate-Made :
    (d : Draws) (g : Generator)
    → Names g.last_event_id g.last_event
    → Made
        (copy_or (below d.duplicate_roll g.duplicate_rate) g.last_event (generate_new d))
        (counted g)
        (generate d g)
unfolding generate
generate-Made d g named =
    repeat_or-Made (below d.duplicate_roll g.duplicate_rate) g.last_event (generate_new d)
      (counted g) refl named

-- A generator that keeps the id of its last event makes in each call a new event or a whole copy of
-- the one before it, as `views` tells, and counts every call.
pub generate_all-views :
    (ds : List Draws) (g : Generator)
    → Names g.last_event_id g.last_event
    → ((generate_all ds g).0 ≡ views g.duplicate_rate g.last_event ds)
      × ((generate_all ds g).1.event_counter ≡ g.event_counter + length ds)
unfolding generate_all views
generate_all-views [] g named = (refl, omega arith)
generate_all-views (d ∷ ds) g named =
    let m = generate-Made d g named in
    let rest = generate_all-views ds (generate d g).1 m.named in
    let views_next : (generate_all ds (generate d g).1).0 ≡ _ = rw (m.kept, m.rate) at rest.0 in
    (rw (m.same, views_next) refl, omega (arith, rest.1, m.grown))
