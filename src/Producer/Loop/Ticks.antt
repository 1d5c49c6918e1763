-- ===== src/Producer/Loop/Ticks.antt =====
-- One tick of runGenerator in pv-producer/cmd/app/main.go within a burst.
use wallet_service.Base.{
  Option, none, some, ℕ, zero, suc, ◌+◌, ◌-◌, ◌≤◌, ◌<◌, ◌≡◌, refl, Bool, true, false, ltb, leb,
  ◌=ₛ◌, arith, if◌then◌else◌,
}
use wallet_service.Producer.Event.{PageViewEvent}
use wallet_service.Producer.Generator.{
  Generator, Draws, generate, repeat_or, below, generate_new, counted,
}
use wallet_service.Producer.Loop.{
  App, EventDraws, TickDraws, emit, count_one, emit_burst, start_burst, finish_burst, tick_burst,
  tick,
}

generate-counted :
    (d : Draws) (g : Generator)
    → ((generate d g).1.mode ≡ g.mode) × ((generate d g).1.event_counter ≡ suc g.event_counter)
unfolding generate
generate-counted d g =
    from_roll (below d.duplicate_roll g.duplicate_rate) g.last_event (generate_new d)
  where
    from_roll :
        (small : Bool) (last : Option PageViewEvent) (ev : PageViewEvent)
        → ((repeat_or small last ev (counted g)).1.mode ≡ g.mode)
          × ((repeat_or small last ev (counted g)).1.event_counter ≡ suc g.event_counter)
    from_roll true none ev = (refl, refl)
    from_roll true (some old) ev = (refl, refl)
    from_roll false last ev = (refl, refl)

abbrev pub min : ℕ → ℕ → ℕ
min a b = if leb a b then a else b

-- So many events more in a burst, and nothing else of the loop's state.
record Emits (n : ℕ) (a a' : App) : Type 0 where
  active : a'.burst.active ≡ a.burst.active
  count : a'.burst.count ≡ a.burst.count + n
  target : a'.burst.target ≡ a.burst.target
  interval : a'.interval ≡ a.interval
  mode : a'.generator.mode ≡ a.generator.mode
  counter : a'.generator.event_counter ≡ a.generator.event_counter + n

emit-Emits : (e : EventDraws) (a : App) → Emits 1 a (count_one (emit e a))
unfolding emit
emit-Emits e a = ground (arith, generate-counted e.draws a.generator)

emit_burst-Emits :
    (left i : ℕ) (t : TickDraws) (a : App)
    → a.burst.count ≤ a.burst.target
    → Emits (min left (a.burst.target - a.burst.count)) a (emit_burst left i t a)
unfolding emit_burst
emit_burst-Emits zero i t a h = ground arith
emit_burst-Emits (suc left) i t a h =
    let a1 : App = count_one (emit (t.event i) a) in
    ground (arith, emit-Emits (t.event i) a, emit_burst-Emits left (suc i) t a1)

-- In a burst that has not reached its target.
pub record IsBursting (a : App) : Type 0 where
  pub mode : (a.generator.mode =ₛ "burst") ≡ true
  pub active : a.burst.active ≡ true
  pub short : a.burst.count < a.burst.target

-- One tick in a burst: ten events, or as many as are left.
pub record Ticked (a a' : App) : Type 0 where
  pub active : a'.burst.active ≡ ltb (a.burst.count + 10) a.burst.target
  pub count : a.burst.count + 10 < a.burst.target → a'.burst.count ≡ a.burst.count + 10
  pub target : a'.burst.target ≡ a.burst.target
  pub interval : a'.interval ≡ a.interval
  pub mode : a'.generator.mode ≡ a.generator.mode
  pub counter :
      a'.generator.event_counter
      ≡ a.generator.event_counter + min 10 (a.burst.target - a.burst.count)

finish_burst-Ticked :
    (a b : App)
    → IsBursting a
    → Emits (min 10 (a.burst.target - a.burst.count)) a b
    → Ticked a (finish_burst b)
finish_burst-Ticked a b h e = record {
  active = ground arith;
  count = λ more. ground arith;
  target = ground arith;
  interval = ground arith;
  mode = ground arith;
  counter = ground arith;
}

pub start_burst-active : (t : TickDraws) (a : App) → a.burst.active ≡ true → start_burst t a ≡ a
unfolding start_burst
start_burst-active t a h = simp h

pub tick-burst :
    (t : TickDraws) (a : App) → (a.generator.mode =ₛ "burst") ≡ true → tick t a ≡ tick_burst t a
unfolding tick
tick-burst t a h = simp h

pub tick-Ticked : (t : TickDraws) (a : App) → IsBursting a → Ticked a (tick t a)
tick-Ticked t a h =
    rw (tick-burst t a h.mode, start_burst-active t a h.active)
      (finish_burst-Ticked a (emit_burst 10 0 t a) h
        (emit_burst-Emits 10 0 t a (omega (arith, h.short))))
