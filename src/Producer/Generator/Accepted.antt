-- ===== src/Producer/Generator/Accepted.antt =====
-- Events of pv-producer/internal/generator/generator.go under the checks of the aggregator.
use wallet_service.Base.{
  ℕ, zero, suc, String, ◌≡◌, ◌≢◌, ◌%◌, ◌<◌, ◌==◌, ◌&&◌, true, false, List, [], ◌∷◌, All, length,
  arith, refl, Bool, Bool-cases, inl, inr, if◌then◌else◌,
}
use wallet_service.Base.Int.{pos, leb_ℤ}
use wallet_service.Base.Text.{is_empty}
use wallet_service.Base.Result.{Result, ok, err}
use wallet_service.Aggregator.Event as Aggregator
use wallet_service.Aggregator.Event.{ValidationError, empty_page_id, bad_duration, validate}
use wallet_service.Producer.Event.{PageViewEvent, received}
use wallet_service.Producer.Generator.{
  Draws, get_or, pages, generate_page_id, generate_new, is_error, is_bounce, take_chars, spoil,
  negated, base_event, with_duration,
}

get_or-full :
    (xs : List String) (i : ℕ) (d : String)
    → i < length xs
    → All (λ s. is_empty s ≡ false) xs
    → is_empty (get_or xs i d) ≡ false
get_or-full [] i d h full = absurd (omega arith)
get_or-full (x ∷ xs) zero d h full = full.0
get_or-full (x ∷ xs) (suc i) d h full = get_or-full xs i d (omega arith) full.1

generate_page_id-full : (draw : ℕ) → is_empty (generate_page_id draw) ≡ false
unfolding generate_page_id is_empty
generate_page_id-full draw = get_or-full pages (draw % 10) "" (omega arith) (ground arith)

-- What the aggregator finds wrong with an event: nothing, unless it was spoiled, whatever the kind, or
-- is a bounce of no duration.
abbrev pub verdict : Draws → Result ValidationError Aggregator.PageViewEvent
unfolding generate_new
verdict d =
    if is_error d
    then (if d.error_type % 3 == 0 then err empty_page_id else err bad_duration)
    else (if is_bounce d && d.duration % 5000 == 0
        then err bad_duration
        else ok (received (generate_new d)))

negated_below : (n : ℕ) → leb_ℤ (negated n) (pos 0) ≡ true
negated_below zero = refl
negated_below (suc n) = ground arith

spoiled_verdict :
    (kind draw : ℕ) (base : PageViewEvent)
    → is_empty base.page_id ≡ false
    → is_empty base.user_id ≡ false
    → base.view_duration ≡ pos 0
    → validate (received (spoil kind draw base))
      ≡ (if kind == 0 then err empty_page_id else err bad_duration)
unfolding validate is_empty
spoiled_verdict zero draw base page user none_yet = ground arith
spoiled_verdict (suc zero) draw base page user none_yet =
    ground (arith, negated_below (draw % 1000))
spoiled_verdict (suc (suc k)) draw base page user none_yet = ground arith

timed_verdict :
    (bounce : Bool) (draw : ℕ) (base : PageViewEvent)
    → is_empty base.page_id ≡ false
    → is_empty base.user_id ≡ false
    → base.timestamp ≢ 0
    → validate (received (with_duration bounce draw base)) ≡ (
        if bounce && draw % 5000 == 0
        then err bad_duration
        else ok (received (with_duration bounce draw base)))
unfolding validate
timed_verdict true draw base page user timed = ground arith
timed_verdict false draw base page user timed = ground arith

module _ (d : Draws) (user : is_empty (take_chars 8 d.user_uuid) ≡ false) (timed : d.now ≢ 0) where
  -- An event that is not a duplicate is accepted by the aggregator, unless its draws spoil it or make
  -- it a bounce of no milliseconds: spoiled without a page it is refused for that, and else for
  -- its duration, which also an event of the third kind lacks.
  pub generate_new-verdict : validate (received (generate_new d)) ≡ verdict d
  unfolding generate_new
  generate_new-verdict = elim (Bool-cases (is_error d)) [
    | inl spoiled ↦ rw spoiled (
        spoiled_verdict (d.error_type % 3) d.negative (base_event d) (generate_page_id-full d.page)
          user refl)
    | inr sound ↦ rw sound (
        timed_verdict (is_bounce d) d.duration (base_event d) (generate_page_id-full d.page) user
          timed)
  ]
