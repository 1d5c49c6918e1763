-- ===== src/Producer/Loop/Bursts.antt =====
-- The bursts of runGenerator in pv-producer/cmd/app/main.go.
use wallet_service.Base.{
  ◌∙◌, ◌⊎◌, inl, inr, All, ℕ, zero, suc, ◌+◌, ◌-◌, ◌*◌, ◌%◌, ◌<◌, ◌≡◌, refl, true, false, ltb, ◌=ₛ◌,
  List, [], ◌∷◌, arith, ap,
}
use wallet_service.Producer.Loop.Controls.{stays, serve_control-counter, serve_control-mode}
use wallet_service.Producer.Loop.{
  App, TickDraws, start_burst, tick, AppTurn, ticked, controlled, serve_control, app_turn,
  run_generator,
}
use wallet_service.Producer.Loop.Ticks.{
  min, IsBursting, Ticked, start_burst-active, tick-burst, tick-Ticked,
}

abbrev pub ticks_in : List AppTurn → ℕ
ticks_in [] = 0
ticks_in (ticked t ∷ ts) = suc (ticks_in ts)
ticks_in (controlled method body ∷ ts) = ticks_in ts

-- What a request leaves of the loop: the burst, the interval and the number of events.
record Same (a b : App) : Type 0 where
  burst : b.burst ≡ a.burst
  interval : b.interval ≡ a.interval
  counter : b.generator.event_counter ≡ a.generator.event_counter

idle-Same : (ts : List AppTurn) (a : App) → ticks_in ts ≡ 0 → Same a (run_generator ts a)
unfolding run_generator
idle-Same [] a h = record { burst = refl; interval = refl; counter = refl }
idle-Same (ticked t ∷ ts) a h = ground arith
idle-Same (controlled method body ∷ ts) a h =
    let rest = idle-Same ts (serve_control method body a) h in
    record {
      burst = rest.burst;
      interval = rest.interval;
      counter = rest.counter ∙ serve_control-counter method body a;
    }

zero_or_suc : (n : ℕ) → (n ≡ 0) ⊎ ((m : ℕ) × (n ≡ suc m))
zero_or_suc zero = inl refl
zero_or_suc (suc m) = inr (m, refl)

-- After the ticks of a list.
record Ran (n : ℕ) (a a' : App) : Type 0 where
  active : a'.burst.active ≡ ltb (a.burst.count + 10 * n) a.burst.target
  interval : a'.interval ≡ a.interval
  counter :
      a'.generator.event_counter
      ≡ a.generator.event_counter + min (10 * n) (a.burst.target - a.burst.count)

Ran-last : {n : ℕ} (a b c : App) → Ticked a b → Same b c → n ≡ 0 → Ran (suc n) a c
Ran-last a b c k s last = record {
  active = ground (arith, k.active, s.burst);
  interval = s.interval ∙ k.interval;
  counter = ground (arith, k.counter, s.counter);
}

IsBursting-next :
    (a b : App) → IsBursting a → Ticked a b → a.burst.count + 10 < a.burst.target → IsBursting b
IsBursting-next a b h k more = record {
  mode = rw k.mode h.mode;
  active = ground (arith, k.active);
  short = omega (arith, k.count more, k.target);
}

Ran-step :
    (n : ℕ) (a b c : App)
    → Ticked a b
    → a.burst.count + 10 < a.burst.target
    → Ran n b c
    → Ran (suc n) a c
Ran-step n a b c k more r =
    let at_b = k.count more in
    record {
      active = ground (arith, at_b, k.target, r.active);
      interval = ground (arith, r.interval, k.interval);
      counter = ground (arith, at_b, k.target, k.counter, r.counter);
    }

-- With a tick, and what comes behind it.
run-Ran :
    (ts : List AppTurn) (a : App)
    → All (λ x. stays x ≡ true) ts
    → IsBursting a
    → a.burst.count + 10 * ticks_in ts < a.burst.target + 10
    → Ran (ticks_in ts) a (run_generator ts a)
unfolding run_generator app_turn serve_control
run-Ran [] a stay h enough = record {
  active = ground (arith, h.short, h.active);
  interval = refl;
  counter = ground arith;
}
run-Ran (controlled method body ∷ ts) a (stay, stays_on) h enough =
    let rest =
      run-Ran ts (serve_control method body a) stays_on
        (record {
          mode = serve_control-mode method body a stay h.mode;
          active = h.active;
          short = h.short;
        })
        enough in
    record {
      active = rest.active;
      interval = rest.interval;
      counter = ground (arith, rest.counter, serve_control-counter method body a);
    }
run-Ran (ticked t ∷ ts) a (stay, stays_on) h enough = elim (zero_or_suc (ticks_in ts)) [
  | inl last ↦
      Ran-last a (tick t a) (run_generator ts (tick t a)) (tick-Ticked t a h)
        (idle-Same ts (tick t a) last) last
  | inr (n, more_ticks) ↦
      let k = tick-Ticked t a h in
      let more : a.burst.count + 10 < a.burst.target = omega arith in
      Ran-step (ticks_in ts) a (tick t a) (run_generator ts (tick t a)) k more (
        run-Ran ts (tick t a) stays_on (IsBursting-next a (tick t a) h k more)
          (omega (arith, k.count more, k.target)))
]

-- The number of events that a burst draws: 100 to 999.
abbrev pub target_of : TickDraws → ℕ
target_of t = 100 + t.target_draw % 900

abbrev begun : TickDraws → App → App
begun t a = record a { burst = record { active = true; count = 0; target = target_of t } }

start_burst-idle : (t : TickDraws) (a : App) → a.burst.active ≡ false → start_burst t a ≡ begun t a
unfolding start_burst
start_burst-idle t a h = simp h

tick-begun :
    (t : TickDraws) (a : App)
    → (a.generator.mode =ₛ "burst") ≡ true
    → a.burst.active ≡ false
    → tick t a ≡ tick t (begun t a)
tick-begun t a mode idle =
    rw
      (
        tick-burst t a mode,
        tick-burst t (begun t a) mode,
        start_burst-idle t a idle,
        start_burst-active t (begun t a) refl,
      )
      refl

run-begun :
    (t : TickDraws) (ts : List AppTurn) (a : App)
    → (a.generator.mode =ₛ "burst") ≡ true
    → a.burst.active ≡ false
    → run_generator (ticked t ∷ ts) a ≡ run_generator (ticked t ∷ ts) (begun t a)
unfolding run_generator app_turn
run-begun t ts a mode idle = ap (run_generator ts) (tick-begun t a mode idle)

-- A burst ends if no request to /control takes the generator out of the burst mode: begun in that mode
-- with a target of 100 to 999 events, it makes ten events in each tick, is active as long as fewer than
-- the target are made, and stops in the tick that makes the last of them, the tenth to the hundredth,
-- having made exactly so many. Between the ticks any requests may be served that leave the mode or set
-- it to burst again, whatever else they set. Meanwhile the ticker keeps the interval that it had before.
pub burst_ends :
    (t : TickDraws) (ts : List AppTurn) (a : App)
    → (a.generator.mode =ₛ "burst") ≡ true
    → a.burst.active ≡ false
    → All (λ x. stays x ≡ true) ts
    → 10 * ticks_in ts < target_of t
    → ((run_generator (ticked t ∷ ts) a).burst.active
        ≡ ltb (10 * ticks_in (ticked t ∷ ts)) (target_of t))
      × ((run_generator (ticked t ∷ ts) a).generator.event_counter
          ≡ a.generator.event_counter + min (10 * ticks_in (ticked t ∷ ts)) (target_of t))
      × ((run_generator (ticked t ∷ ts) a).interval ≡ a.interval)
burst_ends t ts a mode idle stay enough =
    let r =
      run-Ran (ticked t ∷ ts) (begun t a) (refl, stay)
        (record { mode = mode; active = refl; short = omega arith }) (omega arith) in
    rw (run-begun t ts a mode idle)
      (ground (arith, r.active), ground (arith, r.counter), r.interval)
