-- ===== src/Producer/Generator/Pace.antt =====
-- The pauses between the events of pv-producer/internal/generator/generator.go.
use wallet_service.Base.{◌≤◌, ◌≡◌, ◌=ₛ◌, arith, true}
use wallet_service.Base.Int.{ℤ, pos, negsuc}
use wallet_service.Producer.Generator.{Generator, get_interval, positive_rps, interval_ms}

interval_ms-bounds : (rps : ℤ) → (100 ≤ interval_ms rps) × (interval_ms rps ≤ 1000)
interval_ms-bounds (pos n) = ground (arith)
interval_ms-bounds (negsuc n) = omega arith

module _ (g : Generator) where
  -- Whatever the mode and the rate are set to, a pause takes between 100 milliseconds and 10 seconds;
  -- in the regular mode it takes at most one second, so one to ten events are made in a second.
  get_interval-bounds :
      (100 ≤ (get_interval g).0)
      × ((get_interval g).0 ≤ 10000)
      × ((g.mode =ₛ "regular") ≡ true → (get_interval g).0 ≤ 1000)
  unfolding get_interval
  get_interval-bounds = ground (arith, interval_ms-bounds (positive_rps g.rps))
