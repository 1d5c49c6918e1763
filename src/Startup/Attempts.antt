-- ===== src/Startup/Attempts.antt =====
-- connectWithRetry of gw-exchanger/cmd/app/main.go and its twin in gw-currency-wallet/cmd/app/main.go.
use native.Mathlib.Decide.{dec_lt}
use wallet_service.Base.{
  ℕ, zero, suc, ◌+◌, ◌*◌, ◌/◌, ◌≤◌, ◌<◌, ◌≡◌, true, false, ltb, Option, none, some, Bool-cases, inl,
  inr, arith,
}
use wallet_service.Startup.{
  Attempt, Connection, opened, deadline_exceeded, bad_dsn, succeeds, spent, connect_loop,
  connect_with_retry,
}

abbrev pub Failed : (ℕ → Attempt) → ℕ → ℕ → Type 0
Failed attempts from to = (k : ℕ) → from ≤ k → k < to → succeeds (attempts k) ≡ false

-- How a run may end that starts with the attempt `from` and has time for `limit` failures.
abbrev pub Ends : (ℕ → Attempt) → ℕ → ℕ → Option Connection → Type 0
Ends attempts from limit none = ⊥
Ends attempts from limit (some (opened n)) =
    (from ≤ n) × (n < from + limit) × (succeeds (attempts n) ≡ true) × Failed attempts from n
Ends attempts from limit (some (deadline_exceeded n)) =
    (from ≤ n) × (n ≤ from + limit) × Failed attempts from n
Ends attempts from limit (some bad_dsn) = ⊥

spent_le : (a : Attempt) → 2000 ≤ spent a
spent_le a = ground arith

Failed-cons :
    (attempts : ℕ → Attempt) (from to : ℕ)
    → succeeds (attempts from) ≡ false
    → Failed attempts (suc from) to
    → Failed attempts from to
Failed-cons attempts from to first later k low high = elim (dec_lt from k) [
  | yes above ↦ later k (omega arith) high
  | no at ↦ let same : k ≡ from = omega arith in rw same first
]

Ends-cons :
    (attempts : ℕ → Attempt) (from limit : ℕ) (r : Option Connection)
    → succeeds (attempts from) ≡ false
    → Ends attempts (suc from) limit r
    → Ends attempts from (suc limit) r
Ends-cons attempts from limit none first h = absurd h
Ends-cons attempts from limit (some bad_dsn) first h = absurd h
Ends-cons attempts from limit (some (opened n)) first (low, high, good, failed) =
    (omega arith, omega arith, good, Failed-cons attempts from n first failed)
Ends-cons attempts from limit (some (deadline_exceeded n)) first (low, high, failed) =
    (omega arith, omega arith, Failed-cons attempts from n first failed)

Ends-late :
    (attempts : ℕ → Attempt) (from limit : ℕ)
    → Ends attempts from limit (some (deadline_exceeded from))
Ends-late attempts from limit = (omega arith, omega arith, λ k low high. absurd (omega arith))

connect_loop-Ends :
    (fuel limit : ℕ) (attempts : ℕ → Attempt) (deadline now from : ℕ)
    → limit < fuel
    → deadline ≤ now + 2000 * limit
    → Ends attempts from limit (connect_loop fuel attempts deadline now from)
unfolding connect_loop
connect_loop-Ends zero limit attempts deadline now from fuel_left enough = absurd (omega arith)
connect_loop-Ends (suc fuel) zero attempts deadline now from fuel_left enough =
    let late : ltb now deadline ≡ false = ground arith in rw late (Ends-late attempts from 0)
connect_loop-Ends (suc fuel) (suc limit) attempts deadline now from fuel_left enough =
    elim (Bool-cases (ltb now deadline)) [
      | inr late ↦ rw late (Ends-late attempts from (suc limit))
      | inl early ↦ elim (Bool-cases (succeeds (attempts from))) [
        | inl good ↦
            rw (early, good) (omega arith, omega arith, good, λ k low high. absurd (omega arith))
        | inr bad ↦
            rw (early, bad)
              (Ends-cons attempts from limit
                (connect_loop fuel attempts deadline (now + spent (attempts from)) (suc from)) bad
                (connect_loop-Ends fuel limit attempts deadline (now + spent (attempts from))
                  (suc from) (omega arith) (omega (arith, spent_le (attempts from)))))
      ]
    ]

-- Connecting ends, with any timeout and however the attempts go: with the pool of the first attempt that
-- succeeds, or with the deadline after attempts that all failed, and of a timeout of n seconds after
-- no more than half of n attempts, rounded up: 15 for the 30 seconds of both services.
pub connect_with_retry-Ends :
    (timeout_seconds : ℕ) (attempts : ℕ → Attempt) (now : ℕ)
    → Ends attempts 0
        ((timeout_seconds + 1) / 2)
        (connect_with_retry true timeout_seconds attempts now)
unfolding connect_with_retry
connect_with_retry-Ends timeout_seconds attempts now =
    connect_loop-Ends (timeout_seconds + 1) ((timeout_seconds + 1) / 2) attempts
      (now + timeout_seconds * 1000) now 0 (omega arith) (omega arith)
