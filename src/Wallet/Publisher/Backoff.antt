-- ===== src/Wallet/Publisher/Backoff.antt =====
-- The pauses of Publish, gw-currency-wallet/internal/kafka/publisher.go.
use native.Mathlib.Nat.{mul_assoc, mod-eq_of_lt, le-mul_of_pos_right}
use wallet_service.Base.{ℕ, zero, suc, ◌*◌, ◌^◌, ◌<◌, ◌≡◌, sym, ap, ◌∙◌, subst, arith}
use wallet_service.Wallet.Publisher.{Publisher, doubled, backoff}

-- 2 to the power of a number.
abbrev pub power_of_two : ℕ → ℕ
power_of_two zero = 1
power_of_two (suc n) = 2 * power_of_two n

power_of_two-pos : (n : ℕ) → 0 < power_of_two n
power_of_two-pos zero = omega arith
power_of_two-pos (suc n) = omega (arith, power_of_two-pos n)

doubled-exact : (n d : ℕ) → d * power_of_two n < 2 ^ 64 → doubled n d ≡ d * power_of_two n
unfolding doubled
doubled-exact zero d h = omega arith
doubled-exact (suc n) d h =
    let twice : d * 2 * power_of_two n ≡ d * (2 * power_of_two n) =
      mul_assoc d 2 (power_of_two n) in
    let bound : d * 2 * power_of_two n < 2 ^ 64 = subst (λ x. x < 2 ^ 64) (sym twice) h in
    let fits : d * 2 < 2 ^ 64 =
      omega (arith, bound, le-mul_of_pos_right (d * 2) (power_of_two-pos n)) in
    ap (doubled n) (mod-eq_of_lt fits) ∙ doubled-exact n (d * 2) bound ∙ twice

-- The pause of Publish before its attempt n + 1, counted from 0, is the configured backoff in
-- nanoseconds times 2 to the power of n, provided that this product fits the 63 bits of a Duration.
backoff-exact :
    (p : Publisher) (n : ℕ)
    → p.backoff_ms * 1000000 * power_of_two n < 2 ^ 63
    → backoff p n ≡ p.backoff_ms * 1000000 * power_of_two n
unfolding backoff
backoff-exact p n h =
    let base = p.backoff_ms * 1000000 in
    let bound : base * power_of_two n < 2 ^ 64 = omega (arith, h) in
    let fits : base < 2 ^ 64 =
      omega (arith, bound, le-mul_of_pos_right base (power_of_two-pos n)) in
    ap (doubled n) (mod-eq_of_lt fits) ∙ doubled-exact n base bound
