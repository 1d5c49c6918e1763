-- ===== src/Wallet/Money.antt =====
-- Amounts. A float64 is the decimal numeral that it prints as (the shortest one, which is what the
-- driver sends as a parameter), counted in units of 10^-340: no float64 needs a finer unit, and the
-- order of two floats is that of their numerals. A NUMERIC(18,2) column holds whole cents.
use wallet_service.Base.{
  ℕ, suc, ◌+◌, ◌*◌, ◌/◌, ◌^◌, ◌≤◌, ◌≡◌, Option, none, some, arith, ltb, if◌then◌else◌,
}
use wallet_service.Base.Int.{ℤ, pos, negsuc, pos_part, neg_part, sub_ℕ, ◌≤ℤ◌}

-- float64, in units of 10^-340.
abbrev pub Float : Type 0
Float = ℤ

-- A value of the column `balances.amount`, in cents.
abbrev pub Cents : Type 0
Cents = ℤ

abbrev pub per_cent : ℕ
per_cent = 10 ^ 338

-- The exact value of a stored amount, in the units of a parameter.
unfoldable pub units : Cents → Float
units c = sub_ℕ (per_cent * pos_part c) (per_cent * neg_part c)

-- Storing into NUMERIC(18,2) rounds to the nearest cent, halves away from zero.
unfoldable pub to_cents : Float → Cents
to_cents (pos n) = pos ((2 * n + per_cent) / (2 * per_cent))
to_cents (negsuc n) = sub_ℕ 0 ((2 * suc n + per_cent) / (2 * per_cent))

-- The column has 18 digits: what does not fit is an error of the statement.
abbrev pub cents_limit : ℕ
cents_limit = 10 ^ 18

unfoldable pub store : Float → Option Cents
unfolding to_cents
store x =
    if ltb (pos_part (to_cents x) + neg_part (to_cents x)) cents_limit
    then some (to_cents x)
    else none

pub units_parts :
    (c : Cents)
    → pos_part (units c) + per_cent * neg_part c ≡ neg_part (units c) + per_cent * pos_part c
unfolding units
units_parts c = ground arith

-- A stored amount is off by half a cent at most.
pub to_cents_near :
    (x : Float)
    → (2 * (pos_part (units (to_cents x)) + neg_part x)
        ≤ 2 * (neg_part (units (to_cents x)) + pos_part x) + per_cent)
      × (2 * (neg_part (units (to_cents x)) + pos_part x)
          ≤ 2 * (pos_part (units (to_cents x)) + neg_part x) + per_cent)
unfolding units to_cents
to_cents_near (pos n) = ground arith
to_cents_near (negsuc n) = ground arith

-- Whole cents are stored exactly.
pub to_cents-units : (c : Cents) → to_cents (units c) ≡ c
unfolding to_cents units
to_cents-units c = ground arith

-- Rounding keeps the sign.
pub to_cents_nonneg : (x : Float) → pos 0 ≤ℤ x → pos 0 ≤ℤ to_cents x
unfolding to_cents
to_cents_nonneg (pos n) h = omega arith
to_cents_nonneg (negsuc n) h = absurd (omega arith)

-- The float operations of Go and of the driver: `scan` reads a NUMERIC into a float64, `mul`, `quo`
-- and `round` are `*`, `/` and `math.Round` with their IEEE rounding.
pub record FloatOps : Type 0 where
  pub scan : Cents → Float
  pub mul : Float → Float → Float
  pub quo : Float → Float → Float
  pub round : Float → Float

-- The float64 of a whole number.
abbrev pub whole : ℕ → Float
whole n = pos (n * 10 ^ 340)
