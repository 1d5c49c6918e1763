-- ===== src/Wallet/Db/Updates.antt =====
-- The UPDATE statements of gw-currency-wallet/internal/repo_auth.go, row by row.
use wallet_service.Base.{
  sym, ◌∙◌, ℕ, ◌≡◌, ◌≢◌, refl, ◌⊎◌, inl, inr, Bool-cases, String, Bool, true, false, eq_iff, Option,
  none, some, List, [], ◌∷◌, arith, All, if◌then◌else◌,
}
use wallet_service.Sql.{Sql, row, no_rows, failed, other_failure, is_row}
use wallet_service.Wallet.Money.{Cents}
use wallet_service.Wallet.Db.{BalanceRow, matches, balance_of, assign, update_balance}

-- The UPDATE of one key, seen from outside: what the statement reports, and the amount it leaves.
abbrev pub assigned : Option Cents → Sql Cents
assigned none = failed other_failure
assigned (some v) = row v

abbrev pub outcome : (Cents → Bool) → (Cents → Option Cents) → Option Cents → Sql Cents
outcome test f none = no_rows
outcome test f (some a) = if test a then assigned (f a) else no_rows

abbrev pub kept : Cents → Option Cents → Option Cents
kept a none = some a
kept a (some v) = some v

abbrev pub left_by : (Cents → Bool) → (Cents → Option Cents) → Option Cents → Option Cents
left_by test f none = none
left_by test f (some a) = if test a then kept a (f a) else some a

module _ (w : ℕ) (c : String) (test : Cents → Bool) (f : Cents → Option Cents) where
  pub update_balance-outcome :
      (bs : List BalanceRow) → (update_balance w c test f bs).0 ≡ outcome test f (balance_of w c bs)
  unfolding update_balance balance_of
  update_balance-outcome [] = refl
  update_balance-outcome (r ∷ rs) = ground (arith, update_balance-outcome rs)

  pub balance_of-update_balance :
      (bs : List BalanceRow)
      → balance_of w c (update_balance w c test f bs).1 ≡ left_by test f (balance_of w c bs)
  unfolding update_balance balance_of
  balance_of-update_balance [] = refl
  balance_of-update_balance (r ∷ rs) = ground (arith, balance_of-update_balance rs)

  -- No other key's amount changes.
  pub balance_of-update_balance_ne :
      (w' : ℕ) (c' : String) (bs : List BalanceRow)
      → (w' ≢ w) ⊎ (c' ≢ c)
      → balance_of w' c' (update_balance w c test f bs).1 ≡ balance_of w' c' bs
  unfolding update_balance balance_of matches
  balance_of-update_balance_ne w' c' [] h = refl
  balance_of-update_balance_ne w' c' (r ∷ rs) h =
      ground
        (arith, eq_iff r.currency c, eq_iff r.currency c', balance_of-update_balance_ne w' c' rs h)

  -- A statement that reports no row, or fails, leaves the table as it was.
  pub update_balance_unchanged :
      (bs : List BalanceRow)
      → is_row (update_balance w c test f bs).0 ≡ false
      → (update_balance w c test f bs).1 ≡ bs
  unfolding update_balance
  update_balance_unchanged [] h = refl
  update_balance_unchanged (r ∷ rs) h = ground (arith, update_balance_unchanged rs)

  module _ (P : Cents → Type 0) where
    All-assign :
        (b : Bool) (o : Option Cents) (r : BalanceRow) (rs : List BalanceRow)
        → ((v : Cents) → b ≡ true → o ≡ some v → P v)
        → All (λ x. P x.amount) (r ∷ rs)
        → All (λ x. P x.amount) (if b then assign o r rs else (no_rows, r ∷ rs)).1
    All-assign false o r rs keep h = h
    All-assign true none r rs keep h = h
    All-assign true (some v) r rs keep h = (keep v refl refl, h.1)

    -- What holds of every stored amount, and of every one that is assigned, holds afterwards.
    pub All-update_balance :
        (bs : List BalanceRow)
        → ((a v : Cents) → P a → test a ≡ true → f a ≡ some v → P v)
        → All (λ r. P r.amount) bs
        → All (λ r. P r.amount) (update_balance w c test f bs).1
    unfolding update_balance
    All-update_balance [] keep h = tt
    All-update_balance (r ∷ rs) keep h = elim (Bool-cases (matches w c r.wallet_id r.currency)) [
      | inl here ↦
          rw (here, update_balance)
            (All-assign (test r.amount) (f r.amount) r rs (λ v. keep r.amount v h.0) h)
      | inr there ↦ rw (there, update_balance) (h.0, All-update_balance rs keep h.1)
    ]

row_outcome :
    (test : Cents → Bool) (f : Cents → Option Cents) (o : Option Cents) (v : Cents)
    → outcome test f o ≡ row v
    → (a : Cents) × (o ≡ some a) × (test a ≡ true) × (f a ≡ some v) × (left_by test f o ≡ some v)
row_outcome test f none v h = cc
row_outcome test f (some a) v h = (a, refl, ground arith, ground arith, ground arith)

missing_outcome :
    (test : Cents → Bool) (f : Cents → Option Cents) (o : Option Cents)
    → outcome test f o ≡ no_rows
    → (a : Cents) → o ≡ some a
    → test a ≡ false
missing_outcome test f o h a e = ground arith

module _ (w : ℕ) (c : String) (test : Cents → Bool) (f : Cents → Option Cents) where
  -- A row that is returned had passed the test, and holds the new amount.
  pub update_balance-row :
      (bs : List BalanceRow) (v : Cents)
      → (update_balance w c test f bs).0 ≡ row v
      → (a : Cents) × (balance_of w c bs ≡ some a)
        × (test a ≡ true)
        × (f a ≡ some v)
        × (balance_of w c (update_balance w c test f bs).1 ≡ some v)
  update_balance-row bs v h =
      rw balance_of-update_balance
        (row_outcome test f (balance_of w c bs) v (sym (update_balance-outcome w c test f bs) ∙ h))

  -- No row means that there is none at the key, or that it fails the test.
  pub update_balance-no_rows :
      (bs : List BalanceRow)
      → (update_balance w c test f bs).0 ≡ no_rows
      → (a : Cents) → balance_of w c bs ≡ some a
      → test a ≡ false
  update_balance-no_rows bs h =
      missing_outcome test f (balance_of w c bs) (sym (update_balance-outcome w c test f bs) ∙ h)
