-- ===== src/Wallet/Ledger/Statements.antt =====
-- The statements of gw-currency-wallet/internal/repo_auth.go on a table that shows a ledger.
use wallet_service.Base.{
  ℕ, String, ◌≡◌, refl, ◌⊎◌, inl, inr, Bool, true, false, eq_iff, Option, none, some, List, [], ◌∷◌,
  arith, if◌then◌else◌,
}
use wallet_service.Base.Int.{◌+ℤ◌, ◌-ℤ◌, leb_ℤ}
use wallet_service.Sql.{
  Sql, row, no_rows, failed, Conn, run_sql, Delivery, answered, refused, lost, deliver, pop,
}
use wallet_service.Wallet.Errors.{Err, not_found, insufficient_funds, internal}
use wallet_service.Wallet.Money.{Float, Cents, FloatOps, units, store}
use wallet_service.Wallet.Db.{
  Tables, BalanceRow, balance_of, matches, update_balance, update_credit, update_debit, credited,
  debited, covers,
}
use wallet_service.Wallet.Db.Updates.{outcome, assigned, kept, left_by, update_balance-outcome}
use wallet_service.Wallet.Repo.{scanned, first}
use wallet_service.Wallet.Ledger.{
  Ledger, Answer, at, set_balance, stored_or, after_deposit, after_withdrawal, answer_of,
}

-- The table holds for each key what the ledger says.
abbrev pub Shows : Tables → Ledger → Type 0
Shows t l = (w : ℕ) (cur : String) → balance_of w cur t.balances ≡ l w cur

module _ (w : ℕ) (c : String) (test : Cents → Bool) (f : Cents → Option Cents) where
  balance_of-update :
      (w' : ℕ) (c' : String) (bs : List BalanceRow)
      → balance_of w' c' (update_balance w c test f bs).1
        ≡ (if at w c w' c' then left_by test f (balance_of w c bs) else balance_of w' c' bs)
  unfolding update_balance balance_of matches
  balance_of-update w' c' [] = ground arith
  balance_of-update w' c' (r ∷ rs) =
      ground
        (arith, eq_iff r.currency c, eq_iff r.currency c', eq_iff c' c, balance_of-update w' c' rs)

update-Shows :
    (w : ℕ) (c : String) (test : Cents → Bool) (f : Cents → Option Cents) (amount : Option Cents)
    (t : Tables) (l : Ledger)
    → Shows t l
    → left_by test f (l w c) ≡ amount
    → Shows
        (record t { balances = (update_balance w c test f t.balances).1 })
        (set_balance w c amount l)
unfolding set_balance
update-Shows w c test f amount t l h e w' c' =
    rw (balance_of-update w c test f w' c' t.balances, h w c, h w' c', e) refl

-- What the caller of a statement makes of its report.
abbrev pub sql_answer : Err → Sql Cents → Answer
sql_answer e (row v) = none
sql_answer e no_rows = some e
sql_answer e (failed s) = some internal

deposit_left :
    (x : Float) (o : Option Cents)
    → (left_by (λ _. true) (credited x) o ≡ (after_deposit x o).0)
      × (sql_answer not_found (outcome (λ _. true) (credited x) o) ≡ (after_deposit x o).1)
unfolding after_deposit credited
deposit_left x none = (refl, refl)
deposit_left x (some a) = from_store (store (units a +ℤ x))
  where
    from_store :
        (v : Option Cents)
        → (kept a v ≡ (stored_or a v).0) × (sql_answer not_found (assigned v) ≡ (stored_or a v).1)
    from_store none = (refl, refl)
    from_store (some v) = (refl, refl)

withdrawal_left :
    (x : Float) (o : Option Cents)
    → (left_by (covers x) (debited x) o ≡ (after_withdrawal x o).0)
      × (sql_answer insufficient_funds (outcome (covers x) (debited x) o)
          ≡ (after_withdrawal x o).1)
unfolding after_withdrawal debited covers
withdrawal_left x none = (refl, refl)
withdrawal_left x (some a) = from_test (leb_ℤ x (units a)) (store (units a -ℤ x))
  where
    from_test :
        (b : Bool) (v : Option Cents)
        → ((if b then kept a v else some a)
            ≡ (if b then stored_or a v else (some a, some insufficient_funds)).0)
          × (sql_answer insufficient_funds (if b then assigned v else no_rows)
              ≡ (if b then stored_or a v else (some a, some insufficient_funds)).1)
    from_test false v = (refl, refl)
    from_test true none = (refl, refl)
    from_test true (some v) = (refl, refl)

module _ (w : ℕ) (c : String) (x : Float) (t : Tables) (l : Ledger) (h : Shows t l) where
  pub update_credit-Shows :
      Shows (update_credit w c x t).1 (set_balance w c (after_deposit x (l w c)).0 l)
  unfolding update_credit
  update_credit-Shows =
      update-Shows w c (λ _. true) (credited x) (after_deposit x (l w c)).0 t l h
        (deposit_left x (l w c)).0

  pub update_credit-answer :
      sql_answer not_found (update_credit w c x t).0 ≡ (after_deposit x (l w c)).1
  unfolding update_credit
  update_credit-answer =
      rw (update_balance-outcome w c (λ _. true) (credited x) t.balances, h w c)
        (deposit_left x (l w c)).1

  pub update_debit-Shows :
      Shows (update_debit w c x t).1 (set_balance w c (after_withdrawal x (l w c)).0 l)
  unfolding update_debit
  update_debit-Shows =
      update-Shows w c (covers x) (debited x) (after_withdrawal x (l w c)).0 t l h
        (withdrawal_left x (l w c)).0

  pub update_debit-answer :
      sql_answer insufficient_funds (update_debit w c x t).0 ≡ (after_withdrawal x (l w c)).1
  unfolding update_debit
  update_debit-answer =
      rw (update_balance-outcome w c (covers x) (debited x) t.balances, h w c)
        (withdrawal_left x (l w c)).1

-- A call through the network: the statement has run and its report is passed on or lost, or it has not
-- run.
abbrev pub Ran : Tables → Tables → Answer → Answer × Conn Tables → Type 0
Ran before after answer (a, c) =
    ((c.tables ≡ after) × ((a ≡ answer) ⊎ (a ≡ some internal)))
    ⊎ ((c.tables ≡ before) × (a ≡ some internal))

pub scanned-Ran :
    (ops : FloatOps) (e : Err) (stmt : Tables → Sql Cents × Tables) (c : Conn Tables)
    → Ran c.tables
        (stmt c.tables).1
        (sql_answer e (stmt c.tables).0)
        (answer_of (first (scanned ops e) (run_sql stmt c)))
unfolding run_sql
scanned-Ran ops e stmt c = from_network c.faults (stmt c.tables)
  where
    from_network :
        (ds : List Delivery) (r : Sql Cents × Tables)
        → Ran c.tables r.1
            (sql_answer e r.0)
            (answer_of (first (scanned ops e) (deliver (pop ds c.tables) r)))
    from_network [] (row v, t) = inl (refl, inl refl)
    from_network [] (no_rows, t) = inl (refl, inl refl)
    from_network [] (failed s, t) = inl (refl, inl refl)
    from_network (answered ∷ ds) (row v, t) = inl (refl, inl refl)
    from_network (answered ∷ ds) (no_rows, t) = inl (refl, inl refl)
    from_network (answered ∷ ds) (failed s, t) = inl (refl, inl refl)
    from_network (refused ∷ ds) r = inr (refl, refl)
    from_network (lost ∷ ds) r = inl (refl, inr refl)
