-- ===== src/Wallet/Repo/Transfers.antt =====
-- Exchange of gw-currency-wallet/internal/repo_auth.go: how the two balances end.
use wallet_service.Base.{
  ℕ, String, ◌≡◌, ◌≢◌, ◌∙◌, refl, sym, ap, ◌⊎◌, inl, inr, true, false, Option, none, some,
}
use wallet_service.Base.Result.{Result, ok, err}
use wallet_service.Base.Dict.{Dict}
use wallet_service.Base.Int.{◌+ℤ◌, ◌-ℤ◌, ◌≤ℤ◌}
use wallet_service.Sql.{is_failed, Conn}
use wallet_service.Wallet.Errors.{Err, internal}
use wallet_service.Wallet.Money.{Float, Cents, FloatOps, units, store}
use wallet_service.Wallet.Db.{Tables, balance_of, update_credit, update_debit, credited}
use wallet_service.Wallet.Db.Updates.{
  assigned, outcome, kept, left_by, balance_of-update_balance_ne, update_balance-outcome,
}
use wallet_service.Wallet.Repo.Exchange.{Moved, Ended, exchange_atomic}
use wallet_service.Wallet.Repo.Amounts.{Moved-amounts}
use wallet_service.Wallet.Repo.{exchange}

-- The balance before and after a credit: the amount has been added, rounded to cents; or there is no such
-- balance, before and after, and nothing is credited.
abbrev pub Added : Float → Option Cents → Option Cents → Type 0
Added x old new =
    ((b : Cents) × (u : Cents) × (old ≡ some b) × (store (units b +ℤ x) ≡ some u) × (new ≡ some u))
    ⊎ ((old ≡ none) × (new ≡ none))

-- The balance before and after a debit: it covered the amount, which has been taken, rounded to cents.
abbrev pub Taken : Float → Option Cents → Option Cents → Type 0
Taken x old new =
    (a : Cents) × (v : Cents) × (old ≡ some a)
    × (x ≤ℤ units a)
    × (store (units a -ℤ x) ≡ some v)
    × (new ≡ some v)

module _ (w : ℕ) (from to : String) (debit credit : Float) where
  -- The tables before and after an exchange: those that the two updates leave, with the two balances.
  pub record Transferred (t t' : Tables) : Type 0 where
    pub moved : Moved w from to debit credit t t'
    pub taken : Taken debit (balance_of w from t.balances) (balance_of w from t'.balances)
    pub added : Added credit (balance_of w to t.balances) (balance_of w to t'.balances)

  -- What a credit has left of a balance, unless it failed.
  stored-Added :
      (b : Cents) (o : Option Cents)
      → store (units b +ℤ credit) ≡ o
      → is_failed (assigned o) ≡ false
      → Added credit (some b) (kept b o)
  stored-Added b (some u) e fine = inl (b, u, refl, e, refl)
  stored-Added b none e fine = cc

  left-Added :
      (old : Option Cents)
      → is_failed (outcome (λ _. true) (credited credit) old) ≡ false
      → Added credit old (left_by (λ _. true) (credited credit) old)
  unfolding credited
  left-Added none fine = inr (refl, refl)
  left-Added (some b) fine = stored-Added b (store (units b +ℤ credit)) refl fine

  credit-fine :
      (t : Tables)
      → is_failed (update_credit w to credit t).0 ≡ false
      → is_failed (outcome (λ _. true) (credited credit) (balance_of w to t.balances)) ≡ false
  unfolding update_credit
  credit-fine t fine =
      ap is_failed (sym (update_balance-outcome w to (λ _. true) (credited credit) t.balances))
      ∙ fine

  pub Moved-Transferred :
      (t t' : Tables) → from ≢ to → Moved w from to debit credit t t' → Transferred t t'
  unfolding update_debit
  Moved-Transferred t t' ne m =
      let (a, v, old, covered, stored, new, left) =
        Moved-amounts w from to debit credit t t' ne m in
      let same : balance_of w to (update_debit w from debit t).1.balances
          ≡ balance_of w to t.balances =
        balance_of-update_balance_ne w from _ _ w to t.balances (inr (λ e. ne (sym e))) in
      record {
        moved = m;
        taken = (a, v, old, covered, stored, new);
        added = rw left (
            left-Added (balance_of w to t.balances) (
              ap (λ o. is_failed (outcome (λ _. true) (credited credit) o)) (sym same)
              ∙ credit-fine (update_debit w from debit t).1 m.2));
      }

  module _ (ops : FloatOps) where
    -- How an exchange can end.
    abbrev pub Ends : Tables → Result Err (Dict Float) × Conn Tables → Type 0
    Ends t (ok m, c) = Transferred t c.tables
    Ends t (err e, c) = (c.tables ≡ t) ⊎ ((e ≡ internal) × Transferred t c.tables)

    Ended-Ends :
        (t : Tables) (q : Result Err (Dict Float) × Conn Tables)
        → from ≢ to
        → Ended ops w from to debit credit t q
        → Ends t q
    Ended-Ends t (ok m, c) ne h = Moved-Transferred t c.tables ne h
    Ended-Ends t (err e, c) ne (inl same) = inl same
    Ended-Ends t (err e, c) ne (inr (is_internal, moved)) =
        inr (is_internal, Moved-Transferred t c.tables ne moved)

    -- An exchange between two currencies changes nothing, or both updates are in the tables and nothing
    -- else. Then the first balance covered the debit and has lost it, and the second has gained the
    -- credit, each rounded to cents; only where the wallet has no balance in the second currency is the
    -- debit alone in the tables. A reply of new balances means the updates; an error other than
    -- `internal` that nothing has changed.
    pub exchange-Ends :
        (c : Conn Tables) → from ≢ to → Ends c.tables (exchange ops w from to debit credit c)
    exchange-Ends c ne =
        Ended-Ends c.tables (exchange ops w from to debit credit c) ne
          (exchange_atomic ops w from to debit credit c)
