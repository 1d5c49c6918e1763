-- ===== src/Wallet/Repo/Amounts.antt =====
-- The stored amounts under the methods of gw-currency-wallet/internal/repo_auth.go.
use wallet_service.Base.{
  ℕ, String, ◌≡◌, ◌≢◌, ◌∙◌, refl, sym, ap, ◌⊎◌, inl, inr, true, some, arith, All,
}
use wallet_service.Base.Result.{Result, ok, err}
use wallet_service.Base.Dict.{Dict}
use wallet_service.Base.Int.{pos, ◌+ℤ◌, ◌-ℤ◌, ◌≤ℤ◌, ◌<ℤ◌, leb_ℤ→≤ℤ, leb_ℤ→<ℤ, int_laws}
use wallet_service.Sql.{Sql, row, no_rows, failed, Conn, run_sql}
use wallet_service.Sql.Laws.{run_sql_done, run_sql_keeps}
use wallet_service.Wallet.Errors.{Err, insufficient_funds, not_found, internal}
use wallet_service.Wallet.Money.{Float, Cents, FloatOps, units, store, units_parts, to_cents_nonneg}
use wallet_service.Wallet.Db.{
  Tables, balance_of, update_credit, update_debit, credited, debited, covers,
}
use wallet_service.Wallet.Db.Updates.{
  left_by, balance_of-update_balance, balance_of-update_balance_ne, All-update_balance,
  update_balance_unchanged, update_balance-row, update_balance-no_rows,
}
use wallet_service.Wallet.Repo.Exchange.{Moved, Ended, exchange_atomic}
use wallet_service.Wallet.Repo.{scanned, deposit, withdraw, exchange}

-- No stored amount is negative.
abbrev pub NonNegative : Tables → Type 0
NonNegative t = All (λ r. pos 0 ≤ℤ r.amount) t.balances

pub store_nonneg : (x : Float) (v : Cents) → pos 0 ≤ℤ x → store x ≡ some v → pos 0 ≤ℤ v
unfolding store
store_nonneg x v h e = ground (arith, to_cents_nonneg x h)

pub update_credit-NonNegative :
    (w : ℕ) (cur : String) (x : Float) (t : Tables)
    → pos 0 ≤ℤ x
    → NonNegative t
    → NonNegative (update_credit w cur x t).1
unfolding update_credit credited
update_credit-NonNegative w cur x t h inv =
    All-update_balance w cur (λ _. true) (credited x) (λ a. pos 0 ≤ℤ a) t.balances
      (λ a v ha _ e. store_nonneg (units a +ℤ x) v (omega (int_laws, units_parts a)) e) inv

-- The guard of the statement keeps the amount at zero or above, whatever is debited.
pub update_debit-NonNegative :
    (w : ℕ) (cur : String) (x : Float) (t : Tables)
    → NonNegative t
    → NonNegative (update_debit w cur x t).1
unfolding update_debit debited covers
update_debit-NonNegative w cur x t inv =
    All-update_balance w cur (covers x) (debited x) (λ a. pos 0 ≤ℤ a) t.balances
      (λ a v ha c e. store_nonneg (units a -ℤ x) v (ground (arith, debit_rest a x)) e) inv
  where
    debit_rest : (a : Cents) (x : Float) → x ≤ℤ units a → pos 0 ≤ℤ units a -ℤ x
    debit_rest a x h = omega int_laws

scanned-ok :
    (ops : FloatOps) (e : Err) (s : Sql Cents) (y : Float)
    → scanned ops e s ≡ ok y
    → (v : Cents) × (s ≡ row v) × (y ≡ ops.scan v)
scanned-ok ops e (row v) y h = (v, refl, ground arith)
scanned-ok ops e no_rows y h = cc
scanned-ok ops e (failed _) y h = cc

scanned-refused :
    (ops : FloatOps) (e : Err) (s : Sql Cents)
    → e ≢ internal
    → scanned ops e s ≡ err e
    → s ≡ no_rows
scanned-refused ops e (row v) ne h = cc
scanned-refused ops e no_rows ne h = refl
scanned-refused ops e (failed _) ne h = absurd (ne (ground arith))

row_done :
    (stmt : Tables → Sql Cents × Tables) (c : Conn Tables) (v : Cents)
    → (run_sql stmt c).0 ≡ row v
    → ((stmt c.tables).0 ≡ row v) × ((run_sql stmt c).1.tables ≡ (stmt c.tables).1)
row_done stmt c v h = ground (arith, run_sql_done stmt c)

no_rows_done :
    (stmt : Tables → Sql Cents × Tables) (c : Conn Tables)
    → (run_sql stmt c).0 ≡ no_rows
    → ((stmt c.tables).0 ≡ no_rows) × ((run_sql stmt c).1.tables ≡ (stmt c.tables).1)
no_rows_done stmt c h = ground (arith, run_sql_done stmt c)

module _ (ops : FloatOps) (w : ℕ) (cur : String) (x : Float) (c : Conn Tables) where
  -- A deposit that is reported has added the amount to the wallet's balance, rounded to cents.
  pub deposit_lem :
      (y : Float)
      → (deposit ops w cur x c).0 ≡ ok y
      → (a : Cents) × (v : Cents) × (balance_of w cur c.tables.balances ≡ some a)
        × (store (units a +ℤ x) ≡ some v)
        × (balance_of w cur (deposit ops w cur x c).1.tables.balances ≡ some v)
        × (y ≡ ops.scan v)
  unfolding deposit update_credit credited
  deposit_lem y h =
      let (v, reported, is_v) = scanned-ok ops not_found _ y h in
      let (done, tables) = row_done (update_credit w cur x) c v reported in
      let (a, old, _, stored, new) = update_balance-row w cur (λ _. true) (credited x) _ v done in
      (a, v, old, stored, rw tables new, is_v)

  -- A withdrawal that is reported was covered, and has taken the amount, rounded to cents.
  pub withdraw_lem :
      (y : Float)
      → (withdraw ops w cur x c).0 ≡ ok y
      → (a : Cents) × (v : Cents) × (balance_of w cur c.tables.balances ≡ some a)
        × (x ≤ℤ units a)
        × (store (units a -ℤ x) ≡ some v)
        × (balance_of w cur (withdraw ops w cur x c).1.tables.balances ≡ some v)
        × (y ≡ ops.scan v)
  unfolding withdraw update_debit debited covers
  withdraw_lem y h =
      let (v, reported, is_v) = scanned-ok ops insufficient_funds _ y h in
      let (done, tables) = row_done (update_debit w cur x) c v reported in
      let (a, old, test, stored, new) = update_balance-row w cur (covers x) (debited x) _ v done in
      (a, v, old, leb_ℤ→≤ℤ x (units a) test, stored, rw tables new, is_v)

  -- "Insufficient funds": no balance covers the amount, and nothing has changed.
  withdraw_refused :
      (withdraw ops w cur x c).0 ≡ err insufficient_funds
      → ((a : Cents) → balance_of w cur c.tables.balances ≡ some a → units a <ℤ x)
        × ((withdraw ops w cur x c).1.tables ≡ c.tables)
  unfolding withdraw update_debit debited covers
  withdraw_refused h =
      let missing = scanned-refused ops insufficient_funds _ (λ e. cc) h in
      let (done, tables) = no_rows_done (update_debit w cur x) c missing in
      (
        λ a old.
            leb_ℤ→<ℤ x (units a) (update_balance-no_rows w cur (covers x) (debited x) _ done a old),
        tables
            ∙ ap (λ bs. record c.tables { balances = bs })
                (update_balance_unchanged w cur (covers x) (debited x) c.tables.balances (rw done)),
      )

module _ (w : ℕ) (from to : String) (debit credit : Float) where
  -- An exchange between two currencies that is reported was covered; it has debited the one
  -- and credited the other, if the wallet has it, each rounded to cents.
  pub Moved-amounts :
      (t t' : Tables)
      → from ≢ to
      → Moved w from to debit credit t t'
      → (a : Cents) × (v : Cents) × (balance_of w from t.balances ≡ some a)
        × (debit ≤ℤ units a)
        × (store (units a -ℤ debit) ≡ some v)
        × (balance_of w from t'.balances ≡ some v)
        × (balance_of w to t'.balances
            ≡ left_by (λ _. true) (credited credit) (balance_of w to t.balances))
  unfolding update_debit update_credit debited covers
  Moved-amounts t t' ne (v, sent, _, last) =
      let (a, old, test, stored, new) =
        update_balance-row w from (covers debit) (debited debit) t.balances v sent in
      (
        a,
        v,
        old,
        leb_ℤ→≤ℤ debit (units a) test,
        stored,
        rw (← last) (balance_of-update_balance_ne w to _ _ w from _ (inr ne) ∙ new),
        rw (← last) (
            balance_of-update_balance w to _ _ _
            ∙ ap (left_by (λ _. true) (credited credit))
                (balance_of-update_balance_ne w from _ _ w to _ (inr (λ e. ne (sym e))))),
      )

  -- Whatever the exchange was, no other wallet and no third currency changes.
  Moved-others :
      (t t' : Tables) (w' : ℕ) (cur : String)
      → Moved w from to debit credit t t'
      → (w' ≢ w) ⊎ ((cur ≢ from) × (cur ≢ to))
      → balance_of w' cur t'.balances ≡ balance_of w' cur t.balances
  unfolding update_debit update_credit
  Moved-others t t' w' cur (v, sent, _, last) other = rw (← last) (
      balance_of-update_balance_ne w to _ _ w' cur _ (apart other (λ p. p.1))
      ∙ balance_of-update_balance_ne w from _ _ w' cur _ (apart other (λ p. p.0)))
    where
      apart : {P Q R : Type 0} → P ⊎ Q → (Q → R) → P ⊎ R
      apart (inl p) f = inl p
      apart (inr q) f = inr (f q)

module _ (ops : FloatOps) (w : ℕ) (from to : String) (debit credit : Float) where
  -- An exchange keeps every amount at zero or above if what it credits is not negative.
  pub exchange-NonNegative :
      (c : Conn Tables)
      → pos 0 ≤ℤ credit
      → NonNegative c.tables
      → NonNegative (exchange ops w from to debit credit c).1.tables
  exchange-NonNegative c h inv =
      Ended-NonNegative (exchange ops w from to debit credit c)
        (exchange_atomic ops w from to debit credit c)
    where
      Moved-NonNegative : (t' : Tables) → Moved w from to debit credit c.tables t' → NonNegative t'
      Moved-NonNegative t' (v, _, _, last) = rw (← last) (
          update_credit-NonNegative w to credit _ h
            (update_debit-NonNegative w from debit c.tables inv))

      Ended-NonNegative :
          (q : Result Err (Dict Float) × Conn Tables)
          → Ended ops w from to debit credit c.tables q
          → NonNegative q.1.tables
      Ended-NonNegative (ok m, c') moved = Moved-NonNegative c'.tables moved
      Ended-NonNegative (err e, c') (inl same) = rw same inv
      Ended-NonNegative (err e, c') (inr (_, moved)) = Moved-NonNegative c'.tables moved

module _ (ops : FloatOps) (w : ℕ) (cur : String) (x : Float) (c : Conn Tables) where
  pub deposit-NonNegative :
      pos 0 ≤ℤ x → NonNegative c.tables → NonNegative (deposit ops w cur x c).1.tables
  unfolding deposit
  deposit-NonNegative h inv =
      run_sql_keeps (update_credit w cur x) c NonNegative inv
        (update_credit-NonNegative w cur x c.tables h inv)

  pub withdraw-NonNegative : NonNegative c.tables → NonNegative (withdraw ops w cur x c).1.tables
  unfolding withdraw
  withdraw-NonNegative inv =
      run_sql_keeps (update_debit w cur x) c NonNegative inv
        (update_debit-NonNegative w cur x c.tables inv)
