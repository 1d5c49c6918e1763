-- ===== src/Legacy/Amounts.antt =====
-- The balances of the integer wallet, gw-currency-wallet/internal/repo_postgres.go.
use wallet_service.Base.{
  ℕ, ◌+◌, ◌-◌, ◌≤◌, ◌≡◌, ◌≢◌, refl, sym, ap, ◌∙◌, subst, Bool, true, false, Option, none, some, [],
  ◌∷◌, arith,
}
use wallet_service.Base.Result.{ok}
use wallet_service.Sql.{Sql, row, no_rows, failed, is_failed, Conn, run_sql}
use wallet_service.Sql.Laws.{run_sql_done}
use wallet_service.Legacy.{
  Table, max_int64, balance_of, set_balance, update_add, update_subtract, deposit, withdraw,
  add_amount, covered, returning, found, withdrawn, why, exists,
}

pub balance_of-set_balance :
    (id b a : ℕ) (t : Table)
    → balance_of id t ≡ some a
    → balance_of id (set_balance id b t) ≡ some b
unfolding balance_of set_balance
balance_of-set_balance id b a [] h = ground arith
balance_of-set_balance id b a (w ∷ ws) h = ground (arith, balance_of-set_balance id b a ws)

pub balance_of-set_balance_ne :
    (id other b : ℕ) (t : Table)
    → id ≢ other
    → balance_of other (set_balance id b t) ≡ balance_of other t
unfolding balance_of set_balance
balance_of-set_balance_ne id other b [] h = refl
balance_of-set_balance_ne id other b (w ∷ ws) h =
    ground (arith, balance_of-set_balance_ne id other b ws)

-- The wallet has the balance, and the other wallet is as it was.
abbrev pub Left : ℕ → ℕ → ℕ → Table → Table → Type 0
Left id other b t t' = (balance_of id t' ≡ some b) × (balance_of other t' ≡ balance_of other t)

set_balance-Left :
    (id other a b : ℕ) (t : Table)
    → balance_of id t ≡ some a
    → id ≢ other
    → Left id other b t (set_balance id b t)
set_balance-Left id other a b t e ne =
    (balance_of-set_balance id b a t e, balance_of-set_balance_ne id other b t ne)

module _ (id other amount b : ℕ) (t : Table) (ne : id ≢ other) where
  add_amount-row :
      (o : Option ℕ)
      → balance_of id t ≡ o
      → (add_amount id amount o t).0 ≡ row b
      → ((a : ℕ) × (balance_of id t ≡ some a) × (b ≡ a + amount) × (b ≤ max_int64))
        × Left id other b t (add_amount id amount o t).1
  unfolding add_amount
  add_amount-row none e h = ground arith
  add_amount-row (some a) e h =
      let left = set_balance-Left id other a (a + amount) t e ne in
      ((a, e, ground arith, ground arith), (ground (arith, left), ground (arith, left)))

  returning-row :
      (o : Option ℕ)
      → balance_of id t ≡ o
      → (returning id (covered amount o) t).0 ≡ row b
      → ((a : ℕ) × (balance_of id t ≡ some a) × (amount ≤ a) × (b ≡ a - amount))
        × Left id other b t (returning id (covered amount o) t).1
  unfolding returning
  returning-row none e h = ground arith
  returning-row (some a) e h =
      let left = set_balance-Left id other a (a - amount) t e ne in
      ((a, e, ground arith, ground arith), (ground (arith, left), ground (arith, left)))

-- A statement that returned a row has run on the tables.
ran :
    (stmt : Table → Sql ℕ × Table) (c : Conn Table) (b : ℕ)
    → (run_sql stmt c).0 ≡ row b
    → ((stmt c.tables).0 ≡ row b) × ((run_sql stmt c).1.tables ≡ (stmt c.tables).1)
ran stmt c b h = let (r, t) = run_sql_done stmt c (ap is_failed h) in (sym r ∙ h, t)

found_ok :
    (q : Sql ℕ × Conn Table) (b : ℕ)
    → (found q).0 ≡ ok b
    → (q.0 ≡ row b) × ((found q).1.tables ≡ q.1.tables)
found_ok (row a, c) b h = (ground arith, refl)
found_ok (no_rows, c) b h = ground arith
found_ok (failed x, c) b h = ground arith

withdrawn_ok :
    (id : ℕ) (q : Sql ℕ × Conn Table) (b : ℕ)
    → (withdrawn id q).0 ≡ ok b
    → (q.0 ≡ row b) × ((withdrawn id q).1.tables ≡ q.1.tables)
unfolding withdrawn exists
withdrawn_ok id (row a, c) b h = (ground arith, refl)
withdrawn_ok id (no_rows, c) b h = absurd (not_ok (run_sql (λ t. (exists id t, t)) c) h)
  where
    not_ok : (q : Sql Bool × Conn Table) → (why q).0 ≢ ok b
    not_ok (row true, c) h = ground arith
    not_ok (row false, c) h = ground arith
    not_ok (no_rows, c) h = ground arith
    not_ok (failed x, c) h = ground arith
withdrawn_ok id (failed x, c) b h = ground arith

-- A deposit that succeeds finds the wallet, adds the amount to its balance and returns the sum, which
-- is within BIGINT; no other wallet changes.
pub deposit-Left :
    (id other amount b : ℕ) (c : Conn Table)
    → id ≢ other
    → (deposit id amount c).0 ≡ ok b
    → ((a : ℕ) × (balance_of id c.tables ≡ some a) × (b ≡ a + amount) × (b ≤ max_int64))
      × Left id other b c.tables (deposit id amount c).1.tables
unfolding deposit update_add
deposit-Left id other amount b c ne h =
    let stmt = update_add id amount in
    let (r, t) = found_ok (run_sql stmt c) b h in
    let (r', t') = ran stmt c b r in
    let (sum, left) =
      add_amount-row id other amount b c.tables ne (balance_of id c.tables) refl r' in
    (sum, subst (Left id other b c.tables) (sym (t ∙ t')) left)

-- A withdrawal that succeeds finds the wallet with at least the amount, takes the amount off its
-- balance and returns the rest; no other wallet changes.
pub withdraw-Left :
    (id other amount b : ℕ) (c : Conn Table)
    → id ≢ other
    → (withdraw id amount c).0 ≡ ok b
    → ((a : ℕ) × (balance_of id c.tables ≡ some a) × (amount ≤ a) × (b ≡ a - amount))
      × Left id other b c.tables (withdraw id amount c).1.tables
unfolding withdraw update_subtract
withdraw-Left id other amount b c ne h =
    let stmt = update_subtract id amount in
    let (r, t) = withdrawn_ok id (run_sql stmt c) b h in
    let (r', t') = ran stmt c b r in
    let (rest, left) =
      returning-row id other amount b c.tables ne (balance_of id c.tables) refl r' in
    (rest, subst (Left id other b c.tables) (sym (t ∙ t')) left)
