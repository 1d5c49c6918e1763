-- ===== src/Wallet/Repo/Exchange.antt =====
-- Exchange of gw-currency-wallet/internal/repo_auth.go, and its transaction.
use wallet_service.Base.{ℕ, String, ◌≡◌, ◌∙◌, refl, sym, subst, ◌⊎◌, inl, inr, true, false, arith}
use wallet_service.Base.Result.{Result, ok, err}
use wallet_service.Base.Dict.{Dict}
use wallet_service.Sql.{
  Sql, row, no_rows, failed, is_row, is_failed, Conn, Delivery, answered, refused, lost,
  next_delivery, run_sql, run_in_tx, commit,
}
use wallet_service.Wallet.Errors.{Err, internal}
use wallet_service.Wallet.Money.{Float, Cents, FloatOps}
use wallet_service.Wallet.Db.{Tables, update_credit, update_debit}
use wallet_service.Wallet.Repo.{
  committed, credit_done, debit_done, tx_begun, get_balances, select_balances, exchange,
}

-- Both updates of an exchange, one after the other, neither of them refused.
abbrev pub Moved : ℕ → String → String → Float → Float → Tables → Tables → Type 0
Moved w from to debit credit t t' =
    (v : Cents) × ((update_debit w from debit t).0 ≡ row v)
    × (is_failed (update_credit w to credit (update_debit w from debit t).1).0 ≡ false)
    × ((update_credit w to credit (update_debit w from debit t).1).1 ≡ t')

module _ (ops : FloatOps) (w : ℕ) (from to : String) (debit credit : Float) where
  -- How an exchange can end.
  abbrev pub Ended : Tables → Result Err (Dict Float) × Conn Tables → Type 0
  Ended t (ok m, c) = Moved w from to debit credit t c.tables
  Ended t (err e, c) = (c.tables ≡ t) ⊎ ((e ≡ internal) × Moved w from to debit credit t c.tables)

  get_balances_reads : (c : Conn Tables) → (get_balances ops w c).1.tables ≡ c.tables
  unfolding get_balances run_sql
  get_balances_reads c = ground arith

  pub get_balances_errors :
      (c : Conn Tables) (e : Err) → (get_balances ops w c).0 ≡ err e → e ≡ internal
  unfolding get_balances run_sql select_balances
  get_balances_errors c e = ground arith

  read-Ended :
      (t : Tables) (r : Result Err (Dict Float)) (c c' : Conn Tables)
      → c'.tables ≡ c.tables
      → ((e : Err) → r ≡ err e → e ≡ internal)
      → Moved w from to debit credit t c.tables
      → Ended t (r, c')
  read-Ended t (ok m) c c' same errors moved = rw same moved
  read-Ended t (err e) c c' same errors moved = inr (errors e refl, rw same moved)

  committed-Ended :
      (t t' : Tables) (q : Sql Unit × Conn Tables)
      → Moved w from to debit credit t t'
      → (is_row q.0 ≡ true → q.1.tables ≡ t')
      → (is_row q.0 ≡ false → (q.1.tables ≡ t) ⊎ (q.1.tables ≡ t'))
      → Ended t (committed ops w q)
  committed-Ended t t' (row _, c) moved done not_done =
      read-Ended t (get_balances ops w c).0 c (get_balances ops w c).1 (get_balances_reads c)
        (get_balances_errors c) (rw (done refl) moved)
  committed-Ended t t' (no_rows, c) moved done not_done = elim (not_done refl) [
    | inl same ↦ inl same
    | inr applied ↦ inr (refl, rw applied moved)
  ]
  committed-Ended t t' (failed _, c) moved done not_done = elim (not_done refl) [
    | inl same ↦ inl same
    | inr applied ↦ inr (refl, rw applied moved)
  ]

  commit-row :
      (t : Tables) (c : Conn Tables) → is_row (commit t c).0 ≡ true → (commit t c).1.tables ≡ t
  unfolding commit
  commit-row t c h = ground arith

  commit-failed :
      (t t' : Tables) (c : Conn Tables)
      → c.tables ≡ t
      → is_row (commit t' c).0 ≡ false
      → ((commit t' c).1.tables ≡ t) ⊎ ((commit t' c).1.tables ≡ t')
  unfolding commit
  commit-failed t t' c same h = ground arith

  commit-Ended :
      (t t' : Tables) (c : Conn Tables)
      → c.tables ≡ t
      → Moved w from to debit credit t t'
      → Ended t (committed ops w (commit t' c))
  commit-Ended t t' c same moved =
      committed-Ended t t' (commit t' c) moved (commit-row t' c) (commit-failed t t' c same)

  -- What a transaction's statement leaves: the shared tables are untouched, and unless it failed it
  -- has done to the transaction's view what it does.
  in_tx_keeps :
      {A : Type 0} (stmt : Tables → Sql A × Tables) (t : Tables) (c : Conn Tables)
      → (run_in_tx stmt t c).2.tables ≡ c.tables
  unfolding run_in_tx
  in_tx_keeps stmt t c = ground arith

  in_tx_does :
      {A : Type 0} (stmt : Tables → Sql A × Tables) (t : Tables) (c : Conn Tables)
      → is_failed (run_in_tx stmt t c).0 ≡ false
      → ((run_in_tx stmt t c).0 ≡ (stmt t).0) × ((run_in_tx stmt t c).1 ≡ (stmt t).1)
  unfolding run_in_tx
  in_tx_does stmt t c h = ground arith

  credit-Ended :
      (t : Tables) (q : Sql Cents × Tables × Conn Tables)
      → q.2.tables ≡ t
      → (is_failed q.0 ≡ false → Moved w from to debit credit t q.1)
      → Ended t (credit_done ops w q)
  credit-Ended t (row _, t', c) same moved = commit-Ended t t' c same (moved refl)
  credit-Ended t (no_rows, t', c) same moved = commit-Ended t t' c same (moved refl)
  credit-Ended t (failed _, t', c) same moved = inl same

  debit-Ended :
      (t : Tables) (q : Sql Cents × Tables × Conn Tables)
      → q.2.tables ≡ t
      → (is_failed q.0 ≡ false
          → (q.0 ≡ (update_debit w from debit t).0) × (q.1 ≡ (update_debit w from debit t).1))
      → Ended t (debit_done ops w to credit q)
  debit-Ended t (row v, t1, c) same does =
      credit-Ended t (run_in_tx (update_credit w to credit) t1 c)
        (in_tx_keeps (update_credit w to credit) t1 c ∙ same)
        (λ h.
          let (sent, t1_is) = does refl in
          let (same_report, same_view) = in_tx_does (update_credit w to credit) t1 c h in
          (v, sym sent, rw (← t1_is, ← same_report) h, rw (← t1_is) (sym same_view)))
  debit-Ended t (no_rows, t1, c) same does = inl same
  debit-Ended t (failed _, t1, c) same does = inl same

  begun-Ended :
      (t : Tables) (q : Delivery × Conn Tables)
      → q.1.tables ≡ t
      → Ended t (tx_begun ops w from to debit credit q)
  begun-Ended t (answered, c) same =
      subst (λ u. Ended u (tx_begun ops w from to debit credit (answered, c))) same
        (debit-Ended c.tables (run_in_tx (update_debit w from debit) c.tables c)
          (in_tx_keeps (update_debit w from debit) c.tables c)
          (in_tx_does (update_debit w from debit) c.tables c))
  begun-Ended t (refused, c) same = inl same
  begun-Ended t (lost, c) same = inl same

  next_delivery_keeps : (c : Conn Tables) → (next_delivery c).1.tables ≡ c.tables
  unfolding next_delivery
  next_delivery_keeps c = ground arith

  -- Either nothing has changed, or both updates are in the tables and nothing else. A reply of new
  -- balances means the second; an error other than `internal` the first.
  pub exchange_atomic : (c : Conn Tables) → Ended c.tables (exchange ops w from to debit credit c)
  unfolding exchange
  exchange_atomic c = begun-Ended c.tables (next_delivery c) (next_delivery_keeps c)
