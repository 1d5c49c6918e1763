-- ===== src/Wallet/Repo/Reasons.antt =====
-- The errors of Exchange in gw-currency-wallet/internal/repo_auth.go.
use wallet_service.Base.{ℕ, String, ◌≡◌, refl, ◌⊎◌, inl, inr, arith}
use wallet_service.Base.Result.{Result, ok, err}
use wallet_service.Base.Dict.{Dict}
use wallet_service.Sql.{
  Sql, row, no_rows, failed, Conn, Delivery, answered, refused, lost, run_in_tx, next_delivery,
  commit,
}
use wallet_service.Wallet.Errors.{Err, insufficient_funds, internal}
use wallet_service.Wallet.Money.{Float, Cents, FloatOps}
use wallet_service.Wallet.Db.{Tables, update_credit, update_debit}
use wallet_service.Wallet.Repo.{
  committed, credit_done, debit_done, tx_begun, get_balances, exchange,
}
use wallet_service.Wallet.Repo.Exchange.{get_balances_errors}

module _ (ops : FloatOps) (w : ℕ) (from to : String) (debit credit : Float) where
  -- Why an exchange reports an error.
  abbrev pub Reasons : Tables → Result Err (Dict Float) → Type 0
  Reasons t (ok m) = Unit
  Reasons t (err e) =
      (e ≡ internal) ⊎ ((e ≡ insufficient_funds) × ((update_debit w from debit t).0 ≡ no_rows))

  read-Reasons :
      (t : Tables) (r : Result Err (Dict Float))
      → ((e : Err) → r ≡ err e → e ≡ internal)
      → Reasons t r
  read-Reasons t (ok m) errors = tt
  read-Reasons t (err e) errors = inl (errors e refl)

  committed-Reasons : (t : Tables) (q : Sql Unit × Conn Tables) → Reasons t (committed ops w q).0
  committed-Reasons t (row _, c) =
      read-Reasons t (get_balances ops w c).0 (get_balances_errors ops w from to debit credit c)
  committed-Reasons t (no_rows, c) = inl refl
  committed-Reasons t (failed _, c) = inl refl

  credit-Reasons :
      (t : Tables) (q : Sql Cents × Tables × Conn Tables) → Reasons t (credit_done ops w q).0
  credit-Reasons t (row _, t', c) = committed-Reasons t (commit t' c)
  credit-Reasons t (no_rows, t', c) = committed-Reasons t (commit t' c)
  credit-Reasons t (failed _, t', c) = inl refl

  debit-Reasons :
      (t : Tables) (q : Sql Cents × Tables × Conn Tables)
      → (q.0 ≡ no_rows → (update_debit w from debit t).0 ≡ no_rows)
      → Reasons t (debit_done ops w to credit q).0
  debit-Reasons t (row v, t1, c) does =
      credit-Reasons t (run_in_tx (update_credit w to credit) t1 c)
  debit-Reasons t (no_rows, t1, c) does = inr (refl, does refl)
  debit-Reasons t (failed _, t1, c) does = inl refl

  in_tx-no_rows :
      (t : Tables) (c : Conn Tables)
      → (run_in_tx (update_debit w from debit) t c).0 ≡ no_rows
      → (update_debit w from debit t).0 ≡ no_rows
  unfolding run_in_tx
  in_tx-no_rows t c h = ground arith

  next-tables : (c : Conn Tables) → (next_delivery c).1.tables ≡ c.tables
  unfolding next_delivery
  next-tables c = ground arith

  tx_begun-Reasons :
      (t : Tables) (q : Delivery × Conn Tables)
      → q.1.tables ≡ t
      → Reasons t (tx_begun ops w from to debit credit q).0
  tx_begun-Reasons t (answered, c) same =
      debit-Reasons t (run_in_tx (update_debit w from debit) c.tables c)
        (λ h. rw same at (in_tx-no_rows c.tables c h))
  tx_begun-Reasons t (refused, c) same = inl refl
  tx_begun-Reasons t (lost, c) same = inl refl

  pub exchange-Reasons :
      (c : Conn Tables) → Reasons c.tables (exchange ops w from to debit credit c).0
  unfolding exchange
  exchange-Reasons c = tx_begun-Reasons c.tables (next_delivery c) (next-tables c)
