-- ===== src/Wallet/Ledger/Refines.antt =====
-- The methods of gw-currency-wallet/internal/repo_auth.go against the ledger.
use wallet_service.Base.{
  ℕ, String, ◌≡◌, ◌∙◌, refl, sym, ap, ◌⊎◌, inl, inr, false, Option, none, some, List, [], ◌∷◌,
}
use wallet_service.Base.Result.{Result, ok, err}
use wallet_service.Base.Dict.{Dict}
use wallet_service.Sql.{Sql, row, no_rows, failed, is_failed, Conn}
use wallet_service.Wallet.Errors.{Err, not_found, insufficient_funds, internal}
use wallet_service.Wallet.Money.{Float, Cents, FloatOps}
use wallet_service.Wallet.Db.{Tables, update_credit, update_debit}
use wallet_service.Wallet.Repo.{deposit, withdraw, exchange}
use wallet_service.Wallet.Repo.Exchange.{Moved, Ended, exchange_atomic}
use wallet_service.Wallet.Repo.Reasons.{Reasons, exchange-Reasons}
use wallet_service.Wallet.Ledger.{
  Ledger, Answer, set_balance, after_deposit, after_withdrawal, credit_ledger, debit_ledger,
  Operation, deposits, withdraws, exchanges, specified, answer_of, perform, perform_all,
}
use wallet_service.Wallet.Ledger.Statements.{
  Shows, sql_answer, Ran, scanned-Ran, update_credit-Shows, update_credit-answer,
  update_debit-Shows, update_debit-answer,
}

-- How an operation may end: the ledger has taken the step that is specified, and the caller has its answer
-- or an internal error; or nothing has happened, with an internal error.
abbrev pub Steps : Operation → Ledger → Answer × Conn Tables → Type 0
Steps o l (a, c) =
    (Shows c.tables (specified o l).0 × ((a ≡ (specified o l).1) ⊎ (a ≡ some internal)))
    ⊎ (Shows c.tables l × (a ≡ some internal))

Ran-Steps :
    (o : Operation) (l : Ledger) (before after : Tables) (answer : Answer)
    (q : Answer × Conn Tables)
    → Ran before after answer q
    → Shows before l
    → Shows after (specified o l).0
    → answer ≡ (specified o l).1
    → Steps o l q
Ran-Steps o l before after answer (a, c) (inl (tables, inl same)) h h' e =
    inl (rw tables h', inl (same ∙ e))
Ran-Steps o l before after answer (a, c) (inl (tables, inr unsure)) h h' e =
    inl (rw tables h', inr unsure)
Ran-Steps o l before after answer (a, c) (inr (tables, failure)) h h' e = inr (rw tables h, failure)

module _ (ops : FloatOps) (w : ℕ) (cur : String) (x : Float) (c : Conn Tables) (l : Ledger)
    (h : Shows c.tables l) where
  deposit-Steps : Steps (deposits w cur x) l (answer_of (deposit ops w cur x c))
  unfolding deposit specified
  deposit-Steps =
      Ran-Steps (deposits w cur x) l c.tables _ _ (answer_of (deposit ops w cur x c))
        (scanned-Ran ops not_found (update_credit w cur x) c) h
        (update_credit-Shows w cur x c.tables l h) (update_credit-answer w cur x c.tables l h)

  withdraw-Steps : Steps (withdraws w cur x) l (answer_of (withdraw ops w cur x c))
  unfolding withdraw specified
  withdraw-Steps =
      Ran-Steps (withdraws w cur x) l c.tables _ _ (answer_of (withdraw ops w cur x c))
        (scanned-Ran ops insufficient_funds (update_debit w cur x) c) h
        (update_debit-Shows w cur x c.tables l h) (update_debit-answer w cur x c.tables l h)

module _ (w : ℕ) (from to : String) (debit credit : Float) (l : Ledger) where
  -- An update that has not failed was answered with no error, or found no row.
  credit_ledger-Shows :
      (before : Ledger) (t1 t' : Tables) (l1 : Ledger) (r : Sql Cents) (p : Option Cents × Answer)
      → is_failed r ≡ false
      → sql_answer not_found r ≡ p.1
      → Shows t' (set_balance w to p.0 l1)
      → Shows t' (credit_ledger before w to l1 p).0 × ((credit_ledger before w to l1 p).1 ≡ none)
  credit_ledger-Shows before t1 t' l1 (row v) (amount, answer) fine e h = rw (← e) (h, refl)
  credit_ledger-Shows before t1 t' l1 no_rows (amount, answer) fine e h = rw (← e) (h, refl)
  credit_ledger-Shows before t1 t' l1 (failed _) (amount, answer) fine e h = cc

  debit_ledger-Shows :
      (t1 t' : Tables) (p : Option Cents × Answer)
      → p.1 ≡ none
      → Shows t1 (set_balance w from p.0 l)
      → is_failed (update_credit w to credit t1).0 ≡ false
      → (update_credit w to credit t1).1 ≡ t'
      → Shows t' (debit_ledger w from to credit l p).0
        × ((debit_ledger w from to credit l p).1 ≡ none)
  debit_ledger-Shows t1 t' (amount, answer) none_yet h fine last =
      let l1 : Ledger = set_balance w from amount l in
      rw none_yet (
        credit_ledger-Shows l t1 t' l1 (update_credit w to credit t1).0
          (after_deposit credit (l1 w to)) fine (update_credit-answer w to credit t1 l1 h)
          (rw (← last) (update_credit-Shows w to credit t1 l1 h)))

  Moved-specified :
      (t t' : Tables)
      → Shows t l
      → Moved w from to debit credit t t'
      → Shows t' (specified (exchanges w from to debit credit) l).0
        × ((specified (exchanges w from to debit credit) l).1 ≡ none)
  unfolding specified
  Moved-specified t t' h (v, sent, fine, last) =
      debit_ledger-Shows (update_debit w from debit t).1 t' (after_withdrawal debit (l w from))
        (sym (update_debit-answer w from debit t l h) ∙ ap (sql_answer insufficient_funds) sent)
        (update_debit-Shows w from debit t l h) fine last

  refused-specified :
      (p : Option Cents × Answer)
      → some insufficient_funds ≡ p.1
      → (debit_ledger w from to credit l p) ≡ (l, some insufficient_funds)
  refused-specified (amount, answer) e = rw (← e) refl

  specified-refused :
      (t : Tables)
      → Shows t l
      → (update_debit w from debit t).0 ≡ no_rows
      → specified (exchanges w from to debit credit) l ≡ (l, some insufficient_funds)
  unfolding specified
  specified-refused t h missing =
      refused-specified (after_withdrawal debit (l w from))
        (sym (ap (sql_answer insufficient_funds) missing) ∙ update_debit-answer w from debit t l h)

  module _ (ops : FloatOps) (c : Conn Tables) (h : Shows c.tables l) where
    exchange_cases :
        (q : Result Err (Dict Float) × Conn Tables)
        → Ended ops w from to debit credit c.tables q
        → Reasons ops w from to debit credit c.tables q.0
        → Steps (exchanges w from to debit credit) l (answer_of q)
    exchange_cases (ok m, c') moved reason =
        let (shows, fine) = Moved-specified c.tables c'.tables h moved in
        inl (shows, inl (sym fine))
    exchange_cases (err e, c') (inr (unsure, moved)) reason =
        let (shows, fine) = Moved-specified c.tables c'.tables h moved in
        inl (shows, inr (ap some unsure))
    exchange_cases (err e, c') (inl same) (inl unsure) = inr (rw same h, ap some unsure)
    exchange_cases (err e, c') (inl same) (inr (refused, missing)) =
        rw (specified-refused c.tables h missing) (inl (rw same h, inl (ap some refused)))

    exchange-Steps :
        Steps
          (exchanges w from to debit credit)
          l
          (answer_of (exchange ops w from to debit credit c))
    exchange-Steps =
        exchange_cases (exchange ops w from to debit credit c)
          (exchange_atomic ops w from to debit credit c)
          (exchange-Reasons ops w from to debit credit c)

-- What a sequence of operations may leave and answer.
abbrev pub Realises : List Operation → List Answer → Ledger → Conn Tables → Type 0
Realises [] [] l c = Shows c.tables l
Realises [] (a ∷ answers) l c = ⊥
Realises (o ∷ os) [] l c = ⊥
Realises (o ∷ os) (a ∷ answers) l c =
    (((a ≡ (specified o l).1) ⊎ (a ≡ some internal)) × Realises os answers (specified o l).0 c)
    ⊎ ((a ≡ some internal) × Realises os answers l c)

module _ (ops : FloatOps) where
  perform-Steps :
      (o : Operation) (c : Conn Tables) (l : Ledger)
      → Shows c.tables l
      → Steps o l (perform ops o c)
  unfolding perform
  perform-Steps (deposits w cur x) c l h = deposit-Steps ops w cur x c l h
  perform-Steps (withdraws w cur x) c l h = withdraw-Steps ops w cur x c l h
  perform-Steps (exchanges w from to debit credit) c l h =
      exchange-Steps w from to debit credit l ops c h

  -- AuthRepo refines the ledger: of any sequence of deposits, withdrawals and exchanges, whatever the
  -- connection does, each takes the step that is specified for it, at once and whole, or none; its
  -- answer is the one that is specified, or an internal error, and without an internal error it has
  -- taken the step. In the end the table holds for every wallet and currency what the ledger says.
  pub perform_all-Realises :
      (os : List Operation) (c : Conn Tables) (l : Ledger)
      → Shows c.tables l
      → Realises os (perform_all ops os c).0 l (perform_all ops os c).1
  unfolding perform_all
  perform_all-Realises [] c l h = h
  perform_all-Realises (o ∷ os) c l h = elim (perform-Steps o c l h) [
    | inl (shows, answer) ↦
        inl (answer, perform_all-Realises os (perform ops o c).1 (specified o l).0 shows)
    | inr (shows, answer) ↦ inr (answer, perform_all-Realises os (perform ops o c).1 l shows)
  ]
