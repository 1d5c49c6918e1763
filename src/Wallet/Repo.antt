-- ===== src/Wallet/Repo.antt =====
-- AuthRepo, gw-currency-wallet/internal/repo_auth.go: one function for each method.
pub mod Exchange
pub mod Reasons
pub mod Signs
pub mod Amounts
pub mod Transfers
use wallet_service.Base.{ℕ, String, List, [], ◌∷◌}
use wallet_service.Base.Result.{Result, ok, err}
use wallet_service.Base.Dict.{Dict, insert}
use wallet_service.Base.Int.{pos}
use wallet_service.Sql.{
  Sql, row, no_rows, failed, unique_violation, other_failure, Conn, Delivery, answered, refused,
  lost, next_delivery, run_sql, run_in_tx, commit,
}
use wallet_service.Wallet.Errors.{
  Err, not_found, insufficient_funds, user_exists, auth_failed, internal,
}
use wallet_service.Wallet.Money.{Float, Cents, FloatOps}
use wallet_service.Wallet.Db.{
  User, Tables, insert_user, select_user, insert_wallet, insert_balance, select_wallet, rows_of,
  update_credit, update_debit,
}

-- A method: it returns a value or an error, and the connection as it left it.
abbrev pub Action : Type 0 → Type 0
Action A = Conn Tables → Result Err A × Conn Tables

-- `if err == pgx.ErrNoRows { return …, e }`, and the wrapped error for all else.
abbrev pub or_missing : {A : Type 0} → Err → Sql A → Result Err A
or_missing e (row a) = ok a
or_missing e no_rows = err e
or_missing e (failed s) = err internal

abbrev pub first : {A B C : Type 0} → (A → B) → A × C → B × C
first f (a, c) = (f a, c)

abbrev pub created : Sql ℕ → Result Err ℕ
created (row id) = ok id
created no_rows = err internal
created (failed unique_violation) = err user_exists
created (failed other_failure) = err internal

unfoldable pub create_user : String → String → String → Action ℕ
create_user username email hash c = first created (run_sql (insert_user username email hash) c)

unfoldable pub get_user_by_username : String → Action User
get_user_by_username username c = first (or_missing auth_failed) (run_sql (select_user username) c)

unfoldable pub create_wallet_for_user : ℕ → Action ℕ
create_wallet_for_user user c = first (or_missing internal) (run_sql (insert_wallet user) c)

abbrev pub supported_currencies : List String
supported_currencies = "USD" ∷ "RUB" ∷ "EUR" ∷ []

abbrev pub go_on : Sql Unit × Conn Tables → Action Unit → Result Err Unit × Conn Tables
go_on (row _, c) rest = rest c
go_on (no_rows, c) rest = (err internal, c)
go_on (failed _, c) rest = (err internal, c)

-- The loop of CreateBalancesForWallet, a statement for each currency and no transaction.
unfoldable pub create_balances : List String → ℕ → Action Unit
create_balances [] w c = (ok tt, c)
create_balances (cur ∷ rest) w c =
    go_on (run_sql (insert_balance w cur) c) (λ c'. create_balances rest w c')

unfoldable pub create_balances_for_wallet : ℕ → Action Unit
unfolding create_balances
create_balances_for_wallet w = create_balances supported_currencies w

unfoldable pub get_wallet_id_by_user_id : ℕ → Action ℕ
get_wallet_id_by_user_id user c = first (or_missing not_found) (run_sql (select_wallet user) c)

module _ (ops : FloatOps) where
  unfoldable pub zero_balances : List String → Dict Float
  zero_balances [] = []
  zero_balances (cur ∷ rest) = insert cur (pos 0) (zero_balances rest)

  -- `out[currency] = amount` for each row that the query returns.
  unfoldable pub read_rows : List (String × Cents) → Dict Float → Dict Float
  read_rows [] out = out
  read_rows ((cur, a) ∷ rows) out = read_rows rows (insert cur (ops.scan a) out)

  -- SELECT currency, amount FROM balances WHERE wallet_id = $1
  unfoldable pub select_balances : ℕ → Tables → Sql (List (String × Cents)) × Tables
  select_balances w t = (row (rows_of w t.balances), t)

  abbrev pub collected : Sql (List (String × Cents)) → Result Err (Dict Float)
  collected (row rows) = ok (read_rows rows (zero_balances supported_currencies))
  collected no_rows = err internal
  collected (failed _) = err internal

  unfoldable pub get_balances : ℕ → Action (Dict Float)
  unfolding select_balances
  get_balances w c = first collected (run_sql (select_balances w) c)

  abbrev pub scanned : Err → Sql Cents → Result Err Float
  scanned e (row a) = ok (ops.scan a)
  scanned e no_rows = err e
  scanned e (failed _) = err internal

  unfoldable pub deposit : ℕ → String → Float → Action Float
  deposit w cur x c = first (scanned not_found) (run_sql (update_credit w cur x) c)

  unfoldable pub withdraw : ℕ → String → Float → Action Float
  withdraw w cur x c = first (scanned insufficient_funds) (run_sql (update_debit w cur x) c)

  -- The parts of Exchange behind each of its calls. An early return rolls the transaction back:
  -- its view of the tables is dropped.
  abbrev pub committed : ℕ → Sql Unit × Conn Tables → Result Err (Dict Float) × Conn Tables
  committed w (row _, c) = get_balances w c
  committed w (no_rows, c) = (err internal, c)
  committed w (failed _, c) = (err internal, c)

  -- A credit that matches no row is no error of `Exec`.
  abbrev pub credit_done :
      ℕ → Sql Cents × Tables × Conn Tables → Result Err (Dict Float) × Conn Tables
  credit_done w (row _, t, c) = committed w (commit t c)
  credit_done w (no_rows, t, c) = committed w (commit t c)
  credit_done w (failed _, t, c) = (err internal, c)

  abbrev pub debit_done :
      ℕ → String → Float → Sql Cents × Tables × Conn Tables → Result Err (Dict Float) × Conn Tables
  debit_done w to credit (row _, t, c) = credit_done w (run_in_tx (update_credit w to credit) t c)
  debit_done w to credit (no_rows, t, c) = (err insufficient_funds, c)
  debit_done w to credit (failed _, t, c) = (err internal, c)

  abbrev pub tx_begun :
      ℕ
      → String
      → String
      → Float
      → Float
      → Delivery × Conn Tables
      → Result Err (Dict Float) × Conn Tables
  tx_begun w from to debit credit (answered, c) =
      debit_done w to credit (run_in_tx (update_debit w from debit) c.tables c)
  tx_begun w from to debit credit (refused, c) = (err internal, c)
  tx_begun w from to debit credit (lost, c) = (err internal, c)

  unfoldable pub exchange : ℕ → String → String → Float → Float → Action (Dict Float)
  unfolding get_balances
  exchange w from to debit credit c = tx_begun w from to debit credit (next_delivery c)
