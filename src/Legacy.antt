-- ===== src/Legacy.antt =====
-- gw-currency-wallet/internal: the wallet with one integer balance (models.go, repo.go, service.go,
-- repo_postgres.go and the first handlers of handler.go), over the table wallet_legacy.
pub mod Amounts
mod Tests
use wallet_service.Base.{
  ℕ, ◌+◌, ◌-◌, ◌^◌, String, Bool, true, false, not, ◌||◌, ◌&&◌, leb, ◌==◌, ◌=ₛ◌, Option, none, some,
  List, [], ◌∷◌, if◌then◌else◌,
}
use wallet_service.Base.Int.{ℤ, pos, negsuc, leb_ℤ}
use wallet_service.Base.Result.{Result, ok, err}
use wallet_service.Sql.{Sql, row, no_rows, failed, SqlState, other_failure, Conn, run_sql}
use wallet_service.Wallet.Errors.{
  Err, not_found, insufficient_funds, invalid_operation, invalid_amount, user_exists, auth_failed,
  invalid_currency, internal,
}

-- A row of wallet_legacy. The column is a BIGINT with `CHECK (balance >= 0)`.
pub record Wallet : Type 0 where
  pub id : ℕ
  pub balance : ℕ

abbrev pub Table : Type 0
Table = List Wallet

abbrev pub max_int64 : ℕ
max_int64 = 2 ^ 63 - 1

unfoldable pub balance_of : ℕ → Table → Option ℕ
balance_of id [] = none
balance_of id (w ∷ ws) = if w.id == id then some w.balance else balance_of id ws

-- `SELECT balance`
unfoldable pub select_balance : ℕ → Table → Sql ℕ
unfolding balance_of
select_balance id t = elim (balance_of id t) [ none ↦ no_rows | some b ↦ row b ]

-- Writes a wallet's balance.
unfoldable pub set_balance : ℕ → ℕ → Table → Table
set_balance id b [] = []
set_balance id b (w ∷ ws) =
    let rest = set_balance id b ws in if w.id == id then record w { balance = b } ∷ ws else w ∷ rest

abbrev pub returning : ℕ → Option ℕ → Table → Sql ℕ × Table
unfolding set_balance
returning id none t = (no_rows, t)
returning id (some b) t = (row b, set_balance id b t)

-- `SET balance = balance + $1`. A sum out of BIGINT's range is an error.
abbrev pub add_amount : ℕ → ℕ → Option ℕ → Table → Sql ℕ × Table
unfolding set_balance
add_amount id amount none t = (no_rows, t)
add_amount id amount (some b) t =
    if leb (b + amount) max_int64
    then (row (b + amount), set_balance id (b + amount) t)
    else (failed other_failure, t)

unfoldable pub update_add : ℕ → ℕ → Table → Sql ℕ × Table
unfolding balance_of add_amount
update_add id amount t = add_amount id amount (balance_of id t) t

-- `SET balance = balance - $1 WHERE … AND balance >= $1`
abbrev pub covered : ℕ → Option ℕ → Option ℕ
covered amount none = none
covered amount (some b) = if leb amount b then some (b - amount) else none

unfoldable pub update_subtract : ℕ → ℕ → Table → Sql ℕ × Table
unfolding balance_of returning
update_subtract id amount t = returning id (covered amount (balance_of id t)) t

abbrev pub found : Sql ℕ × Conn Table → Result Err ℕ × Conn Table
found (row b, c) = (ok b, c)
found (no_rows, c) = (err not_found, c)
found (failed _, c) = (err internal, c)

unfoldable pub get_balance : ℕ → Conn Table → Result Err ℕ × Conn Table
unfolding run_sql select_balance
get_balance id c = found (run_sql (λ t. (select_balance id t, t)) c)

unfoldable pub deposit : ℕ → ℕ → Conn Table → Result Err ℕ × Conn Table
unfolding run_sql update_add
deposit id amount c = found (run_sql (update_add id amount) c)

-- `SELECT EXISTS`
abbrev pub exists : ℕ → Table → Sql Bool
unfolding balance_of
exists id t = elim (balance_of id t) [ none ↦ row false | some b ↦ row true ]

abbrev pub why : Sql Bool × Conn Table → Result Err ℕ × Conn Table
why (row true, c) = (err insufficient_funds, c)
why (row false, c) = (err not_found, c)
why (no_rows, c) = (err internal, c)
why (failed _, c) = (err internal, c)

abbrev pub withdrawn : ℕ → Sql ℕ × Conn Table → Result Err ℕ × Conn Table
unfolding run_sql exists
withdrawn id (row b, c) = (ok b, c)
withdrawn id (no_rows, c) = why (run_sql (λ t. (exists id t, t)) c)
withdrawn id (failed _, c) = (err internal, c)

unfoldable pub withdraw : ℕ → ℕ → Conn Table → Result Err ℕ × Conn Table
unfolding run_sql update_subtract withdrawn
withdraw id amount c = withdrawn id (run_sql (update_subtract id amount) c)

abbrev pub deposit_type : String
deposit_type = "DEPOSIT"

abbrev pub withdraw_type : String
withdraw_type = "WITHDRAW"

unfoldable pub apply_operation : ℕ → String → ℕ → Conn Table → Result Err ℕ × Conn Table
unfolding deposit withdraw
apply_operation id op amount c =
    if op =ₛ deposit_type
    then deposit id amount c
    else (if op =ₛ withdraw_type then withdraw id amount c else (err invalid_operation, c))

-- WalletService.Apply. Only a positive amount reaches the repository.
unfoldable pub apply : ℕ → String → ℤ → Conn Table → Result Err ℕ × Conn Table
unfolding apply_operation
apply id op (negsuc n) c = (err invalid_amount, c)
apply id op (pos amount) c =
    if leb amount 0
    then (err invalid_amount, c)
    else (if not (op =ₛ deposit_type) && not (op =ₛ withdraw_type)
        then (err invalid_operation, c)
        else apply_operation id op amount c)

pub data Reply : Type 0 where
  status_alone : ℕ → Reply
  error_reply : ℕ → Err → Reply
  bad_request : String → Reply
  balance_reply : ℕ → ℕ → Reply

-- writeDomainError. The error's text is given by the error; 500 says "internal error".
unfoldable pub write_domain_error : Err → Reply
write_domain_error invalid_amount = error_reply 400 invalid_amount
write_domain_error invalid_operation = error_reply 400 invalid_operation
write_domain_error not_found = error_reply 404 not_found
write_domain_error insufficient_funds = error_reply 409 insufficient_funds
write_domain_error user_exists = error_reply 500 internal
write_domain_error auth_failed = error_reply 500 internal
write_domain_error invalid_currency = error_reply 500 internal
write_domain_error internal = error_reply 500 internal

pub record OperationRequest : Type 0 where
  pub wallet_id : ℕ
  pub operation_type : String
  pub amount : ℤ

abbrev pub replied : ℕ → Result Err ℕ × Conn Table → Reply × Conn Table
unfolding write_domain_error
replied id (ok b, c) = (balance_reply id b, c)
replied id (err e, c) = (write_domain_error e, c)

-- The body is what the decoder makes of it. `uuid.Nil` is 0.
unfoldable pub handle_wallet_operation :
    String → Option OperationRequest → Conn Table → Reply × Conn Table
unfolding apply replied
handle_wallet_operation method none c =
    (if method =ₛ "POST" then bad_request "invalid json" else status_alone 405, c)
handle_wallet_operation method (some r) c =
    if not (method =ₛ "POST")
    then (status_alone 405, c)
    else (if r.wallet_id == 0
        then (bad_request "walletId is required", c)
        else replied r.wallet_id (apply r.wallet_id r.operation_type r.amount c))

unfoldable pub handle_get_balance : String → ℕ → Conn Table → Reply × Conn Table
unfolding get_balance replied
handle_get_balance method id c =
    if not (method =ₛ "GET") then (status_alone 405, c) else replied id (get_balance id c)
