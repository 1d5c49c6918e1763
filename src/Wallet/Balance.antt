-- ===== src/Wallet/Balance.antt =====
-- gw-currency-wallet/internal/handler_balance.go
use wallet_service.Base.{String, Bool, Option, not}
use wallet_service.Base.Int.{pos, leb_ℤ}
use wallet_service.Wallet.Errors.{Err, not_found, insufficient_funds}
use wallet_service.Wallet.Money.{Float, FloatOps}
use wallet_service.Wallet.Db.{is_currency}
use wallet_service.Wallet.Repo.{get_wallet_id_by_user_id, get_balances, deposit, withdraw}
use wallet_service.Wallet.Http.{
  balances, amount_of, Response, Request, Handler, write_error, write_json, pure, ◌>>=◌, ◌>>◌,
  reply_if, need, query, announce, require_method, require_user, invalid_json,
}

pub record AmountCurrencyRequest : Type 0 where
  pub amount : Float
  pub currency : String

abbrev pub internal_error : Response
internal_error = write_error 500 "internal error"

-- The reply to an error of GetWalletIDByUserID.
abbrev pub wallet_error : Err → Response
wallet_error not_found = write_error 404 "wallet not found"
wallet_error _ = internal_error

abbrev pub deposit_error : Err → Response
deposit_error not_found = write_error 404 "currency not found"
deposit_error _ = internal_error

abbrev pub withdraw_error : Err → Response
withdraw_error insufficient_funds = write_error 400 "Insufficient funds"
withdraw_error not_found = write_error 404 "currency not found"
withdraw_error _ = internal_error

-- `allowedCurrencies[c]`
unfoldable pub allowed : String → Bool
unfolding is_currency
allowed c = is_currency c

-- The checks of HandleDeposit and HandleWithdraw on the decoded body.
unfoldable pub check_amount : AmountCurrencyRequest → Handler Unit
check_amount req = do
  reply_if (leb_ℤ req.amount (pos 0)) (write_error 400 "invalid amount")
  reply_if (not (allowed req.currency)) (write_error 400 "invalid currency")

module _ (ops : FloatOps) where
  unfoldable pub handle_balance : Request → Handler Response
  handle_balance r = do
    require_method "GET" r
    user ← require_user r
    wallet ← query (get_wallet_id_by_user_id user) wallet_error
    found ← query (get_balances ops wallet) (λ _. internal_error)
    pure (write_json 200 (balances found))

  unfoldable pub handle_deposit : Request → Option AmountCurrencyRequest → Handler Response
  handle_deposit r body = do
    require_method "POST" r
    user ← require_user r
    req ← need body invalid_json
    check_amount req
    wallet ← query (get_wallet_id_by_user_id user) wallet_error
    new_amount ← query (deposit ops wallet req.currency req.amount) deposit_error
    announce user "deposit" req.currency req.amount
    pure (write_json 200 (amount_of req.currency new_amount))

  unfoldable pub handle_withdraw : Request → Option AmountCurrencyRequest → Handler Response
  handle_withdraw r body = do
    require_method "POST" r
    user ← require_user r
    req ← need body invalid_json
    check_amount req
    wallet ← query (get_wallet_id_by_user_id user) wallet_error
    new_amount ← query (withdraw ops wallet req.currency req.amount) withdraw_error
    announce user "withdraw" req.currency req.amount
    pure (write_json 200 (amount_of req.currency new_amount))
