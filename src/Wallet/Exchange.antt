-- ===== src/Wallet/Exchange.antt =====
-- gw-currency-wallet/internal/handler_exchange.go
mod Parts
mod Priced
pub mod Done
use Prim.Native.String.{◌++◌}
use wallet_service.Base.{String, Option, none, some, not, ◌&&◌, ◌=ₛ◌, []}
use wallet_service.Base.Result.{ok, err}
use wallet_service.Base.Int.{pos, leb_ℤ}
use wallet_service.Wallet.Errors.{Err, insufficient_funds}
use wallet_service.Wallet.Money.{Float, FloatOps, whole}
use wallet_service.Wallet.Repo.{get_wallet_id_by_user_id, exchange}
use wallet_service.Wallet.Client.{Client, Reply, rate_key, get_all_rates, get_rate_with_source}
use wallet_service.Wallet.Http.{
  rates, exchanged, Response, Request, World, Outcome, go, reply, Handler, write_error, write_json,
  pure, answer, ◌>>=◌, ◌>>◌, reply_if, need, query, announce, require_method, require_user,
  invalid_json,
}
use wallet_service.Wallet.Balance.{internal_error, wallet_error, allowed}

pub record ExchangeRequest : Type 0 where
  pub from_currency : String
  pub to_currency : String
  pub amount : Float

abbrev pub answered_by :
    {A : Type 0} → Response → World → Reply A × Client → Outcome (A × String) × World
answered_by r w (ok a, c) = (go a, record w { client = some c })
answered_by r w (err e, c) = (reply r, record w { client = some c })

-- A call of the client, if there is one, with the replies to no client and to an error.
abbrev pub call_client :
    {A : Type 0}
    → (Client → Reply A × Client)
    → Handler (A × String)
    → Response
    → Option Client
    → Handler (A × String)
call_client call missing r none w = missing w
call_client call missing r (some c) w = answered_by r w (call c)

unfoldable pub ask :
    {A : Type 0}
    → (Client → Reply A × Client)
    → Handler (A × String)
    → Response
    → Handler (A × String)
ask call missing r w = call_client call missing r w.client w

unfoldable pub handle_exchange_rates : Request → Handler Response
handle_exchange_rates r = do
  require_method "GET" r
  found ← ask get_all_rates (pure ([], "grpc")) (write_error 502 "exchange service unavailable")
  pure (write_json 200 (rates found.0 found.1))

abbrev pub exchange_error : Err → Response
exchange_error insufficient_funds = write_error 400 "insufficient funds"
exchange_error _ = internal_error

unfoldable pub check_exchange : ExchangeRequest → Handler Unit
check_exchange req = do
  reply_if (leb_ℤ req.amount (pos 0)) (write_error 400 "invalid amount")
  reply_if (req.from_currency =ₛ req.to_currency)
      (write_error 400 "from_currency and to_currency must differ")
  reply_if (not (allowed req.from_currency && allowed req.to_currency))
      (write_error 400 "invalid currency")

module _ (ops : FloatOps) where
  -- `math.Round(amount*rate*100) / 100`
  unfoldable pub exchanged_amount : Float → Float → Float
  exchanged_amount amount rate =
      ops.quo (ops.round (ops.mul (ops.mul amount rate) (whole 100))) (whole 100)

  unfoldable pub handle_exchange : Request → Option ExchangeRequest → Handler Response
  handle_exchange r body = do
    require_method "POST" r
    user ← require_user r
    req ← need body invalid_json
    check_exchange req
    wallet ← query (get_wallet_id_by_user_id user) wallet_error
    found ←
        ask (get_rate_with_source req.from_currency req.to_currency)
          (answer (write_error 503 "exchange rate service unavailable"))
          (write_error 400
            ("exchange rate not available for " ++ rate_key req.from_currency req.to_currency))
    new_balance ←
        query
          (exchange ops wallet req.from_currency req.to_currency req.amount
            (exchanged_amount req.amount found.0))
          exchange_error
    announce user "exchange" req.from_currency req.amount
    pure (
        write_json 200 (
          exchanged (record {
            message = "Exchange successful";
            rate = found.0;
            exchanged_amount = exchanged_amount req.amount found.0;
            new_balance = new_balance;
            source = found.1;
          })))
