-- ===== src/Wallet/Routes.antt =====
-- gw-currency-wallet/internal/routes.go: the paths that are served, and by which handler.
use wallet_service.Base.{List, [], ◌∷◌, ℕ, String, Bool, Option, none, ◌=ₛ◌, if◌then◌else◌}
use wallet_service.Wallet.Money.{FloatOps}
use wallet_service.Wallet.Auth.{Crypto, auth_middleware}
use wallet_service.Wallet.Accounts.{RegisterRequest, LoginRequest, handle_register, handle_login}
use wallet_service.Wallet.Balance.{
  AmountCurrencyRequest, handle_balance, handle_deposit, handle_withdraw,
}
use wallet_service.Wallet.Exchange.{ExchangeRequest, handle_exchange_rates, handle_exchange}
use wallet_service.Wallet.Health.{handle_health}
use wallet_service.Wallet.Http.{Response, Request, World, Handler, bare, response_of}

-- A request as it arrives: its body as each handler's decoder would read it, two readings of the
-- clock, and the state of what the health check looks at.
pub record Call : Type 0 where
  pub path : String
  pub method : String
  pub authorization : String
  pub register_body : Option RegisterRequest
  pub login_body : Option LoginRequest
  pub amount_body : Option AmountCurrencyRequest
  pub exchange_body : Option ExchangeRequest
  pub now : ℕ
  pub later : ℕ
  pub db_up : Bool
  pub kafka_up : Bool

abbrev pub run : Handler Response → World → Response × World
run h w = response_of (h w)

abbrev pub anonymous : Call → Request
anonymous c = record { method = c.method; user = none }

pub data Route : Type 0 where
  health_check register login balance deposit withdraw exchange exchange_rates unknown : Route

unfoldable pub route : String → Route
route path =
    if path =ₛ "/health"
    then health_check
    else if path =ₛ "/api/v1/register"
    then register
    else if path =ₛ "/api/v1/login"
    then login
    else if path =ₛ "/api/v1/balance"
    then balance
    else if path =ₛ "/api/v1/wallet/deposit"
    then deposit
    else if path =ₛ "/api/v1/wallet/withdraw"
    then withdraw
    else if path =ₛ "/api/v1/exchange"
    then exchange
    else if path =ₛ "/api/v1/exchange/rates"
    then exchange_rates
    else unknown

module _ (ops : FloatOps) (lib : Crypto) (secret : String) where
  -- `authMW(h)`
  abbrev pub protected : Call → (Request → Handler Response) → World → Response × World
  protected c h = auth_middleware lib secret c.now c.authorization c.method (λ r. run (h r))

  unfoldable pub dispatch : Route → Call → World → Response × World
  dispatch health_check c = run (handle_health c.db_up c.kafka_up (anonymous c))
  dispatch register c = run (handle_register lib (anonymous c) c.register_body)
  dispatch login c = run (handle_login lib secret c.now c.later (anonymous c) c.login_body)
  dispatch balance c = protected c (handle_balance ops)
  dispatch deposit c = protected c (λ r. handle_deposit ops r c.amount_body)
  dispatch withdraw c = protected c (λ r. handle_withdraw ops r c.amount_body)
  dispatch exchange c = protected c (λ r. handle_exchange ops r c.exchange_body)
  dispatch exchange_rates c = protected c handle_exchange_rates
  dispatch unknown c = λ w. (bare 404, w)

  -- The mux of RegisterRoutes.
  unfoldable pub serve : Call → World → Response × World
  unfolding dispatch route
  serve c w = dispatch (route c.path) c w

  -- Requests one after the other, with what each leaves.
  unfoldable pub serve_all : List Call → World → World
  serve_all [] w = w
  serve_all (c ∷ cs) w = serve_all cs (serve c w).1
