-- ===== src/Wallet/Safety/Service.antt =====
-- The invariant of the wallet service over its routes.
use wallet_service.Base.{ℕ, String, Bool, Option, none, some, List, [], ◌∷◌}
use wallet_service.Base.Result.{Result, ok, err}
use wallet_service.Base.Dict.{Dict}
use wallet_service.Wallet.Money.{Float, FloatOps}
use wallet_service.Wallet.Client.{Client, get_all_rates}
use wallet_service.Wallet.Client.Signs.{
  NoneNegative, HasSoundRates, RatesSound, get_all_rates-Sound,
}
use wallet_service.Wallet.Repo.Signs.{
  create_user-KeepsMoney, get_user_by_username-KeepsMoney, create_wallet_for_user-KeepsMoney,
  create_balances_for_wallet-KeepsMoney,
}
use wallet_service.Wallet.Auth.{Crypto, authenticate, auth_middleware, pass}
use wallet_service.Wallet.Accounts.{RegisterRequest, LoginRequest, handle_register, handle_login}
use wallet_service.Wallet.Exchange.{ask, handle_exchange_rates}
use wallet_service.Wallet.Health.{probe, handle_health}
use wallet_service.Wallet.Routes.{
  Route, health_check, register, login, balance, deposit, withdraw, exchange, exchange_rates,
  unknown, route, dispatch, Call, run, protected, anonymous, serve, serve_all,
}
use wallet_service.Wallet.Http.{
  World, Response, Request, Outcome, go, reply, Handler, pure, ◌>>=◌, response_of,
}
use wallet_service.Wallet.Http.Laws.{Keeps, Any, Ensures, Keeps-pure, Keeps-bind, Keeps-reply_if}
use wallet_service.Wallet.Safety.{IsSound, SoundClient, steps, handle_balance-IsSound}
use wallet_service.Wallet.Safety.Money.{
  KeepsSign, ask-Keeps, handle_deposit-IsSound, handle_withdraw-IsSound, handle_exchange-IsSound,
}

step-ask_rates :
    (unavailable : Response) (f : Dict Float × String → Handler Response)
    → ((p : Dict Float × String) → Keeps IsSound Any (f p))
    → Keeps IsSound Any (ask get_all_rates (pure ([], "grpc")) unavailable >>= f)
step-ask_rates unavailable f k =
    Keeps-bind IsSound (λ p. NoneNegative p.0) Any _ f
      (ask-Keeps NoneNegative get_all_rates (pure ([], "grpc")) unavailable
        (λ c h. get_all_rates-Sound c h) (Keeps-pure IsSound _ ([], "grpc") tt))
      (λ p _. k p)

handle_exchange_rates-IsSound : (r : Request) → Keeps IsSound Any (handle_exchange_rates r)
unfolding handle_exchange_rates
handle_exchange_rates-IsSound r = search (steps, step-ask_rates)

handle_register-IsSound :
    (lib : Crypto) (r : Request) (body : Option RegisterRequest)
    → Keeps IsSound Any (handle_register lib r body)
unfolding handle_register
handle_register-IsSound lib r body =
    search
      (
        steps, create_user-KeepsMoney, create_wallet_for_user-KeepsMoney,
        create_balances_for_wallet-KeepsMoney,
      )
      depth 14

handle_login-IsSound :
    (lib : Crypto) (secret : String) (now later : ℕ) (r : Request) (body : Option LoginRequest)
    → Keeps IsSound Any (handle_login lib secret now later r body)
unfolding handle_login
handle_login-IsSound lib secret now later r body =
    search (steps, get_user_by_username-KeepsMoney) depth 14

probed : (q : Result Unit (Dict Float × String) × Client) → RatesSound q → HasSoundRates q.1
probed (ok x, c) h = h.1
probed (err e, c) h = h

probe-IsSound : (o : Option Client) (w : World) → SoundClient o → IsSound w → IsSound (probe o w).1
probe-IsSound none w so h = h
probe-IsSound (some c) w so h = record {
  money = h.money;
  rates = probed (get_all_rates c) (get_all_rates-Sound c so);
}

handle_health-IsSound :
    (db kafka : Bool) (r : Request) → Keeps IsSound Any (handle_health db kafka r)
unfolding handle_health
handle_health-IsSound db kafka r =
    Keeps-bind IsSound _ Any _ _ (Keeps-reply_if IsSound _ _)
      (λ _ _. record { at = λ w h. (probe-IsSound w.client w h.rates h, tt) })

response_of-IsSound :
    (q : Outcome Response × World) → Ensures IsSound Any q → IsSound (response_of q).1
response_of-IsSound (go r, w) h = h.0
response_of-IsSound (reply r, w) h = h

run-IsSound :
    (m : Handler Response) (w : World) → Keeps IsSound Any m → IsSound w → IsSound (run m w).1
run-IsSound m w k h = response_of-IsSound (m w) (k.at w h)

pass-IsSound :
    (lib : Crypto) (o : Option ℕ) (method : String) (h : Request → Handler Response) (w : World)
    → ((r : Request) → Keeps IsSound Any (h r))
    → IsSound w
    → IsSound (pass lib o method (λ r. run (h r)) w).1
pass-IsSound lib none method h w k s = s
pass-IsSound lib (some u) method h w k s = run-IsSound (h _) w (k _) s

module _ (ops : FloatOps) (lib : Crypto) (secret : String) (law : KeepsSign ops) where
  protected-IsSound :
      (c : Call) (h : Request → Handler Response) (w : World)
      → ((r : Request) → Keeps IsSound Any (h r))
      → IsSound w
      → IsSound (protected ops lib secret c h w).1
  unfolding auth_middleware
  protected-IsSound c h w k s =
      pass-IsSound lib (authenticate lib secret c.now c.authorization) c.method h w k s

  dispatch-IsSound :
      (t : Route) (c : Call) (w : World) → IsSound w → IsSound (dispatch ops lib secret t c w).1
  unfolding dispatch
  dispatch-IsSound health_check c w h =
      run-IsSound _ w (handle_health-IsSound c.db_up c.kafka_up (anonymous c)) h
  dispatch-IsSound register c w h =
      run-IsSound _ w (handle_register-IsSound lib (anonymous c) c.register_body) h
  dispatch-IsSound login c w h =
      run-IsSound _ w (handle_login-IsSound lib secret c.now c.later (anonymous c) c.login_body) h
  dispatch-IsSound balance c w h = protected-IsSound c _ w (handle_balance-IsSound ops) h
  dispatch-IsSound deposit c w h =
      protected-IsSound c _ w (λ r. handle_deposit-IsSound ops r c.amount_body) h
  dispatch-IsSound withdraw c w h =
      protected-IsSound c _ w (λ r. handle_withdraw-IsSound ops r c.amount_body) h
  dispatch-IsSound exchange c w h =
      protected-IsSound c _ w (λ r. handle_exchange-IsSound ops r law c.exchange_body) h
  dispatch-IsSound exchange_rates c w h = protected-IsSound c _ w handle_exchange_rates-IsSound h
  dispatch-IsSound unknown c w h = h

  serve-IsSound : (c : Call) (w : World) → IsSound w → IsSound (serve ops lib secret c w).1
  unfolding serve
  serve-IsSound c w h = dispatch-IsSound (route c.path) c w h

  -- No sequence of requests to any paths, whoever sends them and whatever the network does, leaves
  -- a balance below zero or a negative rate in the cache, if none was there before, the exchanger
  -- answers no negative rate, and the float operations keep signs.
  pub serve_all-IsSound :
      (cs : List Call) (w : World) → IsSound w → IsSound (serve_all ops lib secret cs w)
  unfolding serve_all
  serve_all-IsSound [] w h = h
  serve_all-IsSound (c ∷ cs) w h = serve_all-IsSound cs _ (serve-IsSound c w h)
