-- ===== src/Wallet/Exchange/Priced.antt =====
-- HandleExchange of gw-currency-wallet/internal/handler_exchange.go, from the rate on.
use Prim.Native.String.{◌++◌}
use wallet_service.Base.{ℕ, String, ◌≡◌, sym, ap, subst, ◌∙◌, some}
use wallet_service.Base.Dict.{Dict}
use wallet_service.Base.Result.{Result, ok, err}
use wallet_service.Sql.{Conn}
use wallet_service.Wallet.Errors.{Err}
use wallet_service.Wallet.Money.{Float, FloatOps}
use wallet_service.Wallet.Db.{Tables}
use wallet_service.Wallet.Repo.{exchange}
use wallet_service.Wallet.Repo.Exchange.{Moved, Ended, exchange_atomic}
use wallet_service.Wallet.Publisher.{publish}
use wallet_service.Wallet.Client.{Client, rate_key, get_rate_with_source}
use wallet_service.Wallet.Http.{
  Response, World, go, Handler, pure, ◌>>=◌, ◌>>◌, exchanged, write_json, write_error, answer,
  query, announce,
}
use wallet_service.Wallet.Http.Laws.{bind_go, query_go}
use wallet_service.Wallet.Outcomes.{go_value, go_world}
use wallet_service.Wallet.Exchange.Parts.{ask_go}
use wallet_service.Wallet.Exchange.{ExchangeRequest, ask, exchange_error, exchanged_amount}

module _ (ops : FloatOps) where
  Ended-ok :
      (wallet : ℕ) (from to : String) (debit credit : Float) (t : Tables)
      (q : Result Err (Dict Float) × Conn Tables) {balances : Dict Float}
      → q.0 ≡ ok balances
      → Ended ops wallet from to debit credit t q
      → Moved wallet from to debit credit t q.1.tables
  Ended-ok wallet from to debit credit t (ok m, c) e h = h
  Ended-ok wallet from to debit credit t (err e', c) e h = cc

  module _ (user wallet : ℕ) (req : ExchangeRequest) (found : Float × String) where
    abbrev pub moves : Conn Tables → Result Err (Dict Float) × Conn Tables
    moves =
        exchange ops wallet req.from_currency req.to_currency req.amount
          (exchanged_amount ops req.amount found.0)

    abbrev pub reply_with : Dict Float → Response
    reply_with balances = write_json 200 (
        exchanged (record {
          message = "Exchange successful";
          rate = found.0;
          exchanged_amount = exchanged_amount ops req.amount found.0;
          new_balance = balances;
          source = found.1;
        }))

    abbrev settled : Handler Response
    settled = query moves exchange_error >>= λ balances.
        announce user "exchange" req.from_currency req.amount >> pure (reply_with balances)

    settled_go :
        (w : World) {resp : Response} {w' : World}
        → settled w ≡ (go resp, w')
        → (balances : Dict Float) × ((moves w.conn).0 ≡ ok balances)
          × (resp ≡ reply_with balances)
          × (w' ≡ record w {
            conn = (moves w.conn).1;
            broker = publish w.publisher user "exchange" req.from_currency req.amount w.broker;
          })
    unfolding announce
    settled_go w h =
        let (balances, w1, ran, h1) = bind_go (query moves exchange_error) _ w h in
        let (value, world) = query_go moves exchange_error w ran in
        let (_, w2, told, h2) =
          bind_go (announce user "exchange" req.from_currency req.amount) _ w1 h1 in
        (
          balances,
          value,
          sym (go_value h2),
          sym (go_world h2)
              ∙ sym (go_world told)
              ∙ ap
                  (λ (v : World). record v {
                    broker =
                        publish v.publisher user "exchange" req.from_currency req.amount v.broker;
                  })
                  world,
        )

    -- How the tables have moved when the repository's exchange succeeded.
    pub moves-Moved :
        (c : Conn Tables) {balances : Dict Float}
        → (moves c).0 ≡ ok balances
        → Moved wallet req.from_currency req.to_currency req.amount
            (exchanged_amount ops req.amount found.0)
            c.tables
            (moves c).1.tables
    moves-Moved c e =
        let credit = exchanged_amount ops req.amount found.0 in
        Ended-ok wallet req.from_currency req.to_currency req.amount credit c.tables (moves c) e
          (exchange_atomic ops wallet req.from_currency req.to_currency req.amount credit c)

  abbrev asked : ExchangeRequest → Handler (Float × String)
  asked req =
      ask (get_rate_with_source req.from_currency req.to_currency)
        (answer (write_error 503 "exchange rate service unavailable"))
        (write_error 400
          ("exchange rate not available for " ++ rate_key req.from_currency req.to_currency))

  -- The handler from the rate on.
  abbrev pub priced : ℕ → ℕ → ExchangeRequest → Handler Response
  priced user wallet req = asked req >>= λ found. settled user wallet req found

  -- What the part from the rate on has done.
  pub record Priced (user wallet : ℕ) (req : ExchangeRequest) (w : World) (resp : Response)
      (w' : World) : Type 0 where
    pub client : Client
    pub found : Float × String
    pub balances : Dict Float
    pub is_client : w.client ≡ some client
    pub is_rate : (get_rate_with_source req.from_currency req.to_currency client).0 ≡ ok found
    pub has_run : (moves user wallet req found w.conn).0 ≡ ok balances
    pub is_response : resp ≡ reply_with user wallet req found balances
    pub is_world : w' ≡ record w {
      conn = (moves user wallet req found w.conn).1;
      client = some (get_rate_with_source req.from_currency req.to_currency client).1;
      broker = publish w.publisher user "exchange" req.from_currency req.amount w.broker;
    }

  pub priced_go :
      (user wallet : ℕ) (req : ExchangeRequest) (w : World) {resp : Response} {w' : World}
      → priced user wallet req w ≡ (go resp, w')
      → Priced user wallet req w resp w'
  priced_go user wallet req w {resp} {w'} h =
      let (found, w1, a, h1) = bind_go (asked req) _ w h in
      let (client, is_client, is_rate, world) =
        ask_go (get_rate_with_source req.from_currency req.to_currency)
          (write_error 503 "exchange rate service unavailable")
          (write_error 400
            ("exchange rate not available for " ++ rate_key req.from_currency req.to_currency))
          w a in
      let (balances, has_run, is_response, is_world) =
        settled_go user wallet req found _
          (subst (λ v. settled user wallet req found v ≡ (go resp, w')) world h1) in
      record {
        client = client;
        found = found;
        balances = balances;
        is_client = is_client;
        is_rate = is_rate;
        has_run = has_run;
        is_response = is_response;
        is_world = is_world;
      }
