-- ===== src/Wallet/Exchange/Done.antt =====
-- HandleExchange of gw-currency-wallet/internal/handler_exchange.go, run to its end.
use wallet_service.Base.{
  ℕ, String, ◌≡◌, ◌≢◌, eq_iff, arith, sym, ap, subst, ◌∙◌, true, false, ◌&&◌, Option, some, ◌=ₛ◌,
  if◌then◌else◌,
}
use wallet_service.Base.Int.{pos, ◌<ℤ◌}
use wallet_service.Base.Dict.{Dict}
use wallet_service.Base.Result.{ok}
use wallet_service.Wallet.Money.{Float, FloatOps}
use wallet_service.Wallet.Db.{Tables}
use wallet_service.Wallet.Repo.{get_wallet_id_by_user_id}
use wallet_service.Wallet.Repo.Transfers.{Transferred, Moved-Transferred}
use wallet_service.Wallet.Publisher.{publish}
use wallet_service.Wallet.Client.{Client, get_rate_with_source}
use wallet_service.Wallet.Http.{
  Response, Request, World, go, Handler, ◌>>=◌, bare, query, need, require_method, require_user,
  invalid_json,
}
use wallet_service.Wallet.Http.Laws.{bind_go, reply_if_go, need_go, query_go}
use wallet_service.Wallet.Balance.{allowed, wallet_error}
use wallet_service.Wallet.Exchange.Priced.{moves, reply_with, priced, priced_go, moves-Moved}
use wallet_service.Wallet.Exchange.Parts.{check_exchange_go, wallet_id_reads}
use wallet_service.Wallet.Exchange.{
  ExchangeRequest, check_exchange, exchanged_amount, handle_exchange,
}

module _ (ops : FloatOps) where
  -- What has happened when the handler has replied 200.
  pub record Done (r : Request) (body : Option ExchangeRequest) (w : World) (resp : Response)
      (w' : World) : Type 0 where
    pub user : ℕ
    pub req : ExchangeRequest
    pub wallet : ℕ
    pub client : Client
    pub found : Float × String
    pub balances : Dict Float
    pub is_user : r.user ≡ some user
    pub is_body : body ≡ some req
    pub is_positive : pos 0 <ℤ req.amount
    pub differ : req.from_currency =ₛ req.to_currency ≡ false
    pub is_allowed : allowed req.from_currency && allowed req.to_currency ≡ true
    pub is_wallet : (get_wallet_id_by_user_id user w.conn).0 ≡ ok wallet
    pub is_client : w.client ≡ some client
    pub is_rate : (get_rate_with_source req.from_currency req.to_currency client).0 ≡ ok found
    pub has_moved :
        Transferred wallet req.from_currency req.to_currency req.amount
          (exchanged_amount ops req.amount found.0)
          w.conn.tables
          w'.conn.tables
    pub is_response : resp ≡ reply_with ops user wallet req found balances
    pub is_world : w' ≡ record w {
      conn = (moves ops user wallet req found (get_wallet_id_by_user_id user w.conn).1).1;
      client = some (get_rate_with_source req.from_currency req.to_currency client).1;
      broker = publish w.publisher user "exchange" req.from_currency req.amount w.broker;
    }

  -- The handler from the wallet on.
  abbrev charged : ℕ → ExchangeRequest → Handler Response
  charged user req =
      query (get_wallet_id_by_user_id user) wallet_error >>= λ wallet. priced ops user wallet req

  module _ (r : Request) (body : Option ExchangeRequest) (user : ℕ) (req : ExchangeRequest)
      (is_user : r.user ≡ some user) (is_body : body ≡ some req) (is_positive : pos 0 <ℤ req.amount)
      (differ : req.from_currency =ₛ req.to_currency ≡ false)
      (is_allowed : allowed req.from_currency && allowed req.to_currency ≡ true) where
    charged-Done :
        (w : World) {resp : Response} {w' : World}
        → charged user req w ≡ (go resp, w')
        → Done r body w resp w'
    charged-Done w {resp} {w'} h =
        let (wallet, w1, q, h1) =
          bind_go (query (get_wallet_id_by_user_id user) wallet_error) _ w h in
        let (is_wallet, world) = query_go (get_wallet_id_by_user_id user) wallet_error w q in
        let done =
          priced_go ops user wallet req
            (record w { conn = (get_wallet_id_by_user_id user w.conn).1 })
            (subst (λ v. priced ops user wallet req v ≡ (go resp, w')) world h1) in
        let currencies_differ : req.from_currency ≢ req.to_currency =
          λ e. ground (arith, eq_iff req.from_currency req.to_currency) in
        let moved =
          Moved-Transferred wallet req.from_currency req.to_currency req.amount
            (exchanged_amount ops req.amount done.found.0) _ _ currencies_differ
            (moves-Moved ops user wallet req done.found (get_wallet_id_by_user_id user w.conn).1
              done.has_run) in
        record {
          user = user;
          req = req;
          wallet = wallet;
          client = done.client;
          found = done.found;
          balances = done.balances;
          is_user = is_user;
          is_body = is_body;
          is_positive = is_positive;
          differ = differ;
          is_allowed = is_allowed;
          is_wallet = is_wallet;
          is_client = done.is_client;
          is_rate = done.is_rate;
          has_moved =
              subst
                (λ (t : Tables × Tables).
                  Transferred wallet req.from_currency req.to_currency req.amount
                    (exchanged_amount ops req.amount done.found.0) t.0 t.1)
                (λ i. (
                  wallet_id_reads user w.conn i,
                  sym (ap (λ (v : World). v.conn.tables) done.is_world) i,
                ))
                moved;
          is_response = done.is_response;
          is_world = done.is_world;
        }

  -- An exchange whose handler does not reply with an error came from an authenticated user, with a body
  -- that decodes, a positive amount and two different allowed currencies. The wallet is the user's, the
  -- exchanger's client answered a rate, and both updates of the repository are in the tables, and
  -- nothing else: the balance of the first currency covered the amount and has lost it, and the balance of
  -- the second has gained the amount times the rate, rounded to hundredths; only where the wallet has no
  -- balance in the second currency has the first lost the amount for nothing. The reply is 200 with the rate, its
  -- source, the exchanged amount and the balances that the repository returned, the event of the debited
  -- amount was handed to the publisher, and nothing else of the world changed but the client's cache.
  pub handle_exchange-Done :
      (r : Request) (body : Option ExchangeRequest) (w : World) (resp : Response) (w' : World)
      → handle_exchange ops r body w ≡ (go resp, w')
      → Done r body w resp w'
  unfolding handle_exchange
  handle_exchange-Done r body w resp w' h =
      let (_, w1, m, h1) = bind_go (require_method "POST" r) _ w h in
      let (_, same1) = reply_if_go (if r.method =ₛ "POST" then false else true) (bare 405) w m in
      let (user, w2, u, h2) = bind_go (require_user r) _ w1 h1 in
      let (is_user, same2) = need_go r.user (bare 401) w1 u in
      let (req, w3, b, h3) = bind_go (need body invalid_json) _ w2 h2 in
      let (is_body, same3) = need_go body invalid_json w2 b in
      let (_, w4, c, h4) = bind_go (check_exchange req) _ w3 h3 in
      let (positive, differ, allow, same4) = check_exchange_go req w3 c in
      subst (λ v. Done r body v resp w') (sym (same1 ∙ same2 ∙ same3 ∙ same4))
        (charged-Done r body user req is_user is_body positive differ allow w4 h4)
