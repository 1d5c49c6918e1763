-- ===== src/Wallet/Outcomes.antt =====
-- HandleDeposit and HandleWithdraw of gw-currency-wallet/internal/handler_balance.go, run to their end.
use wallet_service.Base.{
  ℕ, String, ◌≡◌, sym, ap, ◌∙◌, true, false, not, Option, some, arith, ◌=ₛ◌, if◌then◌else◌,
}
use wallet_service.Base.Int.{pos, leb_ℤ, ◌<ℤ◌, leb_ℤ→<ℤ}
use wallet_service.Base.Result.{Result, ok}
use wallet_service.Sql.{Conn}
use wallet_service.Wallet.Errors.{Err}
use wallet_service.Wallet.Money.{Float, FloatOps}
use wallet_service.Wallet.Db.{Tables}
use wallet_service.Wallet.Repo.{get_wallet_id_by_user_id, deposit, withdraw}
use wallet_service.Wallet.Publisher.{publish}
use wallet_service.Wallet.Http.{
  amount_of, Response, Request, World, Outcome, go, Handler, write_json, write_error, bare, pure,
  ◌>>=◌, ◌>>◌, query, need, reply_if, announce, require_method, require_user, invalid_json,
}
use wallet_service.Wallet.Http.Laws.{bind_go, reply_if_go, need_go, query_go}
use wallet_service.Wallet.Balance.{
  AmountCurrencyRequest, allowed, check_amount, wallet_error, deposit_error, withdraw_error,
  handle_deposit, handle_withdraw,
}

module _ {A : Type 0} {a b : A} {w w' : World} where
  pub go_value : ◌≡◌ {A = Outcome A × World} (go a, w) (go b, w') → a ≡ b
  go_value h = ground (arith, ap (λ (p : Outcome A × World). p.0) h)

  pub go_world : ◌≡◌ {A = Outcome A × World} (go a, w) (go b, w') → w ≡ w'
  go_world h = ap (λ (p : Outcome A × World). p.1) h

abbrev pub Change : Type 0
Change = ℕ → String → Float → Conn Tables → Result Err Float × Conn Tables

-- HandleDeposit and HandleWithdraw differ in the method of the repository, in its errors and in the
-- kind of the event.
module _ (action : Change) (on_error : Err → Response) (kind : String) where
  abbrev changed : ℕ → AmountCurrencyRequest → ℕ → Handler Response
  changed user req wallet = query (action wallet req.currency req.amount) on_error >>= λ y.
      announce user kind req.currency req.amount >> pure (write_json 200 (amount_of req.currency y))

  abbrev handled : Request → Option AmountCurrencyRequest → Handler Response
  handled r body =
      require_method "POST" r
      >> (require_user r >>= λ user. need body invalid_json >>= λ req.
          check_amount req
          >> (query (get_wallet_id_by_user_id user) wallet_error >>= λ wallet.
              changed user req wallet))

  -- What has happened when the handler has replied 200.
  pub record Done (r : Request) (body : Option AmountCurrencyRequest) (w : World) (resp : Response)
      (w' : World) : Type 0 where
    pub user : ℕ
    pub req : AmountCurrencyRequest
    pub wallet : ℕ
    pub after : Float
    pub is_user : r.user ≡ some user
    pub is_body : body ≡ some req
    pub is_positive : pos 0 <ℤ req.amount
    pub is_allowed : allowed req.currency ≡ true
    pub is_wallet : (get_wallet_id_by_user_id user w.conn).0 ≡ ok wallet
    pub has_run :
        (action wallet req.currency req.amount (get_wallet_id_by_user_id user w.conn).1).0
        ≡ ok after
    pub is_response : resp ≡ write_json 200 (amount_of req.currency after)
    pub is_world : w' ≡ record w {
      conn = (action wallet req.currency req.amount (get_wallet_id_by_user_id user w.conn).1).1;
      broker = publish w.publisher user kind req.currency req.amount w.broker;
    }

  changed_go :
      (user : ℕ) (req : AmountCurrencyRequest) (wallet : ℕ) (w : World) {resp : Response}
      {w' : World}
      → changed user req wallet w ≡ (go resp, w')
      → (y : Float) × ((action wallet req.currency req.amount w.conn).0 ≡ ok y)
        × (resp ≡ write_json 200 (amount_of req.currency y))
        × (w' ≡ record w {
          conn = (action wallet req.currency req.amount w.conn).1;
          broker = publish w.publisher user kind req.currency req.amount w.broker;
        })
  unfolding announce
  changed_go user req wallet w h =
      let (y, w1, ran, h1) =
        bind_go (query (action wallet req.currency req.amount) on_error) _ w h in
      let (value, world) = query_go (action wallet req.currency req.amount) on_error w ran in
      let (_, w2, told, h2) = bind_go (announce user kind req.currency req.amount) _ w1 h1 in
      (
        y,
        value,
        sym (go_value h2),
        sym (go_world h2)
            ∙ sym (go_world told)
            ∙ ap
                (λ (v : World). record v {
                  broker = publish v.publisher user kind req.currency req.amount v.broker;
                })
                world,
      )

  handled_go :
      (r : Request) (body : Option AmountCurrencyRequest) (w : World) {resp : Response} {w' : World}
      → handled r body w ≡ (go resp, w')
      → Done r body w resp w'
  unfolding check_amount
  handled_go r body w h =
      let (_, w1, m, h1) = bind_go (require_method "POST" r) _ w h in
      let (_, same1) = reply_if_go (if r.method =ₛ "POST" then false else true) (bare 405) w m in
      let (user, w2, u, h2) = bind_go (require_user r) _ w1 h1 in
      let (is_user, same2) = need_go r.user (bare 401) w1 u in
      let (req, w3, b, h3) = bind_go (need body invalid_json) _ w2 h2 in
      let (is_body, same3) = need_go body invalid_json w2 b in
      let (_, w4, c, h4) = bind_go (check_amount req) _ w3 h3 in
      let (_, w5, c1, c2) =
        bind_go (reply_if (leb_ℤ req.amount (pos 0)) (write_error 400 "invalid amount")) _ w3 c in
      let (positive, same4) =
        reply_if_go (leb_ℤ req.amount (pos 0)) (write_error 400 "invalid amount") w3 c1 in
      let (allow, same5) =
        reply_if_go (not (allowed req.currency)) (write_error 400 "invalid currency") w5 c2 in
      let (wallet, w6, q, h6) =
        bind_go (query (get_wallet_id_by_user_id user) wallet_error) _ w4 h4 in
      let (is_wallet, moved) = query_go (get_wallet_id_by_user_id user) wallet_error w4 q in
      let (y, ran, is_resp, is_w) = changed_go user req wallet w6 h6 in
      let same : w ≡ w4 = same1 ∙ same2 ∙ same3 ∙ same4 ∙ same5 in
      let world : w6 ≡ record w { conn = (get_wallet_id_by_user_id user w.conn).1 } =
        moved
        ∙ ap (λ (v : World). record v { conn = (get_wallet_id_by_user_id user v.conn).1 })
            (sym same) in
      record {
        user = user;
        req = req;
        wallet = wallet;
        after = y;
        is_user = is_user;
        is_body = is_body;
        is_positive = leb_ℤ→<ℤ req.amount (pos 0) positive;
        is_allowed = ground arith;
        is_wallet = ap (λ (v : World). (get_wallet_id_by_user_id user v.conn).0) same ∙ is_wallet;
        has_run =
            ap (λ (v : World). (action wallet req.currency req.amount v.conn).0) (sym world) ∙ ran;
        is_response = is_resp;
        is_world =
            is_w
            ∙ ap
                (λ (v : World). record v {
                  conn = (action wallet req.currency req.amount v.conn).1;
                  broker = publish v.publisher user kind req.currency req.amount v.broker;
                })
                world;
      }

-- A deposit whose handler does not reply with an error came from an authenticated user, with a
-- body that decodes, a positive amount and an allowed currency. The wallet is the user's, the
-- repository's deposit ran on it with the request's currency and amount and succeeded, the reply is 200
-- with the amount that it returned, the event was handed to the publisher, and nothing else of the
-- world changed.
pub handle_deposit-Done :
    (ops : FloatOps) (r : Request) (body : Option AmountCurrencyRequest) (w : World)
    (resp : Response) (w' : World)
    → handle_deposit ops r body w ≡ (go resp, w')
    → Done (deposit ops) deposit_error "deposit" r body w resp w'
unfolding handle_deposit
handle_deposit-Done ops r body w resp w' h =
    handled_go (deposit ops) deposit_error "deposit" r body w h

-- A withdrawal whose handler does not reply with an error came from an authenticated user, with a
-- body that decodes, a positive amount and an allowed currency. The wallet is the user's, the
-- repository's withdraw ran on it with the request's currency and amount and succeeded, the reply is 200
-- with the amount that it returned, the event was handed to the publisher, and nothing else of the
-- world changed.
pub handle_withdraw-Done :
    (ops : FloatOps) (r : Request) (body : Option AmountCurrencyRequest) (w : World)
    (resp : Response) (w' : World)
    → handle_withdraw ops r body w ≡ (go resp, w')
    → Done (withdraw ops) withdraw_error "withdraw" r body w resp w'
unfolding handle_withdraw
handle_withdraw-Done ops r body w resp w' h =
    handled_go (withdraw ops) withdraw_error "withdraw" r body w h
