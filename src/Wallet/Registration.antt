-- ===== src/Wallet/Registration.antt =====
-- HandleRegister of gw-currency-wallet/internal/handler_auth.go, run to its end.
use wallet_service.Base.{
  ℕ, String, ◌≡◌, sym, ap, ◌∙◌, true, false, Option, some, ◌=ₛ◌, ◌||◌, if◌then◌else◌,
}
use wallet_service.Base.Text.{is_empty}
use wallet_service.Base.Result.{ok}
use wallet_service.Wallet.Auth.{Crypto, hash_password}
use wallet_service.Wallet.Repo.{create_user, create_wallet_for_user, create_balances_for_wallet}
use wallet_service.Wallet.Http.{
  message, Response, Request, World, go, write_json, write_error, bare, query, need, reply_if,
  require_method, invalid_json,
}
use wallet_service.Wallet.Http.Laws.{bind_go, reply_if_go, need_go, query_go}
use wallet_service.Wallet.Accounts.{RegisterRequest, create_error, handle_register}
use wallet_service.Wallet.Balance.{internal_error}
use wallet_service.Wallet.Outcomes.{go_value, go_world}

-- What has happened when the handler has replied 201.
pub record Registered (lib : Crypto) (body : Option RegisterRequest) (w : World) (resp : Response)
    (w' : World) : Type 0 where
  pub req : RegisterRequest
  pub hash : String
  pub user : ℕ
  pub wallet : ℕ
  pub is_body : body ≡ some req
  pub is_full : (is_empty req.username || is_empty req.email || is_empty req.password) ≡ false
  pub is_hash : hash_password lib req.password ≡ some hash
  pub has_user : (create_user req.username req.email hash w.conn).0 ≡ ok user
  pub has_wallet :
      (create_wallet_for_user user (create_user req.username req.email hash w.conn).1).0 ≡ ok wallet
  pub has_balances :
      (create_balances_for_wallet wallet
        (create_wallet_for_user user (create_user req.username req.email hash w.conn).1).1).0
      ≡ ok tt
  pub is_response : resp ≡ write_json 201 (message "registered")
  pub is_world : w' ≡ record w {
    conn =
        (create_balances_for_wallet wallet
          (create_wallet_for_user user (create_user req.username req.email hash w.conn).1).1).1;
  }

-- A registration whose handler does not reply with an error had a name, an address and a password. The
-- user was created with what the hash function made of the password; then the user's wallet;
-- then its balances, each without an error; the reply is 201, and nothing else of the world changed.
pub handle_register-Registered :
    (lib : Crypto) (r : Request) (body : Option RegisterRequest) (w : World) (resp : Response)
    (w' : World)
    → handle_register lib r body w ≡ (go resp, w')
    → Registered lib body w resp w'
unfolding handle_register
handle_register-Registered lib r body w resp w' h =
    let (_, w1, m, h1) = bind_go (require_method "POST" r) _ w h in
    let (_, same1) = reply_if_go (if r.method =ₛ "POST" then false else true) (bare 405) w m in
    let (req, w2, b, h2) = bind_go (need body invalid_json) _ w1 h1 in
    let (is_body, same2) = need_go body invalid_json w1 b in
    let bad = write_error 400 "username, email and password are required" in
    let blank = is_empty req.username || is_empty req.email || is_empty req.password in
    let (_, w3, g, h3) = bind_go (reply_if blank bad) _ w2 h2 in
    let (full, same3) = reply_if_go blank bad w2 g in
    let (hash, w4, e, h4) =
      bind_go (need (hash_password lib req.password) internal_error) _ w3 h3 in
    let (is_hash, same4) = need_go (hash_password lib req.password) internal_error w3 e in
    let same : w ≡ w4 = same1 ∙ same2 ∙ same3 ∙ same4 in
    let make = create_user req.username req.email hash in
    let (user, w5, q, h5) = bind_go (query make create_error) _ w4 h4 in
    let (has_user, world5) = query_go make create_error w4 q in
    let (wallet, w6, q', h6) =
      bind_go (query (create_wallet_for_user user) (λ _. internal_error)) _ w5 h5 in
    let (has_wallet, world6) = query_go (create_wallet_for_user user) (λ _. internal_error) w5 q' in
    let (_, w7, q'', h7) =
      bind_go (query (create_balances_for_wallet wallet) (λ _. internal_error)) _ w6 h6 in
    let (has_balances, world7) =
      query_go (create_balances_for_wallet wallet) (λ _. internal_error) w6 q'' in
    let at5 : w5 ≡ record w { conn = (make w.conn).1 } =
      world5 ∙ ap (λ (v : World). record v { conn = (make v.conn).1 }) (sym same) in
    let at6 : w6 ≡ record w { conn = (create_wallet_for_user user (make w.conn).1).1 } =
      world6 ∙ ap (λ (v : World). record v { conn = (create_wallet_for_user user v.conn).1 }) at5 in
    record {
      req = req;
      hash = hash;
      user = user;
      wallet = wallet;
      is_body = is_body;
      is_full = full;
      is_hash = is_hash;
      has_user = ap (λ (v : World). (make v.conn).0) same ∙ has_user;
      has_wallet =
          ap (λ (v : World). (create_wallet_for_user user v.conn).0) (sym at5) ∙ has_wallet;
      has_balances =
          ap (λ (v : World). (create_balances_for_wallet wallet v.conn).0) (sym at6) ∙ has_balances;
      is_response = sym (go_value h7);
      is_world =
          sym (go_world h7)
          ∙ world7
          ∙ ap (λ (v : World). record v { conn = (create_balances_for_wallet wallet v.conn).1 })
              at6;
    }
