-- ===== src/Wallet/Sessions.antt =====
-- HandleLogin of gw-currency-wallet/internal/handler_auth.go, and AuthMiddleware.
use Prim.Native.String.{◌++◌}
use Prim.Native.String.append
use wallet_service.Base.{
  ℕ, ◌+◌, ◌<◌, String, ◌≡◌, refl, sym, ap, ◌∙◌, true, false, not, Option, none, some, arith, ◌=ₛ◌,
  ◌||◌, if◌then◌else◌,
}
use wallet_service.Base.Text.{is_empty}
use wallet_service.Base.Result.{ok}
use wallet_service.Wallet.Db.{User}
use wallet_service.Wallet.Repo.{get_user_by_username}
use wallet_service.Wallet.Auth.{
  Crypto, Claims, default_expire, check_password, new_token, validate_token, authenticate,
  after_prefix, bearer, claimed,
}
use wallet_service.Wallet.Http.{
  token, Response, Request, World, go, write_json, write_error, bare, query, need, reply_if,
  require_method, invalid_json,
}
use wallet_service.Wallet.Http.Laws.{bind_go, reply_if_go, need_go, query_go}
use wallet_service.Wallet.Accounts.{LoginRequest, handle_login, bad_login, login_error}
use wallet_service.Wallet.Balance.{internal_error}
use wallet_service.Wallet.Outcomes.{go_value, go_world}

-- What the code relies on in the jwt library: a token that it has signed parses, until it expires, to
-- the claims that were signed, under the same secret.
abbrev pub HasTokens : Crypto → Type 0
HasTokens lib =
    (secret t : String) (claims : Claims) (now : ℕ)
    → lib.sign secret claims ≡ some t
    → now < claims.expires_at
    → lib.parse secret t now ≡ some claims

-- strings.TrimPrefix gives back what follows the prefix.
after_prefix-append : (lib : Crypto) (p t : String) → after_prefix lib p (p ++ t) ≡ some t
unfolding after_prefix
after_prefix-append lib String.[] t = ap some (append.nil t)
after_prefix-append lib (String.◌∷◌ c p) t =
    ap (after_prefix lib (String.◌∷◌ c p)) (append.cons c p t)
    ∙ ground (arith, after_prefix-append lib p t)

full-append : (p t : String) → is_empty p ≡ false → is_empty (p ++ t) ≡ false
unfolding is_empty
full-append String.[] t h = ground arith
full-append (String.◌∷◌ c p) t h = ap is_empty (append.cons c p t)

authenticate-prefix :
    (lib : Crypto) (secret t : String) (now : ℕ)
    → authenticate lib secret now ("Bearer " ++ t) ≡ claimed lib (validate_token lib secret t now)
unfolding authenticate is_empty
authenticate-prefix lib secret t now =
    let header = "Bearer " ++ t in
    ap (λ b. if b then none else bearer lib secret now (after_prefix lib "Bearer " header))
      (full-append "Bearer " t refl)
    ∙ ap (bearer lib secret now) (after_prefix-append lib "Bearer " t)

new_token-authenticate :
    (lib : Crypto)
    → HasTokens lib
    → (secret t : String) (user now later at : ℕ) → new_token lib secret user 0 now later ≡ some t
    → at < now + default_expire
    → authenticate lib secret at ("Bearer " ++ t) ≡ some user
unfolding new_token validate_token
new_token-authenticate lib law secret t user now later at signed before =
    authenticate-prefix lib secret t at
    ∙ ap (claimed lib) (
        law secret t
          (record { user_id = user; issued_at = later; expires_at = now + default_expire }) at
          signed before)

-- A login whose handler does not reply with an error found the user by the name, and the password
-- matches the user's hash; the reply is 200 with a token, and at a time before 24 hours from the login
-- the middleware takes the header "Bearer <token>" for that user. Nothing but the database's
-- connection changed. The condition is that the jwt library parses what it has signed.
pub login_authenticates :
    (lib : Crypto)
    → HasTokens lib
    → (secret : String) (now later : ℕ) (r : Request) (body : Option LoginRequest) (w : World)
      (resp : Response) (w' : World) (at : ℕ)
    → at < now + default_expire
    → handle_login lib secret now later r body w ≡ (go resp, w')
    → (req : LoginRequest) × (user : User) × (t : String) × (body ≡ some req)
      × ((get_user_by_username req.username w.conn).0 ≡ ok user)
      × (check_password lib req.password user.password_hash ≡ true)
      × (resp ≡ write_json 200 (token t))
      × (w' ≡ record w { conn = (get_user_by_username req.username w.conn).1 })
      × (authenticate lib secret at ("Bearer " ++ t) ≡ some user.id)
unfolding handle_login
login_authenticates lib law secret now later r body w resp w' at before h =
    let (_, w1, m, h1) = bind_go (require_method "POST" r) _ w h in
    let (_, same1) = reply_if_go (if r.method =ₛ "POST" then false else true) (bare 405) w m in
    let (req, w2, b, h2) = bind_go (need body invalid_json) _ w1 h1 in
    let (is_body, same2) = need_go body invalid_json w1 b in
    let bad = write_error 400 "username and password are required" in
    let blank = is_empty req.username || is_empty req.password in
    let (_, w3, g, h3) = bind_go (reply_if blank bad) _ w2 h2 in
    let (_, same3) = reply_if_go blank bad w2 g in
    let (user, w4, q, h4) =
      bind_go (query (get_user_by_username req.username) login_error) _ w3 h3 in
    let (is_user, world) = query_go (get_user_by_username req.username) login_error w3 q in
    let wrong = not (check_password lib req.password user.password_hash) in
    let (_, w5, c, h5) = bind_go (reply_if wrong bad_login) _ w4 h4 in
    let (right, same5) = reply_if_go wrong bad_login w4 c in
    let (t, w6, n, h6) =
      bind_go (need (new_token lib secret user.id 0 now later) internal_error) _ w5 h5 in
    let (signed, same6) = need_go (new_token lib secret user.id 0 now later) internal_error w5 n in
    let same : w ≡ w3 = same1 ∙ same2 ∙ same3 in
    (
      req,
      user,
      t,
      is_body,
      ap (λ (v : World). (get_user_by_username req.username v.conn).0) same ∙ is_user,
      ground arith,
      sym (go_value h6),
      sym (go_world h6)
          ∙ sym (same5 ∙ same6)
          ∙ world
          ∙ ap (λ (v : World). record v { conn = (get_user_by_username req.username v.conn).1 })
              (sym same),
      new_token-authenticate lib law secret t user.id now later at signed before,
    )
