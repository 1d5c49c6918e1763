-- ===== src/Wallet/Accounts.antt =====
-- gw-currency-wallet/internal/handler_auth.go
use wallet_service.Base.{ℕ, String, Option, not, ◌||◌}
use wallet_service.Base.Text.{is_empty}
use wallet_service.Wallet.Errors.{Err, user_exists, auth_failed}
use wallet_service.Wallet.Repo.{
  create_user, get_user_by_username, create_wallet_for_user, create_balances_for_wallet,
}
use wallet_service.Wallet.Auth.{Crypto, hash_password, check_password, new_token}
use wallet_service.Wallet.Http.{
  message, token, Response, Request, Handler, write_error, write_json, pure, ◌>>=◌, ◌>>◌, reply_if,
  need, query, require_method, invalid_json,
}
use wallet_service.Wallet.Balance.{internal_error}

pub record RegisterRequest : Type 0 where
  pub username : String
  pub email : String
  pub password : String

pub record LoginRequest : Type 0 where
  pub username : String
  pub password : String

abbrev pub create_error : Err → Response
create_error user_exists = write_error 409 "username or email already taken"
create_error _ = internal_error

abbrev pub bad_login : Response
bad_login = write_error 401 "invalid username or password"

abbrev pub login_error : Err → Response
login_error auth_failed = bad_login
login_error _ = internal_error

module _ (lib : Crypto) where
  unfoldable pub handle_register : Request → Option RegisterRequest → Handler Response
  handle_register r body = do
    require_method "POST" r
    req ← need body invalid_json
    reply_if (is_empty req.username || is_empty req.email || is_empty req.password)
        (write_error 400 "username, email and password are required")
    hash ← need (hash_password lib req.password) internal_error
    user ← query (create_user req.username req.email hash) create_error
    wallet ← query (create_wallet_for_user user) (λ _. internal_error)
    query (create_balances_for_wallet wallet) (λ _. internal_error)
    pure (write_json 201 (message "registered"))

  -- The server's secret, and two readings of the clock for the token.
  unfoldable pub handle_login : String → ℕ → ℕ → Request → Option LoginRequest → Handler Response
  handle_login secret now later r body = do
    require_method "POST" r
    req ← need body invalid_json
    reply_if (is_empty req.username || is_empty req.password)
        (write_error 400 "username and password are required")
    user ← query (get_user_by_username req.username) login_error
    reply_if (not (check_password lib req.password user.password_hash)) bad_login
    t ← need (new_token lib secret user.id 0 now later) internal_error
    pure (write_json 200 (token t))
