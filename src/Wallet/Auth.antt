-- ===== src/Wallet/Auth.antt =====
-- gw-currency-wallet/internal/auth and internal/http/middleware/auth.go. The libraries bcrypt and
-- jwt are a parameter.
use Prim.Native.Char.{code}
use wallet_service.Base.{ℕ, ◌+◌, ◌*◌, String, Bool, Option, none, some, ◌==◌, if◌then◌else◌}
use wallet_service.Base.Text.{is_empty}
use wallet_service.Wallet.Http.{Response, Request, World, bare}

-- Times are in seconds: a NumericDate has no finer ones.
pub record Claims : Type 0 where
  pub user_id : ℕ
  pub issued_at : ℕ
  pub expires_at : ℕ

-- bcrypt.GenerateFromPassword and CompareHashAndPassword (hash, then password); SignedString with
-- HS256; ParseWithClaims at a time, with the HMAC check of the key function.
pub record Crypto : Type 0 where
  pub generate : String → Option String
  pub matches_hash : String → String → Bool
  pub sign : String → Claims → Option String
  pub parse : String → String → ℕ → Option Claims

abbrev pub default_expire : ℕ
default_expire = 24 * 3600

module _ (lib : Crypto) where
  unfoldable pub hash_password : String → Option String
  hash_password password = lib.generate password

  unfoldable pub check_password : String → String → Bool
  check_password password hash = lib.matches_hash hash password

  -- `if expire == 0 { expire = defaultExpire }`; the expiry is set from the first reading of the
  -- clock, the issue from the second.
  unfoldable pub new_token : String → ℕ → ℕ → ℕ → ℕ → Option String
  new_token secret user expire now later = lib.sign secret (record {
    user_id = user;
    issued_at = later;
    expires_at = now + (if expire == 0 then default_expire else expire);
  })

  unfoldable pub validate_token : String → String → ℕ → Option Claims
  validate_token secret token now = lib.parse secret token now

  -- What follows a prefix, if the text has it: strings.HasPrefix and strings.TrimPrefix.
  unfoldable pub after_prefix : String → String → Option String
  after_prefix String.[] s = some s
  after_prefix (String.◌∷◌ p ps) String.[] = none
  after_prefix (String.◌∷◌ p ps) (String.◌∷◌ c s) =
      let rest = after_prefix ps s in if code p == code c then rest else none

  abbrev pub claimed : Option Claims → Option ℕ
  claimed none = none
  claimed (some claims) = some claims.user_id

  abbrev pub bearer : String → ℕ → Option String → Option ℕ
  bearer secret now none = none
  bearer secret now (some token) = claimed (validate_token secret token now)

  -- The user that AuthMiddleware finds in an `Authorization` header.
  unfoldable pub authenticate : String → ℕ → String → Option ℕ
  unfolding after_prefix validate_token
  authenticate secret now header =
      if is_empty header then none else bearer secret now (after_prefix "Bearer " header)

  abbrev pub pass :
      Option ℕ → String → (Request → World → Response × World) → World → Response × World
  pass none method next w = (bare 401, w)
  pass (some user) method next w = next (record { method = method; user = some user }) w

  -- AuthMiddleware: the next handler runs with the user in its context, or not at all.
  unfoldable pub auth_middleware :
      String → ℕ → String → String → (Request → World → Response × World) → World → Response × World
  unfolding authenticate
  auth_middleware secret now header method next w =
      pass (authenticate secret now header) method next w
