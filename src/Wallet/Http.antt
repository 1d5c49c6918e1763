-- ===== src/Wallet/Http.antt =====
-- Requests, responses and the handlers' monad. What `encoding/json` makes of a request's body is an
-- input: the record that it decodes to, or an error. A response's body is the value that is encoded.
pub mod Laws
use wallet_service.Base.{ℕ, String, Bool, true, false, Option, none, some, ◌=ₛ◌, if◌then◌else◌}
use wallet_service.Base.Result.{Result, ok, err}
use wallet_service.Base.Dict.{Dict}
use wallet_service.Base.Int.{ℤ}
use wallet_service.Sql.{Conn}
use wallet_service.Wallet.Errors.{Err}
use wallet_service.Wallet.Money.{Float}
use wallet_service.Wallet.Db.{Tables}
use wallet_service.Wallet.Client.{Client}
use wallet_service.Wallet.Publisher.{Publisher, Broker, publish}

pub record HealthResponse : Type 0 where
  pub status : String
  pub db : String
  pub exchanger : String
  pub kafka : String

pub record ExchangeResponse : Type 0 where
  pub message : String
  pub rate : Float
  pub exchanged_amount : Float
  pub new_balance : Dict Float
  pub source : String

-- The bodies that the handlers encode; `nothing` is a status alone.
pub data Body : Type 0 where
  nothing : Body
  error : String → Body
  message : String → Body
  token : String → Body
  balances : Dict Float → Body
  amount_of : String → Float → Body
  rates : Dict Float → String → Body
  exchanged : ExchangeResponse → Body
  health : HealthResponse → Body

pub record Response : Type 0 where
  pub status : ℕ
  pub body : Body

abbrev pub bare : ℕ → Response
bare status = record { status = status; body = nothing }

-- writeError
abbrev pub write_error : ℕ → String → Response
write_error status msg = record { status = status; body = error msg }

-- writeJSON
abbrev pub write_json : ℕ → Body → Response
write_json status v = record { status = status; body = v }

-- What the handlers share: the database, the exchanger's client and the publisher (each may be
-- nil), and the Kafka broker. `Handler` of the source, with the world that it acts on.
pub record World : Type 0 where
  pub conn : Conn Tables
  pub client : Option Client
  pub publisher : Option Publisher
  pub broker : Broker

-- A part of a handler goes on with a value, or has replied.
pub data Outcome (A : Type 0) : Type 0 where
  go : A → Outcome A
  reply : Response → Outcome A

abbrev pub Handler : Type 0 → Type 0
Handler A = World → Outcome A × World

abbrev pub pure : {A : Type 0} → A → Handler A
pure a w = (go a, w)

abbrev pub answer : {A : Type 0} → Response → Handler A
answer r w = (reply r, w)

abbrev pub continue : {A B : Type 0} → Outcome A × World → (A → Handler B) → Outcome B × World
continue (go a, w) f = f a w
continue (reply r, w) f = (reply r, w)

infixl 5 ◌>>=◌ ◌>>◌
unfoldable pub ◌>>=◌ : {A B : Type 0} → Handler A → (A → Handler B) → Handler B
◌>>=◌ m f w = continue (m w) f

abbrev pub ◌>>◌ : {B : Type 0} → Handler Unit → Handler B → Handler B
m >> k = m >>= λ _. k

-- A guard at the head of a handler: `if test { write; return }`.
abbrev pub reply_if : Bool → Response → Handler Unit
reply_if true r = answer r
reply_if false r = pure tt

abbrev pub need : {A : Type 0} → Option A → Response → Handler A
need none r = answer r
need (some a) r = pure a

abbrev pub or_reply :
    {A : Type 0} → (Err → Response) → World → Result Err A × Conn Tables → Outcome A × World
or_reply f w (ok a, c) = (go a, record w { conn = c })
or_reply f w (err e, c) = (reply (f e), record w { conn = c })

-- A call of a repository's method, and the reply to its error.
unfoldable pub query :
    {A : Type 0} → (Conn Tables → Result Err A × Conn Tables) → (Err → Response) → Handler A
query action f w = or_reply f w (action w.conn)

-- `h.largeTxPublisher.Publish`, if there is a publisher.
unfoldable pub announce : ℕ → String → String → Float → Handler Unit
announce user kind currency amount w =
    (go tt, record w { broker = publish w.publisher user kind currency amount w.broker })

abbrev pub response_of : Outcome Response × World → Response × World
response_of (go r, w) = (r, w)
response_of (reply r, w) = (r, w)

-- The method, and the user that the middleware has put into the context.
pub record Request : Type 0 where
  pub method : String
  pub user : Option ℕ

abbrev pub require_method : String → Request → Handler Unit
require_method m r = reply_if (if r.method =ₛ m then false else true) (bare 405)

-- middleware.UserIDFromContext
abbrev pub require_user : Request → Handler ℕ
require_user r = need r.user (bare 401)

abbrev pub invalid_json : Response
invalid_json = write_error 400 "invalid json"
