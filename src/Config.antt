-- ===== src/Config.antt =====
-- The configuration of the services, read from the environment. `Env` is os.Getenv: an unset variable
-- is the empty text.
pub mod Wallet
pub mod Exchanger
pub mod Notification
pub mod Aggregator
pub mod Producer
mod Tests
use Prim.Native.Char.{Char, code}
use Prim.Native.String.{◌++◌}
use wallet_service.Base.{
  ℕ, ◌+◌, ◌-◌, ◌*◌, ◌^◌, String, Bool, true, false, ◌||◌, ◌&&◌, leb, ◌==◌, ◌=ₛ◌, Option, none, some,
  List, if◌then◌else◌,
}
use wallet_service.Base.Int.{ℤ, pos, negsuc}
use wallet_service.Base.Text.{is_empty, or_default, broker_list}
use wallet_service.Base.Result.{Result, ok, err}
use wallet_service.Wallet.Money.{Float}

abbrev pub Env : Type 0
Env = String → String

-- strconv.Atoi: a sign, then digits, within int64.
abbrev pub is_digit : ℕ → Bool
is_digit c = leb 48 c && leb c 57

unfoldable pub digits : String → ℕ → Option ℕ
digits String.[] n = some n
digits (String.◌∷◌ c s) n =
    let rest = digits s (10 * n + (code c - 48)) in if is_digit (code c) then rest else none

abbrev pub number : String → Option ℕ
unfolding digits
number String.[] = none
number (String.◌∷◌ c s) = digits (String.◌∷◌ c s) 0

abbrev pub within : ℕ → Option ℕ → Option ℕ
within limit none = none
within limit (some n) = if leb n limit then some n else none

abbrev pub negated : Option ℕ → Option ℤ
negated none = none
negated (some n) = some (if n == 0 then pos 0 else negsuc (n - 1))

abbrev pub positive : Option ℕ → Option ℤ
positive none = none
positive (some n) = some (pos n)

unfoldable pub atoi : String → Option ℤ
unfolding number
atoi String.[] = none
atoi (String.◌∷◌ c s) =
    if code c == b'-'
    then negated (within (2 ^ 63) (number s))
    else (if code c == b'+'
        then positive (within (2 ^ 63 - 1) (number s))
        else positive (within (2 ^ 63 - 1) (number (String.◌∷◌ c s))))

abbrev pub otherwise : {A : Type 0} → A → Option A → A
otherwise d none = d
otherwise d (some a) = a

-- parseInt, parseDuration and parseFloat: the default for an empty text, or one that does not parse.
unfoldable pub parse_or : {A : Type 0} → (String → Option A) → String → A → A
unfolding is_empty
parse_or parse s d = if is_empty s then d else otherwise d (parse s)

-- time.ParseDuration, in nanoseconds, and the reading of "%f".
pub record Parsers : Type 0 where
  pub duration : String → Option ℤ
  pub float : String → Option Float

abbrev pub dsn_of : String → String → String → String → String → String → String
dsn_of user password host port name mode =
    "postgres://" ++ user ++ ":" ++ password ++ "@" ++ host ++ ":" ++ port ++ "/" ++ name
    ++ "?sslmode=" ++ mode
