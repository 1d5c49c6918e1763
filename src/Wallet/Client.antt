-- ===== src/Wallet/Client.antt =====
-- ExchangerClient, gw-currency-wallet/internal/grpcclient/exchanger_client.go: exchange rates from
-- the exchanger, cached for a while. The clock and the exchanger's answers are inputs.
pub mod Signs
pub mod Cache
pub mod Refreshes
use wallet_service.Base.{
  ℕ, ◌+◌, ◌-◌, String, Bool, true, false, Option, none, some, List, [], ◌∷◌, ltb, if◌then◌else◌,
}
use Prim.Native.String.{◌++◌}
use wallet_service.Base.Result.{Result, ok, err}
use wallet_service.Base.Dict.{Dict, lookup}
use wallet_service.Base.Int.{pos, leb_ℤ}
use wallet_service.Wallet.Money.{Float}

-- What the exchanger would answer to a call now; `none` is an error of the call.
pub record Exchanger : Type 0 where
  pub all_rates : Option (Dict Float)
  pub one_rate : String → String → Option Float

-- The fields of the struct that are read, and then the environment: the time of the last reading of
-- the clock, what passes before each coming one, and the exchanger at each coming call.
pub record Client : Type 0 where
  pub connected : Bool  -- `client != nil`
  pub cache_ttl : ℕ
  pub cache_rates : Dict Float
  pub cache_at : Option ℕ  -- `none` is the zero time
  pub now : ℕ
  pub delays : List ℕ
  pub calls : List Exchanger

abbrev pub advance : List ℕ → Client → Client
advance [] c = c
advance (d ∷ ds) c = record c { now = c.now + d; delays = ds }

unfoldable pub read_clock : Client → Client
read_clock c = advance c.delays c

abbrev pub unreachable : Exchanger
unreachable = record { all_rates = none; one_rate = λ _ _. none }

abbrev pub pop_call : List Exchanger → Client → Exchanger × Client
pop_call [] c = (unreachable, c)
pop_call (e ∷ es) c = (e, record c { calls = es })

unfoldable pub next_call : Client → Exchanger × Client
next_call c = pop_call c.calls c

abbrev pub is_fresh_at : Option ℕ → Client → Bool × Client
is_fresh_at none c = (false, c)
is_fresh_at (some at) c = (ltb ((read_clock c).now - at) c.cache_ttl, read_clock c)

-- `!c.cacheAt.IsZero() && time.Since(c.cacheAt) < c.cacheTTL`
unfoldable pub is_fresh : Client → Bool × Client
unfolding read_clock
is_fresh c = is_fresh_at c.cache_at c

-- Rates with their source, or the error of a call.
abbrev pub Reply : Type 0 → Type 0
Reply A = Result Unit (A × String)

abbrev pub fetched : Option (Dict Float) → Client → Reply (Dict Float) × Client
fetched none c = (err tt, c)
fetched (some rates) c =
    let c' = read_clock c in
    (ok (rates, "grpc"), record c' { cache_rates = rates; cache_at = some c'.now })

abbrev pub fetch : Exchanger × Client → Reply (Dict Float) × Client
fetch (e, c) = fetched e.all_rates c

abbrev pub locked_look : Bool × Client → Reply (Dict Float) × Client
locked_look (true, c) = (ok (c.cache_rates, "cache"), c)
locked_look (false, c) = if c.connected then fetch (next_call c) else (ok ([], "grpc"), c)

-- What GetAllRates does under the write lock: it looks again, and then asks the exchanger.
unfoldable pub locked_part : Client → Reply (Dict Float) × Client
unfolding is_fresh next_call
locked_part c = locked_look (is_fresh c)

abbrev pub first_look : Bool × Client → Reply (Dict Float) × Client
first_look (true, c) = (ok (c.cache_rates, "cache"), c)
first_look (false, c) = locked_part c

-- A call with no other between its two locks.
unfoldable pub get_all_rates : Client → Reply (Dict Float) × Client
unfolding locked_part is_fresh
get_all_rates c = first_look (is_fresh c)

abbrev pub rate_key : String → String → String
rate_key from to = from ++ "_" ++ to

abbrev pub checked : Option Float → Client → Reply Float × Client
checked none c = (err tt, c)
checked (some r) c = (if leb_ℤ r (pos 0) then err tt else ok (r, "grpc"), c)

abbrev pub ask_pair : String → String → Exchanger × Client → Reply Float × Client
ask_pair from to (e, c) = checked (e.one_rate from to) c

abbrev pub cached_pair : String → String → Option Float → String → Client → Reply Float × Client
cached_pair from to (some v) source c = (ok (v, source), c)
cached_pair from to none source c =
    if c.connected then ask_pair from to (next_call c) else (err tt, c)

abbrev pub with_rates : String → String → Reply (Dict Float) × Client → Reply Float × Client
with_rates from to (ok (rates, source), c) =
    cached_pair from to (lookup (rate_key from to) rates) source c
with_rates from to (err e, c) = (err e, c)

unfoldable pub get_rate_with_source : String → String → Client → Reply Float × Client
unfolding get_all_rates next_call
get_rate_with_source from to c = with_rates from to (get_all_rates c)

-- GetRate is GetRateWithSource without the source and without the check of the sign; with no
-- connection it answers 0.
abbrev pub unchecked : Option Float → Client → Result Unit Float × Client
unchecked none c = (err tt, c)
unchecked (some r) c = (ok r, c)

abbrev pub ask_unchecked : String → String → Exchanger × Client → Result Unit Float × Client
ask_unchecked from to (e, c) = unchecked (e.one_rate from to) c

abbrev pub cached_rate : String → String → Option Float → Client → Result Unit Float × Client
cached_rate from to (some v) c = (ok v, c)
cached_rate from to none c =
    if c.connected then ask_unchecked from to (next_call c) else (ok (pos 0), c)

abbrev pub with_all : String → String → Reply (Dict Float) × Client → Result Unit Float × Client
with_all from to (ok (rates, _), c) = cached_rate from to (lookup (rate_key from to) rates) c
with_all from to (err e, c) = (err e, c)

unfoldable pub get_rate : String → String → Client → Result Unit Float × Client
unfolding get_all_rates next_call
get_rate from to c = with_all from to (get_all_rates c)
