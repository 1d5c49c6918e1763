-- ===== src/Exchanger.antt =====
-- gw-exchanger: the rates in Postgres (internal/storage/postgres/rates_repo.go), the service over them
-- (internal/service), and the gRPC handler (internal/grpc/handler.go).
pub mod Agreement
mod Tests
use Prim.Native.String.{◌++◌}
use wallet_service.Base.{
  String, Bool, true, false, ◌&&◌, ◌=ₛ◌, Option, none, some, List, [], ◌∷◌, if◌then◌else◌,
}
use wallet_service.Base.Result.{Result, ok, err}
use wallet_service.Base.Dict.{Dict, insert}
use wallet_service.Sql.{Sql, row, no_rows, failed, Conn, run_sql}
use wallet_service.Wallet.Money.{Float}

-- A row of currency_rates, whose primary key is the pair.
pub record RateRow : Type 0 where
  pub from_currency : String
  pub to_currency : String
  pub rate : Float

abbrev pub Rates : Type 0
Rates = List RateRow

unfoldable pub find_rate : String → String → Rates → Option Float
find_rate from to [] = none
find_rate from to (r ∷ rs) =
    if r.from_currency =ₛ from && r.to_currency =ₛ to then some r.rate else find_rate from to rs

abbrev pub key_of : String → String → String
key_of from to = from ++ "_" ++ to

-- The loop of AllRates, `out[from+"_"+to] = rate` for each row.
unfoldable pub gather : Rates → Dict Float → Dict Float
unfolding insert
gather [] out = out
gather (r ∷ rs) out = gather rs (insert (key_of r.from_currency r.to_currency) r.rate out)

-- An error of the driver; a row that does not scan ends the loop with one.
abbrev pub gathered : Sql Rates × Conn Rates → Result Unit (Dict Float) × Conn Rates
unfolding gather
gathered (row rs, c) = (ok (gather rs []), c)
gathered (no_rows, c) = (ok [], c)
gathered (failed _, c) = (err tt, c)

unfoldable pub all_rates : Conn Rates → Result Unit (Dict Float) × Conn Rates
unfolding run_sql gathered
all_rates c = gathered (run_sql (λ t. (row t, t)) c)

abbrev pub select_rate : String → String → Rates → Sql Float
unfolding find_rate
select_rate from to t = elim (find_rate from to t) [ none ↦ no_rows | some r ↦ row r ]

-- `(rate, true, nil)`, `(0, false, nil)`, or an error.
abbrev pub found : Sql Float × Conn Rates → Result Unit (Option Float) × Conn Rates
found (row r, c) = (ok (some r), c)
found (no_rows, c) = (ok none, c)
found (failed _, c) = (err tt, c)

unfoldable pub rate_of : String → String → Conn Rates → Result Unit (Option Float) × Conn Rates
unfolding run_sql select_rate
rate_of from to c = found (run_sql (λ t. (select_rate from to t, t)) c)

-- The codes of gRPC that the handler uses.
pub data GrpcError : Type 0 where
  grpc_internal grpc_not_found : GrpcError

pub record ExchangeRateResponse : Type 0 where
  pub from_currency : String
  pub to_currency : String
  pub rate : Float

abbrev pub rates_reply :
    Result Unit (Dict Float) × Conn Rates → Result GrpcError (Dict Float) × Conn Rates
rates_reply (ok rates, c) = (ok rates, c)
rates_reply (err e, c) = (err grpc_internal, c)

unfoldable pub get_exchange_rates : Conn Rates → Result GrpcError (Dict Float) × Conn Rates
unfolding all_rates
get_exchange_rates c = rates_reply (all_rates c)

abbrev pub rate_reply :
    String
    → String
    → Result Unit (Option Float) × Conn Rates
    → Result GrpcError ExchangeRateResponse × Conn Rates
rate_reply from to (ok (some r), c) =
    (ok (record { from_currency = from; to_currency = to; rate = r }), c)
rate_reply from to (ok none, c) = (err grpc_not_found, c)
rate_reply from to (err e, c) = (err grpc_internal, c)

unfoldable pub get_exchange_rate_for_currency :
    String → String → Conn Rates → Result GrpcError ExchangeRateResponse × Conn Rates
unfolding rate_of
get_exchange_rate_for_currency from to c = rate_reply from to (rate_of from to c)
