-- ===== src/Exchanger/Tests.antt =====
-- Runs of the exchanger, and the theorems at them.
use wallet_service.Base.{◌≡◌, refl, some, [], ◌∷◌, arith}
use wallet_service.Base.Int.{pos}
use wallet_service.Base.Dict.{Dict, lookup, insert}
use wallet_service.Sql.{Conn, run_sql}
use wallet_service.Wallet.Money.{Float}
use wallet_service.Exchanger.{
  Rates, key_of, gather, find_rate, get_exchange_rates, get_exchange_rate_for_currency,
}
use wallet_service.Exchanger.Agreement.{rate_is_listed}

abbrev conn : Conn Rates
conn = record {
  tables =
      record { from_currency = "USD"; to_currency = "EUR"; rate = pos 92 }
      ∷ record { from_currency = "EUR"; to_currency = "USD"; rate = pos 108 }
      ∷ [];
  faults = [];
}

abbrev rates : Dict Float
rates = ("USD_EUR", pos 92) ∷ ("EUR_USD", pos 108) ∷ []

rate_is_listed_example : lookup (key_of "USD" "EUR") rates ≡ some (pos 92)
unfolding get_exchange_rates get_exchange_rate_for_currency run_sql find_rate gather insert
rate_is_listed_example =
    rate_is_listed "USD" "EUR" conn conn rates (refl, (refl, tt))
      ((λ h. refl), ((λ h. ground arith), tt)) refl refl
      (record { from_currency = "USD"; to_currency = "EUR"; rate = pos 92 }) refl
