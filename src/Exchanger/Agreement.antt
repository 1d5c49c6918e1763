-- ===== src/Exchanger/Agreement.antt =====
-- The two calls of gw-exchanger/internal/grpc/handler.go, side by side.
use wallet_service.Base.{
  String, ◌≡◌, refl, sym, ap, ◌∙◌, Bool, true, false, ◌&&◌, ◌=ₛ◌, Option, none, some, [], ◌∷◌, All,
  arith, if◌then◌else◌,
}
use wallet_service.Base.Result.{ok, err}
use wallet_service.Base.Dict.{Dict, lookup, insert, lookup-insert}
use wallet_service.Sql.{Conn, run_sql}
use wallet_service.Wallet.Money.{Float}
use wallet_service.Exchanger.{
  RateRow, Rates, find_rate, key_of, gather, all_rates, rate_of, ExchangeRateResponse,
  get_exchange_rates, get_exchange_rate_for_currency, grpc_not_found,
}

module _ (from to : String) where
  abbrev pub is_pair : RateRow → Bool
  is_pair r = r.from_currency =ₛ from && r.to_currency =ₛ to

  -- A row's key is the pair's key for the pair's own row alone.
  abbrev pub HasOwnKey : RateRow → Type 0
  HasOwnKey r = (key_of r.from_currency r.to_currency =ₛ key_of from to) ≡ is_pair r

  -- The pair has one row at most.
  abbrev pub IsSingle : Rates → Type 0
  IsSingle [] = Unit
  IsSingle (r ∷ rs) = (is_pair r ≡ true → find_rate from to rs ≡ none) × IsSingle rs

  -- What the pair has after the loop: its row's rate, or what the map had.
  abbrev or_before : Option Float → Option Float → Option Float
  or_before none before = before
  or_before (some r) before = some r

  lookup-gather :
      (rs : Rates) (out : Dict Float)
      → All HasOwnKey rs
      → IsSingle rs
      → lookup (key_of from to) (gather rs out)
        ≡ or_before (find_rate from to rs) (lookup (key_of from to) out)
  unfolding gather find_rate
  lookup-gather [] out own single = refl
  lookup-gather (r ∷ rs) out (own, owns) (once, single) =
      let key = key_of r.from_currency r.to_currency in
      let before = lookup (key_of from to) out in
      lookup-gather rs (insert key r.rate out) owns single
      ∙ ap (or_before (find_rate from to rs)) (lookup-insert key (key_of from to) r.rate out)
      ∙ ap (λ b. or_before (find_rate from to rs) (if b then some r.rate else before)) own
      ∙ last_wins (is_pair r) (find_rate from to rs) r.rate before once
    where
      last_wins :
          (b : Bool) (o : Option Float) (v : Float) (before : Option Float)
          → (b ≡ true → o ≡ none)
          → or_before o (if b then some v else before) ≡ or_before (if b then some v else o) before
      last_wins true o v before h = ap (λ o. or_before o (some v)) (h refl)
      last_wins false o v before h = refl

  gathered_ok :
      (c : Conn Rates) (rates : Dict Float)
      → (get_exchange_rates c).0 ≡ ok rates
      → rates ≡ gather c.tables []
  unfolding get_exchange_rates all_rates run_sql
  gathered_ok c rates h = ground arith

  pair_ok :
      (c : Conn Rates) (x : ExchangeRateResponse)
      → (get_exchange_rate_for_currency from to c).0 ≡ ok x
      → find_rate from to c.tables ≡ some x.rate
  unfolding get_exchange_rate_for_currency rate_of run_sql
  pair_ok c x h = ground arith

  pair_missing :
      (c : Conn Rates)
      → (get_exchange_rate_for_currency from to c).0 ≡ err grpc_not_found
      → find_rate from to c.tables ≡ none
  unfolding get_exchange_rate_for_currency rate_of run_sql
  pair_missing c h = ground arith

module _ (from to : String) (c c' : Conn Rates) (rates : Dict Float)
    (own : All (HasOwnKey from to) c.tables) (single : IsSingle from to c.tables)
    (same : c'.tables ≡ c.tables) (listed : (get_exchange_rates c).0 ≡ ok rates) where
  listed_rate : lookup (key_of from to) rates ≡ or_before from to (find_rate from to c'.tables) none
  unfolding lookup
  listed_rate =
      ap (lookup (key_of from to)) (gathered_ok from to c rates listed)
      ∙ lookup-gather from to c.tables [] own single
      ∙ ap (λ t. or_before from to (find_rate from to t) none) (sym same)

  -- Over one state of the table: the rate that GetExchangeRateForCurrency returns for a pair is what
  -- GetExchangeRates lists under "FROM_TO". The conditions: the pair has one row at most (the primary
  -- key), and no other pair of the table has its key.
  pub rate_is_listed :
      (x : ExchangeRateResponse)
      → (get_exchange_rate_for_currency from to c').0 ≡ ok x
      → lookup (key_of from to) rates ≡ some x.rate
  rate_is_listed x e = listed_rate ∙ ap (λ o. or_before from to o none) (pair_ok from to c' x e)

  -- Over one state of the table: where GetExchangeRateForCurrency says NotFound, GetExchangeRates lists
  -- nothing under "FROM_TO". The conditions: the pair has one row at most, and no other pair of the
  -- table has its key.
  missing_is_unlisted :
      (get_exchange_rate_for_currency from to c').0 ≡ err grpc_not_found
      → lookup (key_of from to) rates ≡ none
  missing_is_unlisted e =
      listed_rate ∙ ap (λ o. or_before from to o none) (pair_missing from to c' e)
