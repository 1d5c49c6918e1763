-- ===== src/Wallet/Client/Signs.antt =====
-- The signs of the rates of gw-currency-wallet/internal/grpcclient/exchanger_client.go.
use wallet_service.Base.{
  ℕ, String, ◌≡◌, refl, Bool, true, false, Option, none, some, List, [], ◌∷◌, arith, All,
  if◌then◌else◌,
}
use wallet_service.Base.Result.{ok, err}
use wallet_service.Base.Dict.{Dict, lookup}
use wallet_service.Base.Int.{pos, ◌≤ℤ◌, leb_ℤ}
use wallet_service.Wallet.Money.{Float}
use wallet_service.Wallet.Client.{
  Exchanger, Client, Reply, advance, pop_call, next_call, is_fresh_at, fetched, fetch, locked_look,
  first_look, checked, ask_pair, cached_pair, with_rates, rate_key, read_clock, is_fresh,
  locked_part, get_all_rates, get_rate_with_source,
}

abbrev pub NoneNegative : Dict Float → Type 0
NoneNegative = All (λ p. pos 0 ≤ℤ p.1)

-- The answers of GetExchangeRates. (That of GetExchangeRateForCurrency is checked by the client.)
abbrev pub Answers : Option (Dict Float) → Type 0
Answers none = Unit
Answers (some m) = NoneNegative m

pub record HasSoundRates (c : Client) : Type 0 where
  pub cached : NoneNegative c.cache_rates
  pub coming : All (λ e. Answers e.all_rates) c.calls

pub lookup_nonneg :
    (k : String) (m : Dict Float) (v : Float) → NoneNegative m → lookup k m ≡ some v → pos 0 ≤ℤ v
unfolding lookup
lookup_nonneg k [] v h e = cc
lookup_nonneg k ((j, r) ∷ m) v h e = ground (arith, lookup_nonneg k m v h.1)

-- What a call of the client gives and leaves.
abbrev pub RatesSound : Reply (Dict Float) × Client → Type 0
RatesSound (ok (m, s), c) = NoneNegative m × HasSoundRates c
RatesSound (err e, c) = HasSoundRates c

abbrev pub RateSound : Reply Float × Client → Type 0
RateSound (ok (r, s), c) = (pos 0 ≤ℤ r) × HasSoundRates c
RateSound (err e, c) = HasSoundRates c

advance-Sound : (ds : List ℕ) (c : Client) → HasSoundRates c → HasSoundRates (advance ds c)
advance-Sound [] c h = h
advance-Sound (d ∷ ds) c h = record { cached = h.cached; coming = h.coming }

read_clock-Sound : (c : Client) → HasSoundRates c → HasSoundRates (read_clock c)
unfolding read_clock
read_clock-Sound c h = advance-Sound c.delays c h

is_fresh_at-Sound :
    (at : Option ℕ) (c : Client) → HasSoundRates c → HasSoundRates (is_fresh_at at c).1
is_fresh_at-Sound none c h = h
is_fresh_at-Sound (some at) c h = read_clock-Sound c h

is_fresh-Sound : (c : Client) → HasSoundRates c → HasSoundRates (is_fresh c).1
unfolding is_fresh
is_fresh-Sound c h = is_fresh_at-Sound c.cache_at c h

-- The answer of the next call, and what is left.
pop_call-Sound :
    (es : List Exchanger) (c : Client)
    → NoneNegative c.cache_rates
    → All (λ e. Answers e.all_rates) es
    → es ≡ c.calls
    → Answers (pop_call es c).0.all_rates × HasSoundRates (pop_call es c).1
pop_call-Sound [] c h hs same = (tt, record { cached = h; coming = rw (← same) tt })
pop_call-Sound (e ∷ es) c h hs same = (hs.0, record { cached = h; coming = hs.1 })

next_call-Sound :
    (c : Client)
    → HasSoundRates c
    → Answers (next_call c).0.all_rates × HasSoundRates (next_call c).1
unfolding next_call
next_call-Sound c h = pop_call-Sound c.calls c h.cached h.coming refl

fetched-Sound :
    (o : Option (Dict Float)) (c : Client) → Answers o → HasSoundRates c → RatesSound (fetched o c)
fetched-Sound none c a h = h
fetched-Sound (some m) c a h =
    let h' = read_clock-Sound c h in (a, record { cached = a; coming = h'.coming })

locked_look-Sound : (q : Bool × Client) → HasSoundRates q.1 → RatesSound (locked_look q)
locked_look-Sound (true, c) h = (h.cached, h)
locked_look-Sound (false, c) h = asked c.connected
  where
    asked : (b : Bool) → RatesSound (if b then fetch (next_call c) else (ok ([], "grpc"), c))
    asked true = let (a, h') = next_call-Sound c h in fetched-Sound (next_call c).0.all_rates _ a h'
    asked false = (tt, h)

locked_part-Sound : (c : Client) → HasSoundRates c → RatesSound (locked_part c)
unfolding locked_part
locked_part-Sound c h = locked_look-Sound (is_fresh c) (is_fresh-Sound c h)

first_look-Sound : (q : Bool × Client) → HasSoundRates q.1 → RatesSound (first_look q)
first_look-Sound (true, c) h = (h.cached, h)
first_look-Sound (false, c) h = locked_part-Sound c h

pub get_all_rates-Sound : (c : Client) → HasSoundRates c → RatesSound (get_all_rates c)
unfolding get_all_rates
get_all_rates-Sound c h = first_look-Sound (is_fresh c) (is_fresh-Sound c h)

checked-Sound : (o : Option Float) (c : Client) → HasSoundRates c → RateSound (checked o c)
checked-Sound none c h = h
checked-Sound (some r) c h = tested (leb_ℤ r (pos 0)) refl
  where
    tested : (b : Bool) → leb_ℤ r (pos 0) ≡ b → RateSound (if b then err tt else ok (r, "grpc"), c)
    tested true e = h
    tested false e = (ground arith, h)

cached_pair-Sound :
    (from to : String) (o : Option Float) (s : String) (c : Client)
    → ((v : Float) → o ≡ some v → pos 0 ≤ℤ v)
    → HasSoundRates c
    → RateSound (cached_pair from to o s c)
cached_pair-Sound from to (some v) s c good h = (good v refl, h)
cached_pair-Sound from to none s c good h = asked c.connected
  where
    asked : (b : Bool) → RateSound (if b then ask_pair from to (next_call c) else (err tt, c))
    asked true = checked-Sound ((next_call c).0.one_rate from to) _ (next_call-Sound c h).1
    asked false = h

with_rates-Sound :
    (from to : String) (q : Reply (Dict Float) × Client)
    → RatesSound q
    → RateSound (with_rates from to q)
with_rates-Sound from to (ok (m, s), c) (good, h) =
    cached_pair-Sound from to (lookup (rate_key from to) m) s c
      (λ v e. lookup_nonneg (rate_key from to) m v good e) h
with_rates-Sound from to (err e, c) h = h

-- A rate that the client gives is not negative, and its cache stays so.
pub get_rate_with_source-Sound :
    (from to : String) (c : Client) → HasSoundRates c → RateSound (get_rate_with_source from to c)
unfolding get_rate_with_source
get_rate_with_source-Sound from to c h =
    with_rates-Sound from to (get_all_rates c) (get_all_rates-Sound c h)
