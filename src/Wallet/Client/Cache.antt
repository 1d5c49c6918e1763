-- ===== src/Wallet/Client/Cache.antt =====
-- The cache of gw-currency-wallet/internal/grpcclient/exchanger_client.go.
use wallet_service.Base.{
  ℕ, ◌-◌, ◌<◌, ◌≡◌, ◌∙◌, if◌then◌else◌, refl, ap, Bool, true, false, Option, none, some, List, [],
  ◌∷◌, arith, ltb,
}
use wallet_service.Base.Result.{ok}
use wallet_service.Base.Dict.{Dict}
use wallet_service.Wallet.Money.{Float}
use wallet_service.Wallet.Client.{
  Client, Reply, advance, is_fresh_at, fetched, fetch, locked_look, read_clock, next_call, is_fresh,
  locked_part, get_all_rates,
}

young :
    (c : Client) (o : Option ℕ) (at : ℕ)
    → o ≡ some at
    → (read_clock c).now - at < c.cache_ttl
    → is_fresh_at o c ≡ (true, read_clock c)
young c none at e h = cc
young c (some at') at e h =
    let same : at' ≡ at = ground arith in
    let test : ltb ((read_clock c).now - at') c.cache_ttl ≡ true = rw same (ground arith) in rw test

is_fresh_young :
    (c : Client) (at : ℕ)
    → c.cache_at ≡ some at
    → (read_clock c).now - at < c.cache_ttl
    → is_fresh c ≡ (true, read_clock c)
unfolding is_fresh
is_fresh_young c at e h = young c c.cache_at at e h

advance_keeps :
    (ds : List ℕ) (c : Client)
    → ((advance ds c).cache_rates ≡ c.cache_rates)
      × ((advance ds c).calls ≡ c.calls)
      × ((advance ds c).cache_ttl ≡ c.cache_ttl)
advance_keeps [] c = (refl, refl, refl)
advance_keeps (d ∷ ds) c = (refl, refl, refl)

-- Rates that are younger than the TTL are answered from the cache, with no call of the exchanger.
get_all_rates_hit :
    (c : Client) (at : ℕ)
    → c.cache_at ≡ some at
    → (read_clock c).now - at < c.cache_ttl
    → ((get_all_rates c).0 ≡ ok (c.cache_rates, "cache"))
      × ((get_all_rates c).1.calls ≡ c.calls)
      × ((get_all_rates c).1.cache_rates ≡ c.cache_rates)
unfolding get_all_rates read_clock
get_all_rates_hit c at e h =
    let (kept, calls, _) = advance_keeps c.delays c in
    rw (is_fresh_young c at e h, get_all_rates)
      (ap (λ (m : Dict Float). ok (m, "cache")) kept, calls, kept)

abbrev Filled : Dict Float → Reply (Dict Float) × Client → Type 0
Filled m (r, c) = (r ≡ ok (m, "grpc")) × (c.cache_rates ≡ m) × (c.cache_at ≡ some c.now)

fetched-Filled :
    (m : Dict Float) (o : Option (Dict Float)) (c : Client) → o ≡ some m → Filled m (fetched o c)
fetched-Filled m none c e = cc
fetched-Filled m (some m') c e =
    let same : m' ≡ m = ap (λ (o : Option (Dict Float)). elim o [ none ↦ [] | some x ↦ x ]) e in
    (ap (λ (x : Dict Float). ok (x, "grpc")) same, same, refl)

-- A stale client asks the exchanger once, and from then on holds its answer.
locked_look-Filled :
    (m : Dict Float) (q : Bool × Client)
    → q.0 ≡ false
    → q.1.connected ≡ true
    → (next_call q.1).0.all_rates ≡ some m
    → Filled m (locked_look q)
locked_look-Filled m (true, c) stale live answers = cc
locked_look-Filled m (false, c) stale live answers = asked c.connected live
  where
    asked :
        (b : Bool) → b ≡ true → Filled m (if b then fetch (next_call c) else (ok ([], "grpc"), c))
    asked true e = fetched-Filled m (next_call c).0.all_rates (next_call c).1 answers
    asked false e = cc

connected-is_fresh : (c : Client) → (is_fresh c).1.connected ≡ c.connected
unfolding is_fresh read_clock
connected-is_fresh c = ground arith

-- Two callers found the cache stale, and wait for the lock. The first asks the exchanger; the second,
-- if it comes within the TTL, looks again and is answered the same rates with no call.
waiting_callers_share :
    (c : Client) (m : Dict Float)
    → c.connected ≡ true
    → (is_fresh c).0 ≡ false
    → (next_call (is_fresh c).1).0.all_rates ≡ some m
    → (read_clock (locked_part c).1).now - (locked_part c).1.now < (locked_part c).1.cache_ttl
    → ((locked_part c).0 ≡ ok (m, "grpc"))
      × ((locked_part (locked_part c).1).0 ≡ ok (m, "cache"))
      × ((locked_part (locked_part c).1).1.calls ≡ (locked_part c).1.calls)
unfolding locked_part read_clock
waiting_callers_share c m live stale answers soon =
    let (asked, cache, at) =
      locked_look-Filled m (is_fresh c) stale (connected-is_fresh c ∙ live) answers in
    let c' = (locked_part c).1 in
    let (kept, calls, _) = advance_keeps c'.delays c' in
    (
      asked,
      ap (λ (q : Bool × Client). (locked_look q).0) (is_fresh_young c' c'.now at soon)
          ∙ ap (λ (x : Dict Float). ok (x, "cache")) (kept ∙ cache),
      ap (λ (q : Bool × Client). (locked_look q).1.calls) (is_fresh_young c' c'.now at soon)
          ∙ calls,
    )
