-- ===== src/Wallet/Client/Refreshes.antt =====
-- How often GetAllRates of gw-currency-wallet/internal/grpcclient/exchanger_client.go asks the exchanger,
-- whatever callers it has.
use wallet_service.Base.{
  ℕ, suc, ◌+◌, ◌*◌, ◌≤◌, ◌≡◌, ◌∙◌, sym, refl, ap, Bool, true, false, Option, none, some, List, [],
  ◌∷◌, arith, if◌then◌else◌,
}
use wallet_service.Base.Result.{ok}
use wallet_service.Base.Dict.{Dict}
use wallet_service.Wallet.Money.{Float}
use wallet_service.Wallet.Client.{
  Exchanger, Client, advance, read_clock, is_fresh_at, is_fresh, next_call, pop_call, fetched,
  fetch, locked_look, locked_part,
}

-- A caller of GetAllRates looks at the cache under the read lock, and if it is stale goes on to the part
-- under the write lock. Steps of several callers come in any order.
pub data Step : Type 0 where
  look locked : Step

unfoldable pub step : Step → Client → Client
unfolding is_fresh locked_part
step look c = (is_fresh c).1
step locked c = (locked_part c).1

unfoldable pub steps : List Step → Client → Client
unfolding step
steps [] c = c
steps (x ∷ xs) c = steps xs (step x c)

abbrev pub counted : Option (Dict Float) → ℕ → ℕ
counted none n = n
counted (some rates) n = suc n

-- How many of the coming calls the exchanger answers with rates.
unfoldable pub answers : List Exchanger → ℕ
answers [] = 0
answers (e ∷ es) = counted e.all_rates (answers es)

-- When the cache is due for a refresh, of the time of the last one, the clock and the TTL: a TTL after it,
-- or now.
abbrev pub due_at : Option ℕ → ℕ → ℕ → ℕ
due_at none now ttl = now
due_at (some at) now ttl = at + ttl

abbrev pub due : Client → ℕ
due c = due_at c.cache_at c.now c.cache_ttl

abbrev pub IsPast : Option ℕ → ℕ → Type 0
IsPast none now = Unit
IsPast (some at) now = at ≤ now

-- From the first client to the second, every refresh is paid for with a TTL.
record Paid (c c' : Client) : Type 0 where
  pub ttl : c'.cache_ttl ≡ c.cache_ttl
  pub time : c.now ≤ c'.now
  pub dated : IsPast c'.cache_at c'.now
  pub paid : answers c.calls * c.cache_ttl + due c ≤ answers c'.calls * c'.cache_ttl + due c'

due_grows : (o : Option ℕ) (n n' ttl : ℕ) → n ≤ n' → due_at o n ttl ≤ due_at o n' ttl
due_grows none n n' ttl h = h
due_grows (some at) n n' ttl h = omega arith

IsPast-grows : (o : Option ℕ) (n n' : ℕ) → n ≤ n' → IsPast o n → IsPast o n'
IsPast-grows none n n' h d = tt
IsPast-grows (some at) n n' h d = omega arith

-- A client that differs in its clock and its calls only, and has as many answers to come.
later :
    (c : Client) (n : ℕ) (ds : List ℕ)
    → c.now ≤ n
    → IsPast c.cache_at c.now
    → Paid c (record c { now = n; delays = ds })
later c n ds h d = record {
  ttl = refl;
  time = h;
  dated = IsPast-grows c.cache_at c.now n h d;
  paid = omega (arith, due_grows c.cache_at c.now n c.cache_ttl h);
}

advance-Paid : (ds : List ℕ) (c : Client) → IsPast c.cache_at c.now → Paid c (advance ds c)
advance-Paid [] c d = later c c.now c.delays (omega arith) d
advance-Paid (x ∷ ds) c d = later c (c.now + x) ds (omega arith) d

Paid-trans : (c1 c2 c3 : Client) → Paid c1 c2 → Paid c2 c3 → Paid c1 c3
Paid-trans c1 c2 c3 p q = record {
  ttl = q.ttl ∙ p.ttl;
  time = omega (arith, p.time, q.time);
  dated = q.dated;
  paid = omega (arith, p.paid, q.paid);
}

is_fresh_at-Paid :
    (o : Option ℕ) (c : Client) → IsPast c.cache_at c.now → Paid c (is_fresh_at o c).1
unfolding read_clock
is_fresh_at-Paid none c d = later c c.now c.delays (omega arith) d
is_fresh_at-Paid (some at) c d = advance-Paid c.delays c d

advance_keeps :
    (ds : List ℕ) (c : Client)
    → ((advance ds c).cache_at ≡ c.cache_at) × ((advance ds c).cache_ttl ≡ c.cache_ttl)
advance_keeps [] c = (refl, refl)
advance_keeps (d ∷ ds) c = (refl, refl)

-- A cache that is not fresh is due.
stale_is_due :
    (o : Option ℕ) (c : Client)
    → o ≡ c.cache_at
    → IsPast o c.now
    → IsPast c.cache_at c.now
    → (is_fresh_at o c).0 ≡ false
    → due (is_fresh_at o c).1 ≤ (is_fresh_at o c).1.now
unfolding read_clock
stale_is_due none c e d d' h = rw (sym e) (omega arith)
stale_is_due (some at) c e d d' h =
    let (kept, ttl) = advance_keeps c.delays c in
    let more = advance-Paid c.delays c d' in rw (kept ∙ sym e, ttl) (ground (arith, more.time))

module _ (c : Client) (rates : Dict Float) (es : List Exchanger) (d : IsPast c.cache_at c.now)
    (h : due c ≤ c.now) (e : answers c.calls ≡ suc (answers es)) where
  refreshed :
      (n : ℕ) (ds : List ℕ)
      → c.now ≤ n
      → Paid c
          (record c { cache_rates = rates; cache_at = some n; now = n; delays = ds; calls = es })
  refreshed n ds p = record { ttl = refl; time = p; dated = omega arith; paid = rw e (omega arith) }

  refreshed_after :
      (ds : List ℕ)
      → (let c' = advance ds (record c { calls = es }) in
          Paid c (record c' { cache_rates = rates; cache_at = some c'.now }))
  refreshed_after [] = refreshed c.now c.delays (omega arith)
  refreshed_after (x ∷ ds) = refreshed (c.now + x) ds (omega arith)

fetched-Paid :
    (o : Option (Dict Float)) (es : List Exchanger) (c : Client)
    → IsPast c.cache_at c.now
    → due c ≤ c.now
    → answers c.calls ≡ counted o (answers es)
    → Paid c (fetched o (record c { calls = es })).1
unfolding read_clock
fetched-Paid none es c d h e = record {
  ttl = refl;
  time = omega arith;
  dated = d;
  paid = rw e (omega arith);
}
fetched-Paid (some rates) es c d h e = refreshed_after c rates es d h e c.delays

asked-Paid :
    (es : List Exchanger) (c : Client)
    → es ≡ c.calls
    → IsPast c.cache_at c.now
    → due c ≤ c.now
    → Paid c (fetch (pop_call es c)).1
unfolding answers
asked-Paid [] c e d h = later c c.now c.delays (omega arith) d
asked-Paid (x ∷ es) c e d h = fetched-Paid x.all_rates es c d h (ap answers (sym e))

locked_look-Paid :
    (q : Bool × Client)
    → IsPast q.1.cache_at q.1.now
    → (q.0 ≡ false → due q.1 ≤ q.1.now)
    → Paid q.1 (locked_look q).1
unfolding next_call
locked_look-Paid (true, c) d h = later c c.now c.delays (omega arith) d
locked_look-Paid (false, c) d h = branch c.connected
  where
    branch : (b : Bool) → Paid c (if b then fetch (next_call c) else (ok ([], "grpc"), c)).1
    branch true = asked-Paid c.calls c refl d (h refl)
    branch false = later c c.now c.delays (omega arith) d

step-Paid : (x : Step) (c : Client) → IsPast c.cache_at c.now → Paid c (step x c)
unfolding step is_fresh locked_part
step-Paid look c d = is_fresh_at-Paid c.cache_at c d
step-Paid locked c d =
    let looked = is_fresh_at-Paid c.cache_at c d in
    Paid-trans c (is_fresh c).1 (locked_part c).1 looked
      (locked_look-Paid (is_fresh c) looked.dated (stale_is_due c.cache_at c refl d d))

steps-Paid : (xs : List Step) (c : Client) → IsPast c.cache_at c.now → Paid c (steps xs c)
unfolding steps
steps-Paid [] c d = later c c.now c.delays (omega arith) d
steps-Paid (x ∷ xs) c d =
    let one = step-Paid x c d in
    Paid-trans c (step x c) (steps (x ∷ xs) c) one (steps-Paid xs (step x c) one.dated)

due_soon : (o : Option ℕ) (n ttl : ℕ) → IsPast o n → due_at o n ttl ≤ n + ttl
due_soon none n ttl d = omega arith
due_soon (some at) n ttl d = omega arith

same_ttl : {a t t' : ℕ} (n k : ℕ) → t' ≡ t → a ≤ n * t' + k + t' → a ≤ n * t + k + t
same_ttl n k e h = rw (sym e) h

-- However many callers of GetAllRates there are, and however their two looks at the cache fall between
-- each other's: the exchanger's rates are fetched at most once in every TTL. All fetches of the steps
-- but one take a TTL each of the time that passes from when the cache is due, and the TTL stays. The
-- calls that the exchanger fails are not counted: they are tried again at once.
pub fetches-IsPaced :
    (xs : List Step) (c : Client)
    → IsPast c.cache_at c.now
    → ((steps xs c).cache_ttl ≡ c.cache_ttl)
      × (answers c.calls * c.cache_ttl + due c
          ≤ answers (steps xs c).calls * c.cache_ttl + (steps xs c).now + c.cache_ttl)
fetches-IsPaced xs c d =
    let all = steps-Paid xs c d in
    let c' = steps xs c in
    let paid : answers c.calls * c.cache_ttl + due c
        ≤ answers c'.calls * c'.cache_ttl + c'.now + c'.cache_ttl =
      omega (arith, all.paid, due_soon c'.cache_at c'.now c'.cache_ttl all.dated) in
    (all.ttl, same_ttl (answers c'.calls) c'.now all.ttl paid)
