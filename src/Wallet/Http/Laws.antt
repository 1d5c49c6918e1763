-- ===== src/Wallet/Http/Laws.antt =====
-- The parts that handlers are made of: inversions, and rules for invariants.
use wallet_service.Base.{
  ℕ, String, ◌≡◌, refl, ap, sym, Bool, true, false, Option, none, some, arith,
}
use wallet_service.Base.Result.{Result, ok, err}
use wallet_service.Sql.{Conn}
use wallet_service.Wallet.Errors.{Err}
use wallet_service.Wallet.Money.{Float}
use wallet_service.Wallet.Db.{Tables}
use wallet_service.Wallet.Publisher.{Broker}
use wallet_service.Wallet.Http.{
  Response, World, Outcome, go, reply, Handler, pure, answer, ◌>>=◌, reply_if, need, query,
  announce, continue, or_reply,
}

-- Inversion: what each part did when the whole ended with a value.
module _ {A B : Type 0} where
  bind_go-pair :
      (q : Outcome A × World) (f : A → Handler B) {b : B} {w' : World}
      → continue q f ≡ (go b, w')
      → (a : A) × (w1 : World) × (q ≡ (go a, w1)) × (f a w1 ≡ (go b, w'))
  bind_go-pair (go a, w1) f h = (a, w1, refl, h)
  bind_go-pair (reply r, w1) f h = cc (ap (λ (p : Outcome B × World). p.0) h)

  pub bind_go :
      (m : Handler A) (f : A → Handler B) (w : World) {b : B} {w' : World}
      → (m >>= f) w ≡ (go b, w')
      → (a : A) × (w1 : World) × (m w ≡ (go a, w1)) × (f a w1 ≡ (go b, w'))
  unfolding ◌>>=◌
  bind_go m f w h = bind_go-pair (m w) f h

pub reply_if_go :
    (b : Bool) (r : Response) (w : World) {w' : World}
    → reply_if b r w ≡ (go tt, w')
    → (b ≡ false) × (w ≡ w')
reply_if_go false r w h = (refl, ap (λ (p : Outcome Unit × World). p.1) h)
reply_if_go true r w h = cc (ap (λ (p : Outcome Unit × World). p.0) h)

pub need_go :
    {A : Type 0} (o : Option A) (r : Response) (w : World) {a : A} {w' : World}
    → need o r w ≡ (go a, w')
    → (o ≡ some a) × (w ≡ w')
need_go {A} (some a) r w h =
    (ground (arith, ap (λ (p : Outcome A × World). p.0) h), ap (λ (p : Outcome A × World). p.1) h)
need_go {A} none r w h = cc (ap (λ (p : Outcome A × World). p.0) h)

query_go-pair :
    {A : Type 0} (q : Result Err A × Conn Tables) (f : Err → Response) (w : World) {a : A}
    {w' : World}
    → or_reply f w q ≡ (go a, w')
    → (q.0 ≡ ok a) × (w' ≡ record w { conn = q.1 })
query_go-pair {A} (ok a, c) f w h = (
  ground (arith, ap (λ (p : Outcome A × World). p.0) h),
  sym (ap (λ (p : Outcome A × World). p.1) h),
)
query_go-pair {A} (err e, c) f w h = cc (ap (λ (p : Outcome A × World). p.0) h)

pub query_go :
    {A : Type 0} (action : Conn Tables → Result Err A × Conn Tables) (f : Err → Response)
    (w : World) {a : A} {w' : World}
    → query action f w ≡ (go a, w')
    → ((action w.conn).0 ≡ ok a) × (w' ≡ record w { conn = (action w.conn).1 })
unfolding query
query_go action f w h = query_go-pair (action w.conn) f w h

-- `m` keeps `P`, whether it goes on or replies, and what it goes on with has `Q`.
abbrev pub Ensures : {A : Type 0} → (World → Type 0) → (A → Type 0) → Outcome A × World → Type 0
Ensures P Q (go a, w) = P w × Q a
Ensures P Q (reply r, w) = P w

pub record Keeps {A : Type 0} (P : World → Type 0) (Q : A → Type 0) (m : Handler A) : Type 0 where
  pub at : (w : World) → P w → Ensures P Q (m w)

abbrev pub Any : {A : Type 0} → A → Type 0
Any _ = Unit

module _ {A : Type 0} (P : World → Type 0) where
  pub Keeps-pure : (Q : A → Type 0) (a : A) → Q a → Keeps P Q (pure a)
  Keeps-pure Q a q = record { at = λ w h. (h, q) }

  pub Keeps-answer : (Q : A → Type 0) (r : Response) → Keeps P Q (answer r)
  Keeps-answer Q r = record { at = λ w h. h }

  pub Keeps-need : (o : Option A) (r : Response) → Keeps P Any (need o r)
  Keeps-need none r = Keeps-answer Any r
  Keeps-need (some a) r = Keeps-pure Any a tt

module _ (P : World → Type 0) where
  pub Keeps-reply_if : (b : Bool) (r : Response) → Keeps P (λ _. b ≡ false) (reply_if b r)
  Keeps-reply_if false r = record { at = λ w h. (h, refl) }
  Keeps-reply_if true r = record { at = λ w h. h }

module _ {A B : Type 0} (P : World → Type 0) (Q : A → Type 0) (R : B → Type 0) where
  Ensures-continue :
      (q : Outcome A × World) (f : A → Handler B)
      → Ensures P Q q
      → ((a : A) → Q a → Keeps P R (f a))
      → Ensures P R (continue q f)
  Ensures-continue (go a, w) f (h, qa) k = (k a qa).at w h
  Ensures-continue (reply r, w) f h k = h

  pub Keeps-bind :
      (m : Handler A) (f : A → Handler B)
      → Keeps P Q m
      → ((a : A) → Q a → Keeps P R (f a))
      → Keeps P R (m >>= f)
  unfolding ◌>>=◌
  Keeps-bind m f km kf = record { at = λ w h. Ensures-continue (m w) f (km.at w h) kf }

module _ {A : Type 0} (P : World → Type 0) where
  Ensures-or_reply :
      (q : Result Err A × Conn Tables) (f : Err → Response) (w : World)
      → P (record w { conn = q.1 })
      → Ensures P Any (or_reply f w q)
  Ensures-or_reply (ok a, c) f w h = (h, tt)
  Ensures-or_reply (err e, c) f w h = h

  pub Keeps-query :
      (action : Conn Tables → Result Err A × Conn Tables) (f : Err → Response)
      → ((w : World) → P w → P (record w { conn = (action w.conn).1 }))
      → Keeps P Any (query action f)
  unfolding query
  Keeps-query action f keep = record { at = λ w h. Ensures-or_reply (action w.conn) f w (keep w h) }

module _ (P : World → Type 0) where
  pub Keeps-announce :
      (user : ℕ) (kind currency : String) (amount : Float)
      → ((w : World) (b : Broker) → P w → P (record w { broker = b }))
      → Keeps P Any (announce user kind currency amount)
  unfolding announce
  Keeps-announce user kind currency amount keep = record { at = λ w h. (keep w _ h, tt) }

module _ {A : Type 0} (P : World → Type 0) (Q R : A → Type 0) (weaker : (a : A) → Q a → R a) where
  Ensures-mono : (q : Outcome A × World) → Ensures P Q q → Ensures P R q
  Ensures-mono (go a, w) (h, qa) = (h, weaker a qa)
  Ensures-mono (reply r, w) h = h

  pub Keeps-mono : (m : Handler A) → Keeps P Q m → Keeps P R m
  Keeps-mono m k = record { at = λ w h. Ensures-mono (m w) (k.at w h) }
