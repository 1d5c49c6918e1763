-- ===== src/Wallet/Publisher/Retries.antt =====
-- The writes of Publish, gw-currency-wallet/internal/kafka/publisher.go.
use wallet_service.Base.{
  ℕ, zero, suc, ◌+◌, ◌≤◌, String, ◌≡◌, refl, sym, ap, ◌∙◌, ◌⊎◌, inl, inr, Bool, true, false, some,
  List, [], ◌∷◌, ◌++◌, arith, if◌then◌else◌,
}
use wallet_service.Base.Int.{ltb_ℤ}
use wallet_service.Wallet.Money.{Float}
use wallet_service.Wallet.Publisher.{
  LargeTransactionEvent, Publisher, Write, acknowledged, unacknowledged, copies, Pause, Broker,
  take_write, write_message, take_pause, pause, backoff, before, after_write, after_pause, attempts,
  event_of, publish,
}

copies-sum :
    (k n : ℕ) (ev : LargeTransactionEvent) (l : List LargeTransactionEvent)
    → (l ++ copies k ev) ++ copies n ev ≡ l ++ copies (k + n) ev
copies-sum zero n ev [] = ap (λ j. copies j ev) (omega arith)
copies-sum (suc k) n ev [] =
    let sum : suc (k + n) ≡ suc k + n = omega arith in
    ap (λ r. ev ∷ r) (copies-sum k n ev []) ∙ ap (λ j. copies j ev) sum
copies-sum k n ev (x ∷ l) = ap (λ r. x ∷ r) (copies-sum k n ev l)

copies-none : (ev : LargeTransactionEvent) (l : List LargeTransactionEvent) → l ≡ l ++ copies 0 ev
copies-none ev [] = refl
copies-none ev (x ∷ l) = ap (λ r. x ∷ r) (copies-none ev l)

-- How many copies a call brings, and how many the first calls bring together.
abbrev pub copies_in : Write → ℕ
copies_in (acknowledged n) = suc n
copies_in (unacknowledged n) = n

abbrev pub brought : ℕ → List Write → ℕ
brought zero ws = 0
brought (suc n) [] = suc (brought n [])
brought (suc n) (w ∷ ws) = copies_in w + brought n ws

module _ (ev : LargeTransactionEvent) where
  -- From the first broker to the second the topic got copies of the event, at most those of the next `n`
  -- calls; a success is at least one.
  pub record Wrote (n : ℕ) (b : Broker) (q : Bool × Broker) : Type 0 where
    pub count : ℕ
    pub at_most : count ≤ brought n b.writes
    pub at_least : q.0 ≡ true → 1 ≤ count
    pub grown : q.1.events ≡ b.events ++ copies count ev

  nothing : (b : Broker) (n : ℕ) → Wrote n b (false, b)
  nothing b n = record {
    count = 0;
    at_most = omega arith;
    at_least = λ h. ground arith;
    grown = copies-none ev b.events;
  }

  -- A pause leaves the topic and the coming calls.
  before_keeps :
      (p : Publisher) (n : ℕ) (b : Broker)
      → ((before p n b).1.events ≡ b.events) × ((before p n b).1.writes ≡ b.writes)
  unfolding before pause
  before_keeps p zero b = (refl, refl)
  before_keeps p (suc n) b = paused b.pauses
    where
      paused :
          (ps : List Pause)
          → ((take_pause ps (backoff p n) b).1.events ≡ b.events)
            × ((take_pause ps (backoff p n) b).1.writes ≡ b.writes)
      paused [] = (refl, refl)
      paused (x ∷ xs) = (refl, refl)

  -- One call brings its copies, one or more if it succeeds, and the others are still to come.
  record Arrived (ws : List Write) (b : Broker) (q : Bool × Broker) : Type 0 where
    pub count : ℕ
    pub paid : (n : ℕ) → brought (suc n) ws ≡ count + brought n q.1.writes
    pub at_least : q.0 ≡ true → 1 ≤ count
    pub grown : q.1.events ≡ b.events ++ copies count ev

  take_write-Arrived :
      (ws : List Write) (b : Broker) → b.writes ≡ ws → Arrived ws b (take_write ws ev b)
  take_write-Arrived [] b e = record {
    count = 1;
    paid = λ n. rw e (omega arith);
    at_least = λ h. omega arith;
    grown = refl;
  }
  take_write-Arrived (acknowledged k ∷ ws) b e = record {
    count = suc k;
    paid = λ n. refl;
    at_least = λ h. omega arith;
    grown = refl;
  }
  take_write-Arrived (unacknowledged k ∷ ws) b e = record {
    count = k;
    paid = λ n. refl;
    at_least = λ h. ground arith;
    grown = refl;
  }

  write_message-Arrived : (b : Broker) → Arrived b.writes b (write_message ev b)
  unfolding write_message
  write_message-Arrived b = take_write-Arrived b.writes b refl

  after_write-Wrote :
      (n : ℕ) (b : Broker) (rest : Broker → Bool × Broker) (q : Bool × Broker)
      → ((b : Broker) → Wrote n b (rest b))
      → Arrived b.writes b q
      → Wrote (suc n) b (after_write rest q)
  after_write-Wrote n b rest (true, b') w one = record {
    count = one.count;
    at_most = omega (arith, one.paid n);
    at_least = one.at_least;
    grown = one.grown;
  }
  after_write-Wrote n b rest (false, b') w one =
      let more = w b' in
      record {
        count = one.count + more.count;
        at_most = omega (arith, one.paid n, more.at_most);
        at_least = λ h. omega (arith, more.at_least h);
        grown =
            more.grown
            ∙ ap (λ l. l ++ copies more.count ev) one.grown
            ∙ copies-sum one.count more.count ev b.events;
      }

  after_pause-Wrote :
      (n : ℕ) (b : Broker) (rest : Broker → Bool × Broker) (q : Bool × Broker)
      → ((b : Broker) → Wrote n b (rest b))
      → q.1.events ≡ b.events
      → q.1.writes ≡ b.writes
      → Wrote (suc n) b (after_pause ev rest q)
  unfolding after_pause
  after_pause-Wrote n b rest (false, b') w same_events same_writes = record {
    count = 0;
    at_most = omega arith;
    at_least = λ h. ground arith;
    grown = same_events ∙ copies-none ev b.events;
  }
  after_pause-Wrote n b rest (true, b') w same_events same_writes =
      let done = after_write-Wrote n b' rest (write_message ev b') w (write_message-Arrived b') in
      record {
        count = done.count;
        at_most = rw (sym same_writes) done.at_most;
        at_least = done.at_least;
        grown = done.grown ∙ ap (λ l. l ++ copies done.count ev) same_events;
      }

  attempts-Wrote :
      (p : Publisher) (attempt left : ℕ) (b : Broker) → Wrote left b (attempts p ev attempt left b)
  unfolding attempts
  attempts-Wrote p attempt zero b = nothing b 0
  attempts-Wrote p attempt (suc left) b =
      after_pause-Wrote left b (attempts p ev (suc attempt) left) (before p attempt b)
        (attempts-Wrote p (suc attempt) left) (before_keeps p attempt b).0
        (before_keeps p attempt b).1

-- One call of Publish leaves the topic as it was, but for copies of its one event behind it: none
-- when the amount is below the threshold, and at most those that the next calls of WriteMessages bring, as
-- many calls as there are retries, of which each may bring several. The copies differ in nothing: one
-- transaction id is drawn for all attempts.
pub publish-copies :
    (p : Publisher) (user : ℕ) (kind currency : String) (amount : Float) (b : Broker)
    → (n : ℕ) × (n ≤ brought p.retries b.writes)
      × ((n ≡ 0) ⊎ (ltb_ℤ amount p.threshold ≡ false))
      × ((publish (some p) user kind currency amount b).events
          ≡ b.events ++ copies n (event_of user kind currency amount b))
unfolding publish
publish-copies p user kind currency amount b = branch (ltb_ℤ amount p.threshold) refl
  where
    ev : LargeTransactionEvent
    ev = event_of user kind currency amount b

    tried : Bool × Broker
    tried = attempts p ev 0 p.retries (record b { drawn = suc b.drawn })

    branch :
        (below : Bool)
        → ltb_ℤ amount p.threshold ≡ below
        → (n : ℕ) × (n ≤ brought p.retries b.writes)
          × ((n ≡ 0) ⊎ (ltb_ℤ amount p.threshold ≡ false))
          × ((if below then b else tried.1).events ≡ b.events ++ copies n ev)
    branch true e = (0, omega arith, inl refl, copies-none ev b.events)
    branch false e =
        let done = attempts-Wrote ev p 0 p.retries (record b { drawn = suc b.drawn }) in
        (done.count, done.at_most, inr e, done.grown)
