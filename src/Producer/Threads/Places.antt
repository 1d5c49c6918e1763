-- ===== src/Producer/Threads/Places.antt =====
-- pv-producer/internal/kafka/producer.go: where a write leaves its messages.
use wallet_service.Base.{
  ℕ, zero, suc, ◌+◌, ◌*◌, ◌≡◌, Bool, true, false, Option, none, some, List, [], ◌∷◌, ◌++◌, arith,
  ◌≤◌,
}
use wallet_service.Producer.Broker.{
  State, Message, Write, launch, write_now, next_write, split_by, put_front, arrival, times,
  repeats, written, report, reported, pop, WriteOutcome, succeeded, failed,
}
use wallet_service.Producer.Kafka.{
  Writer, write_taken, flush_by, flush_if, dispatch_by, send_message, is_full,
}

-- How much a measure of messages finds in a list, such as how often one message is there.
abbrev pub weigh : (Message → ℕ) → List Message → ℕ
weigh f [] = 0
weigh f (m ∷ ms) = f m + weigh f ms

abbrev pub weigh_all : (Message → ℕ) → List (List Message) → ℕ
weigh_all f [] = 0
weigh_all f (ms ∷ rest) = weigh f ms + weigh_all f rest

abbrev pub weigh_option : (Message → ℕ) → Option Message → ℕ
weigh_option f none = 0
weigh_option f (some m) = f m

-- In the batch, in a write that has begun, in the topic, or missing after a failed write.
unfoldable pub total : (Message → ℕ) → State → ℕ
total f s = weigh f s.batch + weigh_all f s.in_flight + weigh f s.topic + weigh f s.missing

module _ (f : Message → ℕ) where
  pub weigh-append : (xs ys : List Message) → weigh f (xs ++ ys) ≡ weigh f xs + weigh f ys
  weigh-append [] ys = omega arith
  weigh-append (x ∷ xs) ys = omega (arith, weigh-append xs ys)

  weigh_all-append :
      (xs ys : List (List Message)) → weigh_all f (xs ++ ys) ≡ weigh_all f xs + weigh_all f ys
  weigh_all-append [] ys = omega arith
  weigh_all-append (x ∷ xs) ys = omega (arith, weigh_all-append xs ys)

  weigh-put_front :
      (b : Bool) (m : Message) (p : List Message × List Message)
      → weigh f (put_front b m p).0 + weigh f (put_front b m p).1
        ≡ f m + (weigh f p.0 + weigh f p.1)
  weigh-put_front true m p = omega arith
  weigh-put_front false m p = omega arith

  weigh-split_by :
      (marks : List Bool) (ms : List Message)
      → weigh f (split_by marks ms).0 + weigh f (split_by marks ms).1 ≡ weigh f ms
  weigh-split_by marks [] = omega arith
  weigh-split_by [] (m ∷ ms) = omega arith
  weigh-split_by (b ∷ marks) (m ∷ ms) =
      omega (arith, weigh-put_front b m (split_by marks ms), weigh-split_by marks ms)

  weigh-arrival :
      (w : WriteOutcome) (ms : List Message)
      → weigh f (arrival w ms).0 + weigh f (arrival w ms).1 ≡ weigh f ms
  weigh-arrival succeeded ms = omega arith
  weigh-arrival (failed marks) ms = weigh-split_by marks ms

  -- From one state to another with so much more in all places, nothing missing found again, and no copies
  -- but of what has come to the topic, nine of each at most.
  abbrev pub Moved : State → ℕ → State → Type 0
  Moved s n s' =
      (total f s' ≡ total f s + n)
      × (weigh f s.missing ≤ weigh f s'.missing)
      × (weigh f s'.repeated + 9 * weigh f s.topic ≤ weigh f s.repeated + 9 * weigh f s'.topic)

  report-Moved : (b : Bool) (latency : ℕ) (s : State) → Moved s 0 (report b latency s).1
  unfolding total
  report-Moved true latency s = omega arith
  report-Moved false latency s = omega arith

  weigh-times : (left n : ℕ) (m : Message) → weigh f (times left n m) ≤ left * f m
  weigh-times zero n m = omega arith
  weigh-times (suc left) zero m = omega arith
  weigh-times (suc left) (suc n) m = omega (arith, weigh-times left n m)

  weigh-repeats : (ns : List ℕ) (ms : List Message) → weigh f (repeats ns ms) ≤ 9 * weigh f ms
  weigh-repeats ns [] = omega arith
  weigh-repeats [] (m ∷ ms) = omega arith
  weigh-repeats (n ∷ ns) (m ∷ ms) =
      omega
        (arith, weigh-append (times 9 n m) (repeats ns ms), weigh-times 9 n m, weigh-repeats ns ms)

  written-Moved :
      (again : List ℕ) (p : List Message × List Message) (s : State)
      → Moved s (weigh f p.0 + weigh f p.1) (written again p s)
  unfolding total
  written-Moved again p s = omega (
    arith,
    weigh-append s.topic p.0,
    weigh-append s.repeated (repeats again p.0),
    weigh-repeats again p.0,
    weigh-append s.missing p.1,
  )

  pop-Moved : (ws : List Write) (s : State) → Moved s 0 (pop ws s).1
  unfolding total
  pop-Moved [] s = omega arith
  pop-Moved (w ∷ ws) s = omega arith

  -- A writer brings what it is given to some place, and nothing else.
  abbrev pub Carries : Writer → Type 0
  Carries write = (ms : List Message) (s : State) → Moved s (weigh f ms) (write ms s).1

  pub launch-Carries : Carries launch
  unfolding total launch
  launch-Carries ms s = omega (arith, weigh_all-append s.in_flight (ms ∷ []))

  pub write_now-Carries : Carries write_now
  unfolding write_now
  write_now-Carries ms s =
      let w = (next_write s).0 in
      let s1 = (next_write s).1 in
      let p = arrival w.outcome ms in
      omega (
        arith,
        report-Moved (reported s1.writer_async w.outcome) w.latency (written w.again p s1),
        written-Moved w.again p s1,
        weigh-arrival w.outcome ms,
        pop-Moved s.writes s,
      )

  write_taken-Moved :
      (write : Writer)
      → Carries write
      → (ms : List Message) (s : State) → Moved s (weigh f ms) (write_taken write (ms, s)).1
  write_taken-Moved write carries [] s = omega arith
  write_taken-Moved write carries (m ∷ ms) s = carries (m ∷ ms) s

  total-take : (s : State) → total f (record s { batch = [] }) + weigh f s.batch ≡ total f s
  unfolding total
  total-take s = omega arith

  total-add :
      (m : Message) (s : State) → total f (record s { batch = s.batch ++ m ∷ [] }) ≡ total f s + f m
  unfolding total
  total-add m s = omega (arith, weigh-append s.batch (m ∷ []))

  module _ (write : Writer) (carries : Carries write) where
    pub flush_by-Moved : (s : State) → Moved s 0 (flush_by write s).1
    unfolding flush_by
    flush_by-Moved s =
        omega
          (arith, write_taken-Moved write carries s.batch (record s { batch = [] }), total-take s)

    flush_if-Moved : (full : Bool) (s : State) → Moved s 0 (flush_if full write s).1
    unfolding flush_by
    flush_if-Moved true s = flush_by-Moved s
    flush_if-Moved false s = omega arith

    -- What a Send adds is the message that it makes.
    dispatch_by-Moved :
        (late : Bool) (m : Message) (s : State) → Moved s (f m) (dispatch_by write late m s).1
    unfolding dispatch_by
    dispatch_by-Moved late m s =
        let s1 : State = record s { batch = s.batch ++ m ∷ [] } in
        ground (
          arith,
          carries (m ∷ []) s,
          launch-Carries (m ∷ []) s,
          flush_if-Moved (is_full s1) s1,
          total-add m s,
        )

    pub send_message-Moved :
        (late : Bool) (o : Option Message) (s : State)
        → Moved s (weigh_option f o) (send_message write late o s).1
    unfolding total dispatch_by
    send_message-Moved late none s = omega arith
    send_message-Moved late (some m) s = dispatch_by-Moved late m s
