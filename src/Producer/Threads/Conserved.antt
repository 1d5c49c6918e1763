-- ===== src/Producer/Threads/Conserved.antt =====
-- pv-producer/internal/kafka/producer.go: where the messages are while all threads take turns.
use wallet_service.Base.{
  ℕ, zero, suc, ◌+◌, ◌*◌, ◌≤◌, ◌≡◌, ◌∙◌, refl, Bool, false, Option, none, some, List, [], ◌∷◌, ◌++◌,
  arith, ap, String,
}
use wallet_service.Base.Int.{ℤ}
use wallet_service.Producer.Broker.{
  State, Message, Outcome, returned, panicked, launch, write_now, Write, failed, split_by,
  max_repeats,
}
use wallet_service.Producer.Kafka.{
  send_by, tick_by, update_config, close, flush, stop_flusher, flush_last, message_in,
}
use wallet_service.Producer.Kafka.Flushes.{flush-failed}
use wallet_service.Producer.Threads.{
  Turn, sends, ticks, ends, sets, closes, pick, put_back, write_picked, end_write, turn, schedule,
}
use wallet_service.Producer.Threads.Places.{
  weigh, weigh_all, weigh_option, weigh-append, total, Moved, launch-Carries, write_now-Carries,
  flush_by-Moved, send_message-Moved,
}

-- The message that a turn hands to the producer, and those of a schedule.
abbrev pub option_list : Option Message → List Message
option_list none = []
option_list (some m) = m ∷ []

unfoldable pub made : Turn → State → List Message
made (sends x) s = option_list (message_in x s)
made ticks s = []
made (ends n) s = []
made (sets _ _ _ _) s = []
made closes s = []

unfoldable pub handed : List Turn → State → List Message
unfolding made turn
handed [] s = []
handed (t ∷ ts) s = made t s ++ handed ts (turn t s)

module _ (f : Message → ℕ) where
  abbrev weigh_picked : Option (List Message × List (List Message)) → ℕ
  weigh_picked none = 0
  weigh_picked (some (ms, rest)) = weigh f ms + weigh_all f rest

  -- A pick takes one write out and leaves the others.
  abbrev Splits : List (List Message) → Option (List Message × List (List Message)) → Type 0
  Splits all none = Unit
  Splits all (some (ms, rest)) = weigh_all f all ≡ weigh f ms + weigh_all f rest

  put_back-Splits :
      (ms : List Message) (all : List (List Message))
      (r : Option (List Message × List (List Message)))
      → Splits all r
      → Splits (ms ∷ all) (put_back ms r)
  put_back-Splits ms all none h = tt
  put_back-Splits ms all (some (found, rest)) h = omega arith

  pick-Splits : (n : ℕ) (all : List (List Message)) → Splits all (pick n all)
  unfolding pick
  pick-Splits zero [] = tt
  pick-Splits (suc n) [] = tt
  pick-Splits zero (ms ∷ all) = refl
  pick-Splits (suc n) (ms ∷ all) = put_back-Splits ms all (pick n all) (pick-Splits n all)

  total-in_flight :
      (s : State) (ms : List Message) (rest : List (List Message))
      → weigh_all f s.in_flight ≡ weigh f ms + weigh_all f rest
      → total f (record s { in_flight = rest }) + weigh f ms ≡ total f s
  unfolding total
  total-in_flight s ms rest h = omega arith

  write_picked-Moved :
      (s : State) (r : Option (List Message × List (List Message)))
      → Splits s.in_flight r
      → Moved f s 0 (write_picked r s)
  unfolding end_write
  write_picked-Moved s none h = omega arith
  write_picked-Moved s (some (ms, rest)) h =
      omega
        (arith, write_now-Carries f ms (record s { in_flight = rest }), total-in_flight s ms rest h)

  option-weigh : (o : Option Message) → weigh_option f o ≡ weigh f (option_list o)
  option-weigh none = refl
  option-weigh (some m) = omega arith

  update_config-Moved :
      (send_mode : String) (batch_size flush_ms : ℤ) (strategy : String) (s : State)
      → Moved f s 0 (update_config send_mode batch_size flush_ms strategy s).1
  unfolding update_config total
  update_config-Moved send_mode batch_size flush_ms strategy s = ground arith

  flush_last-Moved : (r : Outcome × State) → Moved f r.1 0 (flush_last r).1
  unfolding close
  flush_last-Moved (panicked, s) = omega arith
  flush_last-Moved (returned, s) = flush_by-Moved f write_now (write_now-Carries f) s

  stop_flusher-Moved : (s : State) → Moved f s 0 (stop_flusher s).1
  unfolding total
  stop_flusher-Moved s = ground arith

  tick_by-Moved : (s : State) → Moved f s 0 (tick_by launch s).1
  unfolding tick_by
  tick_by-Moved s = ground (arith, flush_by-Moved f launch (launch-Carries f) s)

  turn-Moved : (t : Turn) (s : State) → Moved f s (weigh f (made t s)) (turn t s)
  unfolding turn made send_by
  turn-Moved (sends x) s = omega (
    arith,
    send_message-Moved f launch (launch-Carries f) x.late (message_in x s) s,
    option-weigh (message_in x s),
  )
  turn-Moved ticks s = omega (arith, tick_by-Moved s)
  turn-Moved (ends n) s =
      omega (arith, write_picked-Moved s (pick n s.in_flight) (pick-Splits n s.in_flight))
  turn-Moved (sets m b i k) s = omega (arith, update_config-Moved m b i k s)
  turn-Moved closes s = omega (arith, flush_last-Moved (stop_flusher s), stop_flusher-Moved s)

  pub schedule-Moved :
      (ts : List Turn) (s : State) → Moved f s (weigh f (handed ts s)) (schedule ts s)
  unfolding schedule handed
  schedule-Moved [] s = omega arith
  schedule-Moved (t ∷ ts) s = omega (
    arith,
    schedule-Moved ts (turn t s),
    turn-Moved t s,
    weigh-append f (made t s) (handed ts (turn t s)),
  )

  -- Whatever order the sends, flushes, ends of writes, updates and the shutdown come in, and whatever
  -- becomes of the writes, a message handed to the producer is once in the batch, in a write that has begun,
  -- among what has come to the topic, or among what a failed write did not bring there; nothing is
  -- there twice or out of nothing. The copies that the writer brings again within its calls are of messages
  -- that have come to the topic, at most nine of each. (Any measure of messages finds in the places what it
  -- found before, and what it finds in the messages handed over.)
  pub schedule-conserved :
      (ts : List Turn) (s : State)
      → (total f (schedule ts s) ≡ total f s + weigh f (handed ts s))
        × (weigh f (schedule ts s).repeated + max_repeats * weigh f s.topic
            ≤ weigh f s.repeated + max_repeats * weigh f (schedule ts s).topic)
  schedule-conserved ts s = let (all, _, again) = schedule-Moved ts s in (all, again)

  -- After a failed flush of a producer whose writer tells of failures, what the write has not brought to the
  -- topic never reaches it, whatever threads do and however well later writes go: the producer has dropped
  -- it. This is for messages of the batch that the failed write has not brought, that were nowhere else
  -- (neither in a write that has begun nor in the topic, at first or again), and that are not handed over
  -- again.
  pub failed_flush_is_final :
      (s : State) (m : Message) (ms : List Message) (latency : ℕ) (marks : List Bool)
      (again : List ℕ) (more : List Write) (ts : List Turn)
      → s.batch ≡ m ∷ ms
      → s.writer_async ≡ false
      → s.writes ≡ record { outcome = failed marks; latency = latency; again = again } ∷ more
      → weigh f (split_by marks s.batch).0 ≡ 0
      → weigh_all f s.in_flight ≡ 0
      → weigh f s.topic ≡ 0
      → weigh f s.repeated ≡ 0
      → weigh f (handed ts (flush s).1) ≡ 0
      → (weigh f (schedule ts (flush s).1).topic ≡ 0)
        × (weigh f (schedule ts (flush s).1).repeated ≡ 0)
  unfolding total flush
  failed_flush_is_final s m ms latency marks again more ts waiting waits failing not_brought idle
        absent no_copies not_again =
      let (_, no_batch, same_flight, topic, lost) =
        flush-failed s m ms latency marks again more waiting waits failing in
      let s1 : State = (flush s).1 in
      let later = schedule-Moved ts s1 in
      let here = flush_by-Moved f write_now (write_now-Carries f) s in
      let brought : weigh f s1.topic ≡ 0 =
        ap (weigh f) topic ∙ omega (arith, weigh-append f s.topic (split_by marks s.batch).0) in
      let gone : weigh f (schedule ts s1).topic ≡ 0 =
        omega (arith, later, ap (weigh f) no_batch, ap (weigh_all f) same_flight, brought) in
      (gone, omega (arith, later, here, gone))
