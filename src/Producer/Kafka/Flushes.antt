-- ===== src/Producer/Kafka/Flushes.antt =====
-- The batch of pv-producer/internal/kafka/producer.go: how large it gets, and what a failed flush leaves.
use wallet_service.Base.{
  ℕ, ◌≡◌, refl, ◌⊎◌, inl, inr, Bool, true, false, some, List, [], ◌∷◌, ◌++◌, arith, length,
}
use wallet_service.Base.Int.{pos, ◌<ℤ◌, leb_ℤ→<ℤ}
use wallet_service.Producer.Broker.{State, Message, Write, failed, split_by, write_now}
use wallet_service.Producer.Kafka.{
  Sending, write_taken, flush, flush_if, is_full, send_batch_by, send_by, send, message_in,
}

-- What no write does.
pub write_now-batch : (ms : List Message) (s : State) → (write_now ms s).1.batch ≡ s.batch
unfolding write_now
write_now-batch ms s = ground arith

pub flush-batch : (s : State) → (flush s).1.batch ≡ []
unfolding flush
flush-batch s = from_batch s.batch
  where
    from_batch :
        (ms : List Message) → (write_taken write_now (ms, record s { batch = [] })).1.batch ≡ []
    from_batch [] = refl
    from_batch (m ∷ ms) = write_now-batch (m ∷ ms) (record s { batch = [] })

-- Fewer messages wait than make a batch, or none.
abbrev pub IsBounded : State → Type 0
IsBounded s = (s.batch ≡ []) ⊎ (pos (length s.batch) <ℤ s.batch_size)

flush_if-IsBounded :
    (s : State) (full : Bool) → is_full s ≡ full → IsBounded (flush_if full write_now s).1
unfolding flush_if flush
flush_if-IsBounded s true e = inl (flush-batch s)
flush_if-IsBounded s false e = inr (leb_ℤ→<ℤ s.batch_size (pos (length s.batch)) e)

send-batch :
    (x : Sending) (s : State) (m : Message)
    → s.send_mode ≡ "batch"
    → message_in x s ≡ some m
    → send x s ≡ send_batch_by write_now m s
unfolding send send_by
send-batch x s m batching message = simp (message, batching)

-- After a Send in the batch mode no full batch waits: there are fewer messages than batchSize, or none,
-- whatever became of the writes and however many waited before.
pub send-IsBounded :
    (x : Sending) (s : State) (m : Message)
    → s.send_mode ≡ "batch"
    → message_in x s ≡ some m
    → IsBounded (send x s).1
unfolding send_batch_by
send-IsBounded x s m batching message =
    let s1 : State = record s { batch = s.batch ++ m ∷ [] } in
    rw (send-batch x s m batching message) (flush_if-IsBounded s1 (is_full s1) refl)

-- A flush whose write fails empties the batch all the same and answers with the error: the messages that the
-- write has not brought to the topic are in no place that a later flush would take them from.
pub flush-failed :
    (s : State) (m : Message) (ms : List Message) (latency : ℕ) (marks : List Bool) (again : List ℕ)
    (more : List Write)
    → s.batch ≡ m ∷ ms
    → s.writer_async ≡ false
    → s.writes ≡ record { outcome = failed marks; latency = latency; again = again } ∷ more
    → ((flush s).0 ≡ false)
      × ((flush s).1.batch ≡ [])
      × ((flush s).1.in_flight ≡ s.in_flight)
      × ((flush s).1.topic ≡ s.topic ++ (split_by marks s.batch).0)
      × ((flush s).1.missing ≡ s.missing ++ (split_by marks s.batch).1)
unfolding flush write_now
flush-failed s m ms latency marks again more waiting waits failing = rw waiting (ground arith)
