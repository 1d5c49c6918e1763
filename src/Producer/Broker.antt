-- ===== src/Producer/Broker.antt =====
-- The state of the Producer of pv-producer/internal/kafka/producer.go, and its writes. What becomes of each
-- write to Kafka, and how long it takes, are inputs.
use wallet_service.Base.{
  ℕ, zero, suc, ◌-◌, ◌*◌, ◌%◌, ◌^◌, String, Bool, true, false, ltb, List, [], ◌∷◌, ◌++◌,
  if◌then◌else◌,
}
use wallet_service.Base.Int.{ℤ, pos, negsuc}
use wallet_service.Producer.Event.{Payload}
use wallet_service.Producer.Metrics.{Metrics, record_sent, record_failed}

-- `event_id` is the one header.
pub record Message : Type 0 where
  pub key : String
  pub value : Payload
  pub event_id : String

-- A write that fails may have brought some of its messages to the topic: those that are marked.
pub data WriteOutcome : Type 0 where
  succeeded : WriteOutcome
  failed : List Bool → WriteOutcome

-- The writer of kafka-go tries up to 10 times within a call, also when only an acknowledgement was lost: a
-- message that came to the topic may come again. `again`: how often, for each that came.
pub record Write : Type 0 where
  pub outcome : WriteOutcome
  pub latency : ℕ
  pub again : List ℕ

-- The fields of Producer. A time is in nanoseconds. `has_ticker`: flushTicker is not nil; `ticking`: it has
-- not been stopped; `flush_loops`: the goroutines that run flushLoop; `stopped`: stopFlush is closed;
-- `writer_async`: the writer was made to answer before it writes. Around it: the writes that another
-- goroutine has begun; what has come to the topic, each message where it came first, and the copies that
-- the writer has brought of them again; the messages that failed writes have not brought there; and the
-- coming writes (successful at once, past the end).
pub record State : Type 0 where
  pub send_mode : String
  pub batch_size : ℤ
  pub flush_interval : ℤ
  pub partition_strategy : String
  pub batch : List Message
  pub has_ticker : Bool
  pub ticking : Bool
  pub flush_loops : ℕ
  pub stopped : Bool
  pub writer_async : Bool
  pub metrics : Metrics
  pub in_flight : List (List Message)
  pub topic : List Message
  pub repeated : List Message
  pub missing : List Message
  pub writes : List Write

pub data Outcome : Type 0 where
  returned panicked : Outcome

-- int64 wraps around.
abbrev pub residue : ℤ → ℕ
residue (pos n) = n % 2 ^ 64
residue (negsuc n) = 2 ^ 64 - 1 - n % 2 ^ 64

abbrev pub of_residue : ℕ → ℤ
of_residue r = if ltb r (2 ^ 63) then pos r else negsuc (2 ^ 64 - 1 - r)

abbrev pub scaled : ℤ → ℕ → ℤ
scaled (pos n) k = pos (n * k)
scaled (negsuc n) k = negsuc (suc n * k - 1)

-- `time.Duration(ms) * time.Millisecond`
unfoldable pub milliseconds : ℤ → ℤ
milliseconds ms = of_residue (residue (scaled ms 1000000))

abbrev pub pop : List Write → State → Write × State
pop [] s = (record { outcome = succeeded; latency = 0; again = [] }, s)
pop (w ∷ ws) s = (w, record s { writes = ws })

unfoldable pub next_write : State → Write × State
next_write s = pop s.writes s

abbrev pub put_front : {A : Type 0} → Bool → A → List A × List A → List A × List A
put_front true m (arrived, rest) = (m ∷ arrived, rest)
put_front false m (arrived, rest) = (arrived, m ∷ rest)

-- The messages that are marked, and the others.
abbrev pub split_by : List Bool → List Message → List Message × List Message
split_by marks [] = ([], [])
split_by [] (m ∷ ms) = ([], m ∷ ms)
split_by (b ∷ marks) (m ∷ ms) = put_front b m (split_by marks ms)

abbrev pub report : Bool → ℕ → State → Bool × State
report true latency s = (true, record s { metrics = record_sent latency s.metrics })
report false latency s = (false, record s { metrics = record_failed s.metrics })

-- One attempt of ten brings a message; the others may bring it again.
abbrev pub max_repeats : ℕ
max_repeats = 9

abbrev pub times : ℕ → ℕ → Message → List Message
times zero n m = []
times (suc left) zero m = []
times (suc left) (suc n) m = m ∷ times left n m

abbrev pub repeats : List ℕ → List Message → List Message
repeats ns [] = []
repeats [] (m ∷ ms) = []
repeats (n ∷ ns) (m ∷ ms) = times max_repeats n m ++ repeats ns ms

abbrev pub written : List ℕ → List Message × List Message → State → State
written again (arrived, rest) s = record s {
  topic = s.topic ++ arrived;
  repeated = s.repeated ++ repeats again arrived;
  missing = s.missing ++ rest;
}

abbrev pub arrival : WriteOutcome → List Message → List Message × List Message
arrival succeeded ms = (ms, [])
arrival (failed marks) ms = split_by marks ms

-- A writer that answers before it writes tells of no failure.
abbrev pub reported : Bool → WriteOutcome → Bool
reported async succeeded = true
reported async (failed _) = async

abbrev pub write_with : List Message → Write × State → Bool × State
write_with ms (w, s) =
    report (reported s.writer_async w.outcome) w.latency (written w.again (arrival w.outcome ms) s)

-- WriteMessages, and what is recorded of it.
unfoldable pub write_now : List Message → State → Bool × State
unfolding next_write record_sent
write_now ms s = write_with ms (next_write s)

-- A write that another goroutine does, later.
unfoldable pub launch : List Message → State → Bool × State
launch ms s = (true, record s { in_flight = s.in_flight ++ ms ∷ [] })
