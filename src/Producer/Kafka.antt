-- ===== src/Producer/Kafka.antt =====
-- The methods of Producer in pv-producer/internal/kafka/producer.go. The draws of math/rand are inputs.
pub mod Settings
pub mod Flushes
use Prim.Native.String.{◌++◌ as ◌++ₛ◌}
use wallet_service.Base.{
  ℕ, zero, suc, ◌+◌, ◌-◌, ◌*◌, ◌%◌, ◌^◌, String, Bool, true, false, not, ◌&&◌, ◌||◌, ltb, leb, ◌=ₛ◌,
  Option, none, some, List, [], ◌∷◌, ◌++◌, length, if◌then◌else◌,
}
use wallet_service.Base.Int.{ℤ, pos, negsuc, leb_ℤ}
use wallet_service.Config.Producer.{Config, kafka_broker_list}
use wallet_service.Producer.Event.{PageViewEvent, Payload, corrupt, to_json}
use wallet_service.Producer.Metrics.{Metrics, new_metrics, record_sent, record_failed}
use wallet_service.Producer.Broker.{
  Message, Outcome, State, Write, WriteOutcome, arrival, failed, launch, milliseconds, next_write,
  of_residue, panicked, pop, put_front, report, reported, residue, returned, scaled, split_by,
  succeeded, write_now, write_with, written,
}

-- The key of a message; `draw` is what rand.Intn answers.
abbrev pub repeat : ℕ → String
repeat zero = String.[]
repeat (suc n) = "x" ++ₛ repeat n

unfoldable pub get_partition_key : String → ℕ → PageViewEvent → String
get_partition_key strategy draw ev =
    if strategy =ₛ "key"
    then ev.page_id
    else (if strategy =ₛ "rr"
        then ""
        else (if strategy =ₛ "random" then repeat (draw % 10) else ev.page_id))

unfoldable pub payload_of : PageViewEvent → Bool → Option Payload
unfolding to_json
payload_of ev corrupted = if corrupted then some corrupt else to_json ev

abbrev pub with_payload : String → String → Option Payload → Option Message
with_payload key id none = none
with_payload key id (some value) = some (record { key = key; value = value; event_id = id })

-- The message of an event; none, if json.Marshal fails.
unfoldable pub message_of : String → PageViewEvent → Bool → ℕ → Option Message
unfolding get_partition_key payload_of
message_of strategy ev corrupted draw =
    with_payload (get_partition_key strategy draw ev) ev.event_id (payload_of ev corrupted)

unfoldable pub take_batch : State → List Message × State
take_batch s = (s.batch, record s { batch = [] })

-- How messages are written: at once, or by a goroutine that other steps come between.
abbrev pub Writer : Type 0
Writer = List Message → State → Bool × State

abbrev pub write_taken : Writer → List Message × State → Bool × State
write_taken write ([], s) = (true, s)
write_taken write (m ∷ ms, s) = write (m ∷ ms) s

unfoldable pub flush_by : Writer → State → Bool × State
unfolding take_batch
flush_by write s = write_taken write (take_batch s)

unfoldable pub send_sync_by : Writer → Message → State → Bool × State
send_sync_by write m s = write (m ∷ []) s

-- `late`: the goroutine has not written within 100 milliseconds, which counts as success.
unfoldable pub send_async_by : Writer → Bool → Message → State → Bool × State
unfolding launch
send_async_by write late m s = if late then launch (m ∷ []) s else write (m ∷ []) s

abbrev pub is_full : State → Bool
is_full s = leb_ℤ s.batch_size (pos (length s.batch))

abbrev pub flush_if : Bool → Writer → State → Bool × State
unfolding flush_by
flush_if true write s = flush_by write s
flush_if false write s = (true, s)

unfoldable pub send_batch_by : Writer → Message → State → Bool × State
unfolding flush_if
send_batch_by write m s =
    let s1 : State = record s { batch = s.batch ++ m ∷ [] } in flush_if (is_full s1) write s1

unfoldable pub dispatch_by : Writer → Bool → Message → State → Bool × State
unfolding send_sync_by send_async_by send_batch_by
dispatch_by write late m s =
    if s.send_mode =ₛ "sync"
    then send_sync_by write m s
    else (if s.send_mode =ₛ "async"
        then send_async_by write late m s
        else (if s.send_mode =ₛ "batch" then send_batch_by write m s else send_sync_by write m s))

abbrev pub send_message : Writer → Bool → Option Message → State → Bool × State
unfolding dispatch_by
send_message write late none s = (false, record s { metrics = record_failed s.metrics })
send_message write late (some m) s = dispatch_by write late m s

-- What one call of Send is given, and what it draws.
pub record Sending : Type 0 where
  pub event : PageViewEvent
  pub corrupted : Bool
  pub key_draw : ℕ
  pub late : Bool

unfoldable pub message_in : Sending → State → Option Message
unfolding message_of
message_in x s = message_of s.partition_strategy x.event x.corrupted x.key_draw

unfoldable pub send_by : Writer → Sending → State → Bool × State
unfolding send_message
send_by write x s = send_message write x.late (message_in x s) s

unfoldable pub send : Sending → State → Bool × State
unfolding send_by write_now
send x s = send_by write_now x s

unfoldable pub flush : State → Bool × State
unfolding flush_by write_now
flush s = flush_by write_now s

-- time.NewTicker panics on an interval that is not positive.
abbrev pub start_flusher : State → Outcome × State
start_flusher s =
    if leb_ℤ s.flush_interval (pos 0)
    then (panicked, s)
    else (returned, record s { has_ticker = true; ticking = true; flush_loops = suc s.flush_loops })

unfoldable pub update_config : String → ℤ → ℤ → String → State → Outcome × State
update_config send_mode batch_size flush_ms strategy s =
    let s1 : State = record s {
      send_mode = send_mode;
      batch_size = batch_size;
      flush_interval = milliseconds flush_ms;
      partition_strategy = strategy;
      ticking = false;
    } in
    if send_mode =ₛ "batch" then start_flusher s1 else (returned, s1)

pub data Created : Type 0 where
  no_brokers : Created
  created : Outcome × State → Created

abbrev pub first_state : Config → State
first_state cfg = record {
  send_mode = cfg.send_mode;
  batch_size = cfg.batch_size;
  flush_interval = milliseconds cfg.flush_interval_ms;
  partition_strategy = cfg.partition_strategy;
  batch = [];
  has_ticker = false;
  ticking = false;
  flush_loops = 0;
  stopped = false;
  writer_async = cfg.send_mode =ₛ "async";
  metrics = new_metrics;
  in_flight = [];
  topic = [];
  repeated = [];
  missing = [];
  writes = [];
}

-- `make` panics on a negative capacity.
abbrev pub with_room : Config → Outcome × State
with_room cfg =
    if leb_ℤ (pos 0) cfg.batch_size
    then (if cfg.send_mode =ₛ "batch"
        then start_flusher (first_state cfg)
        else (returned, first_state cfg))
    else (panicked, first_state cfg)

abbrev pub with_brokers : List String → Config → Created
with_brokers [] cfg = no_brokers
with_brokers (b ∷ bs) cfg = created (with_room cfg)

unfoldable pub new_producer : Config → Created
unfolding kafka_broker_list
new_producer cfg = with_brokers (kafka_broker_list cfg) cfg

-- A goroutine in flushLoop wakes only when the ticker that it waits for is the one that ticks.
unfoldable pub tick_by : Writer → State → Bool × State
unfolding flush_by
tick_by write s = if s.ticking then flush_by write s else (true, s)

abbrev pub stop_flusher : State → Outcome × State
stop_flusher s =
    if s.has_ticker
    then (if s.stopped
        then (panicked, record s { ticking = false })
        else (returned, record s { ticking = false; stopped = true; flush_loops = 0 }))
    else (returned, s)

abbrev pub flush_last : Outcome × State → Outcome × State
unfolding flush
flush_last (panicked, s) = (panicked, s)
flush_last (returned, s) = (returned, (flush s).1)

-- The final flush, whose error is dropped. The writer then waits for its own writes.
unfoldable pub close : State → Outcome × State
unfolding flush_last
close s = flush_last (stop_flusher s)
