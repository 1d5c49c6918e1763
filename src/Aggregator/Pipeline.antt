-- ===== src/Aggregator/Pipeline.antt =====
-- pv-aggregator/internal/kafka/consumer.go with the inserts of internal/clickhouse/repo.go: the
-- state that the goroutines share, and the operations on it. When the context is done, and what
-- becomes of each round trip to ClickHouse and Kafka, are inputs.
pub mod Writes
pub mod Success
pub mod Counts
use wallet_service.Base.{
  ℕ, zero, suc, ◌+◌, String, Bool, true, false, length, Option, none, some, List, [], ◌∷◌, ◌++◌,
  map, if◌then◌else◌,
}
use wallet_service.Base.Result.{Result, ok, err}
use wallet_service.Sql.{Delivery, answered, refused, lost}
use wallet_service.Aggregator.Event.{
  Message, PageViewEvent, PageViewRow, ValidationError, Ip, convert_event_to_row,
  parse_and_validate,
}
use wallet_service.Aggregator.Buffer.{
  BufferedMessage, Buffer, add, get_and_clear, put_back, take_signal,
}
use wallet_service.Aggregator.Dlq.{Producer, Letter, send}

pub record Metrics : Type 0 where
  pub consumed : ℕ
  pub inserted_raw : ℕ
  pub dlq_count : ℕ
  pub ch_errors : ℕ
  pub last_flush : ℕ

pub record ErrorRow : Type 0 where
  pub raw_message : String
  pub reason : ValidationError
  pub kafka_offset : ℕ
  pub kafka_partition : ℕ

-- The buffer and the counters; the rows that have been inserted into the two tables (ClickHouse takes
-- old ones out again by the TTLs of init/clickhouse-init.sql), the dead letters and the messages
-- committed, the newest first; the clock; whether the context is done at each coming look at it (not, past the
-- end); and what becomes of the coming round trips (answered, past the end).
pub record State : Type 0 where
  pub buffer : Buffer
  pub metrics : Metrics
  pub page_views_raw : List PageViewRow
  pub processing_errors : List ErrorRow
  pub letters : List Letter
  pub committed : List Message
  pub clock : ℕ
  pub done : List Bool
  pub faults : List Delivery

abbrev pub pop_done : List Bool → State → Bool × State
pop_done [] s = (false, s)
pop_done (d ∷ ds) s = (d, record s { done = ds })

unfoldable pub look_at_context : State → Bool × State
look_at_context s = pop_done s.done s

abbrev pub pop : List Delivery → State → Delivery × State
pop [] s = (answered, s)
pop (d ∷ ds) s = (d, record s { faults = ds })

unfoldable pub next_delivery : State → Delivery × State
next_delivery s = pop s.faults s

-- A round trip that changes the state by `f` when it reaches the server, and whether it is
-- reported to have done so.
abbrev pub deliver : Delivery × State → (State → State) → Bool × State
deliver (answered, s) f = (true, f s)
deliver (refused, s) f = (false, s)
deliver (lost, s) f = (false, f s)

-- InsertRawBatch: the rows reach the server together, with Send.
unfoldable pub insert_raw_batch : List PageViewRow → State → Bool × State
unfolding next_delivery
insert_raw_batch rows s =
    deliver (next_delivery s) (λ s'. record s' { page_views_raw = rows ++ s'.page_views_raw })

abbrev pub error_row : Message → ValidationError → ErrorRow
error_row m e = record {
  raw_message = m.value;
  reason = e;
  kafka_offset = m.offset;
  kafka_partition = m.partition;
}

unfoldable pub insert_error : Message → ValidationError → State → Bool × State
unfolding next_delivery
insert_error m e s =
    deliver (next_delivery s)
      (λ s'. record s' { processing_errors = error_row m e ∷ s'.processing_errors })

abbrev pub send_with : Producer → Message → Delivery × State → Bool × State
unfolding send
send_with p m (d, s) =
    let (sent, letters) = send p d m "" s.letters in (sent, record s { letters = letters })

-- A producer that is off makes no round trip.
unfoldable pub send_letter : Producer → Message → State → Bool × State
unfolding send_with next_delivery
send_letter p m s = send_with p m (if p.enabled then next_delivery s else (answered, s))

unfoldable pub commit_messages : List Message → State → Bool × State
unfolding next_delivery
commit_messages ms s =
    deliver (next_delivery s) (λ s'. record s' { committed = ms ++ s'.committed })

abbrev pub record_consumed : State → State
record_consumed s = record s { metrics = record s.metrics { consumed = suc s.metrics.consumed } }

abbrev pub record_dlq : State → State
record_dlq s = record s { metrics = record s.metrics { dlq_count = suc s.metrics.dlq_count } }

abbrev pub record_ch_error : State → State
record_ch_error s = record s { metrics = record s.metrics { ch_errors = suc s.metrics.ch_errors } }

abbrev pub record_flush : State → State
record_flush s = record s { metrics = record s.metrics { last_flush = s.clock } }

abbrev pub record_inserted : ℕ → State → State
record_inserted n s = record s {
  metrics = record s.metrics { inserted_raw = s.metrics.inserted_raw + n };
}

-- Both must succeed, and then the letter is counted.
abbrev pub after_send : (State → Bool × State) → Bool × State → Bool × State
after_send insert (false, s) = (false, s)
after_send insert (true, s) = insert s

abbrev pub count_letter : Bool × State → Bool × State
count_letter (false, s) = (false, s)
count_letter (true, s) = (true, record_dlq s)

unfoldable pub handle_error : Producer → Message → ValidationError → State → Bool × State
unfolding send_letter insert_error
handle_error p m e s = count_letter (after_send (insert_error m e) (send_letter p m s))

-- The retry loops: a failure is tried again after a wait, which the end of the context cuts off.
-- The last attempt is not waited for.
abbrev pub pause : ℕ → State → Bool × State
unfolding look_at_context
pause zero s = (true, s)
pause (suc left) s = look_at_context s

abbrev pub after_pause : (State → Bool × State) → Bool × State → Bool × State
after_pause rest (true, s) = (false, s)
after_pause rest (false, s) = rest s

abbrev pub after_try : ℕ → (State → Bool × State) → Bool × State → Bool × State
unfolding pause
after_try left rest (true, s) = (true, s)
after_try left rest (false, s) = after_pause rest (pause left s)

unfoldable pub retry : (State → Bool × State) → ℕ → State → Bool × State
unfolding after_try
retry f zero s = (false, s)
retry f (suc left) s = after_try left (retry f left) (f s)

unfoldable pub handle_error_with_retry : Producer → Message → ValidationError → State → Bool × State
unfolding retry handle_error
handle_error_with_retry p m e = retry (handle_error p m e) 10

unfoldable pub insert_with_retry : List PageViewRow → State → Bool × State
unfolding retry insert_raw_batch
insert_with_retry rows = retry (insert_raw_batch rows) 5
