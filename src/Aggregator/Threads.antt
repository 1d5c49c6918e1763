-- ===== src/Aggregator/Threads.antt =====
-- pv-aggregator/internal/kafka/consumer.go: the two goroutines Run and flushLoop, and Close, as
-- threads that take steps in turn. A thread's step is what it does to the shared state at once: one
-- use of the buffer, one retried write, or one commit.
pub mod Kept
pub mod NoLoss
pub mod Commits
pub mod Overtaking
pub mod Draining
pub mod CommitSafe
pub mod Accounted
use wallet_service.Base.{
  ℕ, suc, String, Bool, true, false, length, Option, none, some, List, [], ◌∷◌, map, if◌then◌else◌,
}
use wallet_service.Base.Result.{Result, ok, err}
use wallet_service.Aggregator.Event.{
  Message, PageViewEvent, PageViewRow, ValidationError, Ip, convert_event_to_row,
  parse_and_validate,
}
use wallet_service.Aggregator.Buffer.{
  BufferedMessage, Buffer, add, get_and_clear, put_back, take_signal,
}
use wallet_service.Aggregator.Dlq.{Producer}
use wallet_service.Aggregator.Pipeline.{
  State, look_at_context, insert_with_retry, commit_messages, handle_error_with_retry,
  record_consumed, record_inserted, record_flush, record_ch_error,
}

-- Where a thread stands. `about_to_flush` to `committing` are the points inside flush; `dead_letter`
-- is the loop around handleErrorWithRetry.
pub data Point : Type 0 where
  idle about_to_flush : Point
  inserting committing : List BufferedMessage → Point
  dead_letter : Message → ValidationError → Point
  committing_letter : Message → Point
  stopped : Point

abbrev pub rows_of : List BufferedMessage → List PageViewRow
rows_of = map (λ m. m.row)

abbrev pub messages_of : List BufferedMessage → List Message
messages_of = map (λ m. m.message)

abbrev pub begin_flush : List BufferedMessage × Buffer → State → Point × State
begin_flush ([], b) s = (idle, record s { buffer = b })
begin_flush (m ∷ ms, b) s = (inserting (m ∷ ms), record s { buffer = b })

abbrev pub end_insert : List BufferedMessage → Bool × State → Point × State
unfolding put_back
end_insert ms (true, s) = (committing ms, s)
end_insert ms (false, s) = (idle, record_ch_error (record s { buffer = put_back ms s.buffer }))

abbrev pub end_commit : List BufferedMessage → Bool × State → Point × State
end_commit ms (true, s) = (idle, record_flush (record_inserted (length ms) s))
end_commit ms (false, s) = (idle, s)

-- Behind a failure of handleErrorWithRetry Run waits, unless the context ends.
abbrev pub end_letter : Message → ValidationError → Bool × State → Point × State
unfolding look_at_context
end_letter m e (true, s) = (committing_letter m, s)
end_letter m e (false, s) =
    let (stop, s1) = look_at_context s in (if stop then stopped else dead_letter m e, s1)

-- One step of a thread inside flush, or inside the dead-letter path; elsewhere it stays.
unfoldable pub advance : Producer → Point → State → Point × State
unfolding get_and_clear insert_with_retry commit_messages handle_error_with_retry end_insert
    end_letter
advance p idle s = (idle, s)
advance p about_to_flush s = begin_flush (get_and_clear s.buffer) s
advance p (inserting ms) s = end_insert ms (insert_with_retry (rows_of ms) s)
advance p (committing ms) s = end_commit ms (commit_messages (messages_of ms) s)
advance p (dead_letter m e) s = end_letter m e (handle_error_with_retry p m e s)
advance p (committing_letter m) s = (idle, (commit_messages (m ∷ []) s).1)
advance p stopped s = (stopped, s)

-- flush, alone: from its first step to its last.
unfoldable pub flush : Producer → State → State
unfolding advance
flush p s =
    let (p1, s1) = advance p about_to_flush s in
    let (p2, s2) = advance p p1 s1 in (advance p p2 s2).1

-- What is done under context.Background, which is never done.
abbrev pub in_background : {A : Type 0} → (State → A × State) → State → A × State
in_background f s = let (a, s1) = f (record s { done = [] }) in (a, record s1 { done = s.done })

-- Close flushes once more.
unfoldable pub close : Producer → State → State
unfolding flush
close p s = (in_background (λ s'. (tt, flush p s')) s).1

-- Run has fetched a message. A valid event is put in the buffer.
abbrev pub buffered : (String → Option Ip) → Message → PageViewEvent → State → BufferedMessage
unfolding convert_event_to_row
buffered parse_ip m ev s = record {
  message = m;
  row = convert_event_to_row parse_ip s.clock ev m.offset m.partition;
}

abbrev pub add_to_buffer : BufferedMessage → State → Point × State
unfolding add
add_to_buffer m s =
    let (should_flush, b) = add m s.buffer in
    (if should_flush then about_to_flush else idle, record s { buffer = b })

abbrev pub accept :
    (String → Option Ip) → Message → Result ValidationError PageViewEvent → State → Point × State
unfolding add_to_buffer buffered
accept parse_ip m (err e) s = (dead_letter m e, s)
accept parse_ip m (ok ev) s = add_to_buffer (buffered parse_ip m ev s) s

unfoldable pub take_message : (String → Option Ip) → Message → State → Point × State
unfolding accept parse_and_validate
take_message parse_ip m s = accept parse_ip m (parse_and_validate m) (record_consumed s)

-- What FetchMessage returns to Run; an error leaves Run where it is, unless the context is done.
pub data Fetch : Type 0 where
  got : Message → Fetch
  fetch_failed fetch_cancelled : Fetch

-- Run at the head of its loop.
unfoldable pub fetch : (String → Option Ip) → Fetch → State → Point × State
unfolding take_message
fetch parse_ip (got m) s = take_message parse_ip m s
fetch parse_ip fetch_failed s = (idle, s)
fetch parse_ip fetch_cancelled s = (stopped, s)

-- What wakes flushLoop.
pub data Wake : Type 0 where
  ticker signal_received context_done : Wake

abbrev pub on_signal : Bool × Buffer → State → Point × State
on_signal (true, b) s = (about_to_flush, record s { buffer = b })
on_signal (false, b) s = (idle, record s { buffer = b })

unfoldable pub wake : Wake → State → Point × State
unfolding take_signal
wake ticker s = (about_to_flush, s)
wake signal_received s = on_signal (take_signal s.buffer) s
wake context_done s = (stopped, s)

-- The threads: Run, flushLoop, and the one that calls Close.
pub record System : Type 0 where
  pub shared : State
  pub run : Point
  pub flush_loop : Point
  pub closer : Point

-- Whose turn it is; the fetch and the wake-up serve a thread that is idle.
pub data Turn : Type 0 where
  run_turn : Fetch → Turn
  loop_turn : Wake → Turn
  closer_turn : Turn

abbrev pub run_from : Producer → (String → Option Ip) → Fetch → Point → State → Point × State
unfolding advance fetch
run_from p parse_ip f idle s = fetch parse_ip f s
run_from p parse_ip f about_to_flush s = advance p about_to_flush s
run_from p parse_ip f (inserting ms) s = advance p (inserting ms) s
run_from p parse_ip f (committing ms) s = advance p (committing ms) s
run_from p parse_ip f (dead_letter m e) s = advance p (dead_letter m e) s
run_from p parse_ip f (committing_letter m) s = advance p (committing_letter m) s
run_from p parse_ip f stopped s = (stopped, s)

abbrev pub loop_from : Producer → Wake → Point → State → Point × State
unfolding advance wake
loop_from p w idle s = wake w s
loop_from p w about_to_flush s = advance p about_to_flush s
loop_from p w (inserting ms) s = advance p (inserting ms) s
loop_from p w (committing ms) s = advance p (committing ms) s
loop_from p w (dead_letter m e) s = advance p (dead_letter m e) s
loop_from p w (committing_letter m) s = advance p (committing_letter m) s
loop_from p w stopped s = (stopped, s)

unfoldable pub turn : Producer → (String → Option Ip) → Turn → System → System
unfolding run_from loop_from advance
turn p parse_ip (run_turn f) y =
    let (q, s) = run_from p parse_ip f y.run y.shared in record y { shared = s; run = q }
turn p parse_ip (loop_turn w) y =
    let (q, s) = loop_from p w y.flush_loop y.shared in record y { shared = s; flush_loop = q }
turn p parse_ip closer_turn y =
    let (q, s) = in_background (advance p y.closer) y.shared in record y { shared = s; closer = q }

unfoldable pub schedule : Producer → (String → Option Ip) → List Turn → System → System
unfolding turn
schedule p parse_ip [] y = y
schedule p parse_ip (t ∷ ts) y = schedule p parse_ip ts (turn p parse_ip t y)
