-- ===== src/Aggregator/Threads/Accounted.antt =====
-- The counters that GET /metrics of pv-aggregator reports, while all threads take turns.
use wallet_service.Base.{
  ℕ, ◌+◌, ◌≤◌, String, ◌≡◌, refl, Bool, true, false, Option, List, [], ◌∷◌, length, arith,
  if◌then◌else◌,
}
use wallet_service.Base.Result.{Result, ok, err}
use wallet_service.Aggregator.Event.{
  Message, PageViewEvent, ValidationError, Ip, parse_and_validate,
}
use wallet_service.Aggregator.Buffer.{BufferedMessage, Buffer, get_and_clear, take_signal}
use wallet_service.Aggregator.Dlq.{Producer}
use wallet_service.Aggregator.Pipeline.{
  State, look_at_context, insert_with_retry, commit_messages, handle_error_with_retry,
  record_consumed,
}
use wallet_service.Aggregator.Pipeline.Counts.{
  Pays, insert_with_retry-Pays, commit_messages-Pays, handle_error_with_retry-Pays,
  look_at_context-Pays,
}
use wallet_service.Aggregator.Threads.{
  Point, idle, about_to_flush, inserting, committing, dead_letter, committing_letter, stopped,
  rows_of, messages_of, begin_flush, end_insert, end_commit, end_letter, advance, in_background,
  accept, take_message, Fetch, got, fetch_failed, fetch_cancelled, fetch, Wake, ticker,
  signal_received, context_done, on_signal, wake, System, Turn, run_turn, loop_turn, closer_turn,
  run_from, loop_from, turn, schedule,
}

length-rows_of : (ms : List BufferedMessage) → length (rows_of ms) ≡ length ms
length-rows_of [] = refl
length-rows_of (m ∷ ms) = omega (arith, length-rows_of ms)

-- The rows that a thread has inserted and not counted yet: it commits first.
abbrev pub owed : Point → ℕ
owed (committing ms) = length ms
owed idle = 0
owed about_to_flush = 0
owed (inserting ms) = 0
owed (dead_letter m e) = 0
owed (committing_letter m) = 0
owed stopped = 0

-- What a step counts or begins to owe, it has put into the tables.
abbrev Settles : Point → State → Point × State → Type 0
Settles q s (q', s') =
    (s'.metrics.inserted_raw + owed q' + length s.page_views_raw
      ≤ length s'.page_views_raw + s.metrics.inserted_raw + owed q)
    × (s'.metrics.dlq_count + length s.processing_errors
        ≤ length s'.processing_errors + s.metrics.dlq_count)

begin_flush-Settles :
    (r : List BufferedMessage × Buffer) (s : State) → Settles about_to_flush s (begin_flush r s)
begin_flush-Settles ([], b) s = omega arith
begin_flush-Settles (m ∷ ms, b) s = omega arith

end_insert-Settles :
    (ms : List BufferedMessage) (s : State) (r : Bool × State)
    → Pays (length (rows_of ms)) s r
    → Settles (inserting ms) s (end_insert ms r)
unfolding advance
end_insert-Settles ms s (true, s') h = omega (arith, length-rows_of ms)
end_insert-Settles ms s (false, s') h = omega arith

end_commit-Settles :
    (ms : List BufferedMessage) (s : State) (r : Bool × State)
    → Pays 0 s r
    → Settles (committing ms) s (end_commit ms r)
end_commit-Settles ms s (true, s') h = omega arith
end_commit-Settles ms s (false, s') h = omega arith

end_letter-Settles :
    (m : Message) (e : ValidationError) (s : State) (r : Bool × State)
    → Pays 0 s r
    → Settles (dead_letter m e) s (end_letter m e r)
unfolding advance
end_letter-Settles m e s (true, s') h = omega arith
end_letter-Settles m e s (false, s') h = from_look (look_at_context s') (look_at_context-Pays s')
  where
    from_look :
        (l : Bool × State)
        → Pays 0 s' (true, l.1)
        → Settles (dead_letter m e) s ((if l.0 then stopped else dead_letter m e), l.1)
    from_look (true, s1) k = omega arith
    from_look (false, s1) k = omega arith

advance-Settles : (p : Producer) (q : Point) (s : State) → Settles q s (advance p q s)
unfolding advance
advance-Settles p idle s = omega arith
advance-Settles p about_to_flush s = begin_flush-Settles (get_and_clear s.buffer) s
advance-Settles p (inserting ms) s =
    end_insert-Settles ms s (insert_with_retry (rows_of ms) s)
      (insert_with_retry-Pays (rows_of ms) s)
advance-Settles p (committing ms) s =
    end_commit-Settles ms s (commit_messages (messages_of ms) s)
      (commit_messages-Pays (messages_of ms) s)
advance-Settles p (dead_letter m e) s =
    end_letter-Settles m e s (handle_error_with_retry p m e s)
      (handle_error_with_retry-Pays p m e s)
advance-Settles p (committing_letter m) s = omega (arith, commit_messages-Pays (m ∷ []) s)
advance-Settles p stopped s = omega arith

accept-Settles :
    (parse_ip : String → Option Ip) (m : Message) (r : Result ValidationError PageViewEvent)
    (s : State)
    → Settles idle s (accept parse_ip m r s)
unfolding accept
accept-Settles parse_ip m (err e) s = omega arith
accept-Settles parse_ip m (ok ev) s = ground arith

fetch-Settles :
    (parse_ip : String → Option Ip) (f : Fetch) (s : State) → Settles idle s (fetch parse_ip f s)
unfolding fetch take_message
fetch-Settles parse_ip (got m) s =
    accept-Settles parse_ip m (parse_and_validate m) (record_consumed s)
fetch-Settles parse_ip fetch_failed s = omega arith
fetch-Settles parse_ip fetch_cancelled s = omega arith

wake-Settles : (w : Wake) (s : State) → Settles idle s (wake w s)
unfolding wake
wake-Settles ticker s = omega arith
wake-Settles signal_received s = from_signal (take_signal s.buffer)
  where
    from_signal : (r : Bool × Buffer) → Settles idle s (on_signal r s)
    from_signal (true, b) = omega arith
    from_signal (false, b) = omega arith
wake-Settles context_done s = omega arith

run_from-Settles :
    (p : Producer) (parse_ip : String → Option Ip) (f : Fetch) (q : Point) (s : State)
    → Settles q s (run_from p parse_ip f q s)
unfolding run_from
run_from-Settles p parse_ip f idle s = fetch-Settles parse_ip f s
run_from-Settles p parse_ip f about_to_flush s = advance-Settles p about_to_flush s
run_from-Settles p parse_ip f (inserting ms) s = advance-Settles p (inserting ms) s
run_from-Settles p parse_ip f (committing ms) s = advance-Settles p (committing ms) s
run_from-Settles p parse_ip f (dead_letter m e) s = advance-Settles p (dead_letter m e) s
run_from-Settles p parse_ip f (committing_letter m) s = advance-Settles p (committing_letter m) s
run_from-Settles p parse_ip f stopped s = omega arith

loop_from-Settles :
    (p : Producer) (w : Wake) (q : Point) (s : State) → Settles q s (loop_from p w q s)
unfolding loop_from
loop_from-Settles p w idle s = wake-Settles w s
loop_from-Settles p w about_to_flush s = advance-Settles p about_to_flush s
loop_from-Settles p w (inserting ms) s = advance-Settles p (inserting ms) s
loop_from-Settles p w (committing ms) s = advance-Settles p (committing ms) s
loop_from-Settles p w (dead_letter m e) s = advance-Settles p (dead_letter m e) s
loop_from-Settles p w (committing_letter m) s = advance-Settles p (committing_letter m) s
loop_from-Settles p w stopped s = omega arith

background-Settles :
    (p : Producer) (q : Point) (s : State) → Settles q s (in_background (advance p q) s)
background-Settles p q s = advance-Settles p q (record s { done = [] })

-- The counters and what the threads still owe them are covered by the rows inserted.
abbrev pub IsAccounted : System → Type 0
IsAccounted y =
    (y.shared.metrics.inserted_raw + owed y.run + owed y.flush_loop + owed y.closer
      ≤ length y.shared.page_views_raw)
    × (y.shared.metrics.dlq_count ≤ length y.shared.processing_errors)

turn-IsAccounted :
    (p : Producer) (parse_ip : String → Option Ip) (t : Turn) (y : System)
    → IsAccounted y
    → IsAccounted (turn p parse_ip t y)
unfolding turn
turn-IsAccounted p parse_ip (run_turn f) y h =
    omega (arith, run_from-Settles p parse_ip f y.run y.shared)
turn-IsAccounted p parse_ip (loop_turn w) y h =
    omega (arith, loop_from-Settles p w y.flush_loop y.shared)
turn-IsAccounted p parse_ip closer_turn y h = omega (arith, background-Settles p y.closer y.shared)

-- Whatever order Run, flushLoop and Close take their turns in, and whatever ClickHouse and Kafka do, the
-- counters never run ahead of the inserts: as many rows as inserted_raw says, and as many more as threads
-- have inserted without having counted them, have been inserted into page_views_raw, and as many as
-- dlq_count says into processing_errors, if it was so before.
pub schedule-IsAccounted :
    (p : Producer) (parse_ip : String → Option Ip) (ts : List Turn) (y : System)
    → IsAccounted y
    → IsAccounted (schedule p parse_ip ts y)
unfolding schedule
schedule-IsAccounted p parse_ip [] y h = h
schedule-IsAccounted p parse_ip (t ∷ ts) y h =
    schedule-IsAccounted p parse_ip ts (turn p parse_ip t y) (turn-IsAccounted p parse_ip t y h)
