-- ===== src/Aggregator/Threads/CommitSafe.antt =====
-- pv-aggregator/internal/kafka/consumer.go: the commits of the whole system.
use wallet_service.Base.{
  String, refl, Bool, true, false, All-append, Option, List, [], ◌∷◌, ◌++◌, leb, length,
  if◌then◌else◌,
}
use wallet_service.Base.Result.{Result, ok, err}
use wallet_service.Aggregator.Event.{
  Message, PageViewEvent, ValidationError, Ip, parse_and_validate, convert_event_to_row,
}
use wallet_service.Aggregator.Buffer.{add, take_signal}
use wallet_service.Aggregator.Dlq.{Producer}
use wallet_service.Aggregator.Pipeline.{State, record_consumed}
use wallet_service.Aggregator.Threads.{
  Point, idle, about_to_flush, inserting, committing, dead_letter, committing_letter, stopped,
  advance, in_background, buffered, add_to_buffer, accept, take_message, Fetch, got, fetch_failed,
  fetch_cancelled, fetch, Wake, ticker, signal_received, context_done, on_signal, wake, System,
  Turn, run_turn, loop_turn, closer_turn, run_from, loop_from, turn, schedule,
}
use wallet_service.Aggregator.Threads.Commits.{
  IsLinked, IsGood, IsReady, Grew, IsReady-Grew, IsFine, advance-IsFine,
}

same_tables : (s : State) → Grew s s
same_tables s = record { rows_stay = λ r i. i; errors_stay = λ e i. i }

choice-IsReady : (b : Bool) (s : State) → IsReady (if b then about_to_flush else idle) s
choice-IsReady true s = tt
choice-IsReady false s = tt

accept-IsFine :
    (parse_ip : String → Option Ip) (m : Message) (r : Result ValidationError PageViewEvent)
    (s : State)
    → IsGood s
    → IsFine s (accept parse_ip m r s)
unfolding accept add_to_buffer add buffered convert_event_to_row
accept-IsFine parse_ip m (err e) s good = (good, tt, same_tables s)
accept-IsFine parse_ip m (ok ev) s (linked, settled) =
    let new = buffered parse_ip m ev s in
    let messages = s.buffer.messages ++ new ∷ [] in
    let b = (add new s.buffer).1 in
    (
      (All-append IsLinked s.buffer.messages (new ∷ []) linked ((refl, refl), tt), settled),
      choice-IsReady (leb s.buffer.max_size (length messages)) (record s { buffer = b }),
      record { rows_stay = λ r i. i; errors_stay = λ e i. i },
    )

fetch-IsFine :
    (parse_ip : String → Option Ip) (f : Fetch) (s : State)
    → IsGood s
    → IsFine s (fetch parse_ip f s)
unfolding fetch take_message
fetch-IsFine parse_ip (got m) s good =
    let (good', ready, g) =
      accept-IsFine parse_ip m (parse_and_validate m) (record_consumed s) good in
    (good', ready, record { rows_stay = g.rows_stay; errors_stay = g.errors_stay })
fetch-IsFine parse_ip fetch_failed s good = (good, tt, same_tables s)
fetch-IsFine parse_ip fetch_cancelled s good = (good, tt, same_tables s)

on_signal-IsFine :
    (b : Bool) (s : State)
    → IsGood s
    → IsFine s (on_signal (b, record s.buffer { signal = false }) s)
on_signal-IsFine true s good = (good, tt, record { rows_stay = λ r i. i; errors_stay = λ e i. i })
on_signal-IsFine false s good = (good, tt, record { rows_stay = λ r i. i; errors_stay = λ e i. i })

wake-IsFine : (w : Wake) (s : State) → IsGood s → IsFine s (wake w s)
unfolding wake take_signal
wake-IsFine ticker s good = (good, tt, same_tables s)
wake-IsFine signal_received s good = on_signal-IsFine s.buffer.signal s good
wake-IsFine context_done s good = (good, tt, same_tables s)

run_from-IsFine :
    (p : Producer) (parse_ip : String → Option Ip) (f : Fetch) (q : Point) (s : State)
    → IsGood s
    → IsReady q s
    → IsFine s (run_from p parse_ip f q s)
unfolding run_from
run_from-IsFine p parse_ip f idle s good h = fetch-IsFine parse_ip f s good
run_from-IsFine p parse_ip f about_to_flush s good h = advance-IsFine p about_to_flush s good h
run_from-IsFine p parse_ip f (inserting ms) s good h = advance-IsFine p (inserting ms) s good h
run_from-IsFine p parse_ip f (committing ms) s good h = advance-IsFine p (committing ms) s good h
run_from-IsFine p parse_ip f (dead_letter m e) s good h =
    advance-IsFine p (dead_letter m e) s good h
run_from-IsFine p parse_ip f (committing_letter m) s good h =
    advance-IsFine p (committing_letter m) s good h
run_from-IsFine p parse_ip f stopped s good h = (good, tt, same_tables s)

loop_from-IsFine :
    (p : Producer) (w : Wake) (q : Point) (s : State)
    → IsGood s
    → IsReady q s
    → IsFine s (loop_from p w q s)
unfolding loop_from
loop_from-IsFine p w idle s good h = wake-IsFine w s good
loop_from-IsFine p w about_to_flush s good h = advance-IsFine p about_to_flush s good h
loop_from-IsFine p w (inserting ms) s good h = advance-IsFine p (inserting ms) s good h
loop_from-IsFine p w (committing ms) s good h = advance-IsFine p (committing ms) s good h
loop_from-IsFine p w (dead_letter m e) s good h = advance-IsFine p (dead_letter m e) s good h
loop_from-IsFine p w (committing_letter m) s good h =
    advance-IsFine p (committing_letter m) s good h
loop_from-IsFine p w stopped s good h = (good, tt, same_tables s)

-- The state is good, and each thread is about to commit only what is settled.
abbrev pub IsSound : System → Type 0
IsSound y =
    IsGood y.shared
    × IsReady y.run y.shared
    × IsReady y.flush_loop y.shared
    × IsReady y.closer y.shared

background-IsFine :
    (p : Producer) (q : Point) (s : State)
    → IsGood s
    → IsReady q s
    → IsFine s (in_background (advance p q) s)
background-IsFine p q s good ready =
    let s0 = record s { done = [] } in
    let start : Grew s s0 = record { rows_stay = λ r i. i; errors_stay = λ e i. i } in
    let end : (s1 : State) → Grew s1 (record s1 { done = s.done }) =
      λ s1. record { rows_stay = λ r i. i; errors_stay = λ e i. i } in
    let (good', ready', g) =
      advance-IsFine p q s0 good (IsReady-Grew {s = s} {s' = s0} start q ready) in
    let (q1, s1) = advance p q s0 in
    (
      good',
      IsReady-Grew {s = s1} {s' = record s1 { done = s.done }} (end s1) q1 ready',
      record { rows_stay = g.rows_stay; errors_stay = g.errors_stay },
    )

turn-IsSound :
    (p : Producer) (parse_ip : String → Option Ip) (t : Turn) (y : System)
    → IsSound y
    → IsSound (turn p parse_ip t y)
unfolding turn
turn-IsSound p parse_ip (run_turn f) y (good, r, l, c) =
    let (good', r', g) = run_from-IsFine p parse_ip f y.run y.shared good r in
    (good', r', IsReady-Grew g y.flush_loop l, IsReady-Grew g y.closer c)
turn-IsSound p parse_ip (loop_turn w) y (good, r, l, c) =
    let (good', l', g) = loop_from-IsFine p w y.flush_loop y.shared good l in
    (good', IsReady-Grew g y.run r, l', IsReady-Grew g y.closer c)
turn-IsSound p parse_ip closer_turn y (good, r, l, c) =
    let (good', c', g) = background-IsFine p y.closer y.shared good c in
    (good', IsReady-Grew g y.run r, IsReady-Grew g y.flush_loop l, c')

-- From a sound system, whatever turns Run, flushLoop and Close take, and whatever ClickHouse and
-- Kafka do: the system stays sound. In particular every message that was handed to CommitMessages and
-- reached Kafka has a row in page_views_raw or in processing_errors that carries its offset and
-- partition.
pub schedule-IsSound :
    (p : Producer) (parse_ip : String → Option Ip) (ts : List Turn) (y : System)
    → IsSound y
    → IsSound (schedule p parse_ip ts y)
unfolding schedule
schedule-IsSound p parse_ip [] y sound = sound
schedule-IsSound p parse_ip (t ∷ ts) y sound =
    schedule-IsSound p parse_ip ts (turn p parse_ip t y) (turn-IsSound p parse_ip t y sound)
