-- ===== src/Aggregator/Threads/NoLoss.antt =====
-- pv-aggregator/internal/kafka/consumer.go: where a message is while all threads take turns.
use wallet_service.Base.{
  String, ◌≡◌, refl, sym, subst, ◌⊎◌, inl, inr, Bool, true, false, Option, List, [], ◌∷◌, ◌++◌,
  Memᴰ, leb, length, if◌then◌else◌,
}
use mathlib.Core.List.Memᴰ
use wallet_service.Base.Result.{Result, ok, err}
use wallet_service.Aggregator.Event.{
  Message, PageViewEvent, ValidationError, Ip, parse_and_validate,
}
use wallet_service.Aggregator.Buffer.{BufferedMessage, Buffer, add, take_signal}
use wallet_service.Aggregator.Dlq.{Producer}
use wallet_service.Aggregator.Pipeline.{State, record_consumed}
use wallet_service.Aggregator.Threads.{
  Point, idle, about_to_flush, inserting, committing, dead_letter, committing_letter, stopped,
  advance, in_background, buffered, add_to_buffer, accept, take_message, Fetch, got, fetch_failed,
  fetch_cancelled, fetch, Wake, ticker, signal_received, context_done, on_signal, wake, System,
  Turn, run_turn, loop_turn, closer_turn, run_from, loop_from, turn, schedule,
}
use wallet_service.Aggregator.Threads.Kept.{held, IsKept, InState, of_idle, advance-IsKept}

module _ (m : BufferedMessage) where
  -- A thread that is about to flush holds nothing yet.
  abbrev choice-IsKept :
      (b : Bool) (s : State) → InState m s → IsKept m (if b then about_to_flush else idle, s)
  choice-IsKept true s (inl h) = inl h
  choice-IsKept true s (inr h) = inr (inr h)
  choice-IsKept false s (inl h) = inl h
  choice-IsKept false s (inr h) = inr (inr h)

  accept-IsKept :
      (parse_ip : String → Option Ip) (x : Message) (r : Result ValidationError PageViewEvent)
      (s : State)
      → InState m s
      → IsKept m (accept parse_ip x r s)
  unfolding accept add_to_buffer add
  accept-IsKept parse_ip x (err e) s (inl h) = inl h
  accept-IsKept parse_ip x (err e) s (inr h) = inr (inr h)
  accept-IsKept parse_ip x (ok ev) s h =
      let b = (add (buffered parse_ip x ev s) s.buffer).1 in
      choice-IsKept (leb s.buffer.max_size (length b.messages)) (record s { buffer = b })
        (in_longer (buffered parse_ip x ev s) h)
    where
      in_longer :
          (new : BufferedMessage)
          → InState m s
          → Memᴰ m (s.buffer.messages ++ new ∷ []) ⊎ Memᴰ m.row s.page_views_raw
      in_longer new (inl h) = inl (Memᴰ.append_left (new ∷ []) h)
      in_longer new (inr h) = inr h

  fetch-IsKept :
      (parse_ip : String → Option Ip) (f : Fetch) (s : State)
      → IsKept m (idle, s)
      → IsKept m (fetch parse_ip f s)
  unfolding fetch take_message
  fetch-IsKept parse_ip (got x) s h =
      accept-IsKept parse_ip x (parse_and_validate x) (record_consumed s) (of_idle m s h)
  fetch-IsKept parse_ip fetch_failed s h = h
  fetch-IsKept parse_ip fetch_cancelled s h = h

  on_signal-IsKept :
      (b : Bool) (s : State) (q : Buffer)
      → q.messages ≡ s.buffer.messages
      → IsKept m (idle, s)
      → IsKept m (on_signal (b, q) s)
  on_signal-IsKept true s q e (inl h) = inl (subst (Memᴰ m) (sym e) h)
  on_signal-IsKept true s q e (inr h) = inr h
  on_signal-IsKept false s q e (inl h) = inl (subst (Memᴰ m) (sym e) h)
  on_signal-IsKept false s q e (inr h) = inr h

  wake-IsKept : (w : Wake) (s : State) → IsKept m (idle, s) → IsKept m (wake w s)
  unfolding wake take_signal
  wake-IsKept ticker s h = h
  wake-IsKept signal_received s h =
      on_signal-IsKept s.buffer.signal s (take_signal s.buffer).1 refl h
  wake-IsKept context_done s h = h

  run_from-IsKept :
      (p : Producer) (parse_ip : String → Option Ip) (f : Fetch) (q : Point) (s : State)
      → IsKept m (q, s)
      → IsKept m (run_from p parse_ip f q s)
  unfolding run_from
  run_from-IsKept p parse_ip f idle s h = fetch-IsKept parse_ip f s h
  run_from-IsKept p parse_ip f about_to_flush s h = advance-IsKept m p about_to_flush s h
  run_from-IsKept p parse_ip f (inserting ms) s h = advance-IsKept m p (inserting ms) s h
  run_from-IsKept p parse_ip f (committing ms) s h = advance-IsKept m p (committing ms) s h
  run_from-IsKept p parse_ip f (dead_letter x e) s h = advance-IsKept m p (dead_letter x e) s h
  run_from-IsKept p parse_ip f (committing_letter x) s h =
      advance-IsKept m p (committing_letter x) s h
  run_from-IsKept p parse_ip f stopped s h = h

  loop_from-IsKept :
      (p : Producer) (w : Wake) (q : Point) (s : State)
      → IsKept m (q, s)
      → IsKept m (loop_from p w q s)
  unfolding loop_from
  loop_from-IsKept p w idle s h = wake-IsKept w s h
  loop_from-IsKept p w about_to_flush s h = advance-IsKept m p about_to_flush s h
  loop_from-IsKept p w (inserting ms) s h = advance-IsKept m p (inserting ms) s h
  loop_from-IsKept p w (committing ms) s h = advance-IsKept m p (committing ms) s h
  loop_from-IsKept p w (dead_letter x e) s h = advance-IsKept m p (dead_letter x e) s h
  loop_from-IsKept p w (committing_letter x) s h = advance-IsKept m p (committing_letter x) s h
  loop_from-IsKept p w stopped s h = h

  -- In the buffer or the table, or in a batch that one of the threads is inserting.
  abbrev pub IsSafe : System → Type 0
  IsSafe y =
      InState m y.shared
      ⊎ (Memᴰ m (held y.run) ⊎ (Memᴰ m (held y.flush_loop) ⊎ Memᴰ m (held y.closer)))

  -- What the running thread keeps, and what the other two hold.
  abbrev Others : Point × State → Point → Point → Type 0
  Others q a b = IsKept m q ⊎ (Memᴰ m (held a) ⊎ Memᴰ m (held b))

  module _ (s : State) (a b c : Point) where
    abbrev system : System
    system = record { shared = s; run = a; flush_loop = b; closer = c }

    run_first : IsSafe system → Others (a, s) b c
    run_first (inl (inl h)) = inl (inl h)
    run_first (inl (inr h)) = inl (inr (inr h))
    run_first (inr (inl h)) = inl (inr (inl h))
    run_first (inr (inr h)) = inr h

    run_back : Others (a, s) b c → IsSafe system
    run_back (inl (inl h)) = inl (inl h)
    run_back (inl (inr (inl h))) = inr (inl h)
    run_back (inl (inr (inr h))) = inl (inr h)
    run_back (inr h) = inr (inr h)

    loop_first : IsSafe system → Others (b, s) a c
    loop_first (inl (inl h)) = inl (inl h)
    loop_first (inl (inr h)) = inl (inr (inr h))
    loop_first (inr (inl h)) = inr (inl h)
    loop_first (inr (inr (inl h))) = inl (inr (inl h))
    loop_first (inr (inr (inr h))) = inr (inr h)

    loop_back : Others (b, s) a c → IsSafe system
    loop_back (inl (inl h)) = inl (inl h)
    loop_back (inl (inr (inl h))) = inr (inr (inl h))
    loop_back (inl (inr (inr h))) = inl (inr h)
    loop_back (inr (inl h)) = inr (inl h)
    loop_back (inr (inr h)) = inr (inr (inr h))

    closer_first : IsSafe system → Others (c, s) a b
    closer_first (inl (inl h)) = inl (inl h)
    closer_first (inl (inr h)) = inl (inr (inr h))
    closer_first (inr (inl h)) = inr (inl h)
    closer_first (inr (inr (inl h))) = inr (inr h)
    closer_first (inr (inr (inr h))) = inl (inr (inl h))

    closer_back : Others (c, s) a b → IsSafe system
    closer_back (inl (inl h)) = inl (inl h)
    closer_back (inl (inr (inl h))) = inr (inr (inr h))
    closer_back (inl (inr (inr h))) = inl (inr h)
    closer_back (inr (inl h)) = inr (inl h)
    closer_back (inr (inr h)) = inr (inr (inl h))

  move :
      (q q' : Point × State) (a b : Point)
      → (IsKept m q → IsKept m q')
      → Others q a b
      → Others q' a b
  move q q' a b f (inl h) = inl (f h)
  move q q' a b f (inr h) = inr h

  turn-IsSafe :
      (p : Producer) (parse_ip : String → Option Ip) (t : Turn) (y : System)
      → IsSafe y
      → IsSafe (turn p parse_ip t y)
  unfolding turn
  turn-IsSafe p parse_ip (run_turn f) y h =
      let q = run_from p parse_ip f y.run y.shared in
      run_back q.1 q.0 y.flush_loop y.closer (
        move (y.run, y.shared) q y.flush_loop y.closer (run_from-IsKept p parse_ip f y.run y.shared)
          (run_first y.shared y.run y.flush_loop y.closer h))
  turn-IsSafe p parse_ip (loop_turn w) y h =
      let q = loop_from p w y.flush_loop y.shared in
      loop_back q.1 y.run q.0 y.closer (
        move (y.flush_loop, y.shared) q y.run y.closer (loop_from-IsKept p w y.flush_loop y.shared)
          (loop_first y.shared y.run y.flush_loop y.closer h))
  turn-IsSafe p parse_ip closer_turn y h =
      let q = in_background (advance p y.closer) y.shared in
      closer_back q.1 y.run y.flush_loop q.0 (
        move (y.closer, y.shared) q y.run y.flush_loop
          (advance-IsKept m p y.closer (record y.shared { done = [] }))
          (closer_first y.shared y.run y.flush_loop y.closer h))

  schedule-IsSafe :
      (p : Producer) (parse_ip : String → Option Ip) (ts : List Turn) (y : System)
      → IsSafe y
      → IsSafe (schedule p parse_ip ts y)
  unfolding schedule
  schedule-IsSafe p parse_ip [] y h = h
  schedule-IsSafe p parse_ip (t ∷ ts) y h =
      schedule-IsSafe p parse_ip ts (turn p parse_ip t y) (turn-IsSafe p parse_ip t y h)

first_turn :
    (p : Producer) (parse_ip : String → Option Ip) (x : Message) (ev : PageViewEvent) (r : Point)
    (s : State)
    → r ≡ idle
    → parse_and_validate x ≡ ok ev
    → InState (buffered parse_ip x ev s) (run_from p parse_ip (got x) r s).1
unfolding run_from fetch take_message accept add_to_buffer add
first_turn p parse_ip x ev r s at_head valid =
    let m = buffered parse_ip x ev s in
    subst (λ r. InState m (run_from p parse_ip (got x) r s).1) (sym at_head)
      (subst (λ v. InState m (accept parse_ip x v (record_consumed s)).1) (sym valid)
        (inl (Memᴰ.append_right s.buffer.messages (Memᴰ.head refl))))

-- When Run is at the head of its loop and fetches a message whose event is valid, the message is
-- never lost: after that turn, and any turns of the three threads behind it, it is in the buffer, or
-- in a batch that a thread is inserting, or its row is in page_views_raw. This holds whatever
-- ClickHouse and Kafka do, and whenever the context ends.
pub accepted-IsSafe :
    (p : Producer) (parse_ip : String → Option Ip) (x : Message) (ev : PageViewEvent)
    (ts : List Turn) (y : System)
    → y.run ≡ idle
    → parse_and_validate x ≡ ok ev
    → IsSafe (buffered parse_ip x ev y.shared) (schedule p parse_ip (run_turn (got x) ∷ ts) y)
unfolding schedule turn
accepted-IsSafe p parse_ip x ev ts y at_head valid =
    schedule-IsSafe (buffered parse_ip x ev y.shared) p parse_ip ts
      (turn p parse_ip (run_turn (got x)) y)
      (inl (first_turn p parse_ip x ev y.run y.shared at_head valid))
