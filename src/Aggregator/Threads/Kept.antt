-- ===== src/Aggregator/Threads/Kept.antt =====
-- pv-aggregator/internal/kafka/consumer.go: where a message is while a thread takes a step.
use wallet_service.Base.{
  ◌≡◌, refl, sym, ap, subst, ◌⊎◌, inl, inr, Bool, true, false, List, [], ◌∷◌, ◌++◌, Memᴰ,
  if◌then◌else◌,
}
use mathlib.Core.List.Memᴰ
use wallet_service.Sql.{Delivery, answered, refused, lost}
use wallet_service.Aggregator.Event.{Message, ValidationError}
use wallet_service.Aggregator.Buffer.{BufferedMessage, Buffer, get_and_clear}
use wallet_service.Aggregator.Dlq.{Producer}
use wallet_service.Aggregator.Pipeline.{
  State, look_at_context, insert_with_retry, commit_messages, handle_error_with_retry,
  next_delivery, deliver, pop,
}
use wallet_service.Aggregator.Pipeline.Writes.{
  Wrote, insert_with_retry-Wrote, handle_error_with_retry-Wrote, look_at_context-Wrote,
}
use wallet_service.Aggregator.Pipeline.Success.{insert_with_retry-stored}
use wallet_service.Aggregator.Threads.{
  Point, idle, about_to_flush, inserting, committing, dead_letter, committing_letter, stopped,
  rows_of, messages_of, begin_flush, end_insert, end_commit, end_letter, advance,
}

-- The batch that a thread is inserting.
abbrev pub held : Point → List BufferedMessage
held idle = []
held about_to_flush = []
held (inserting ms) = ms
held (committing ms) = []
held (dead_letter m e) = []
held (committing_letter m) = []
held stopped = []

module _ (m : BufferedMessage) where
  -- In the buffer, in the thread's batch, or in the table.
  abbrev pub IsKept : Point × State → Type 0
  IsKept (q, s) = Memᴰ m s.buffer.messages ⊎ (Memᴰ m (held q) ⊎ Memᴰ m.row s.page_views_raw)

  abbrev pub InState : State → Type 0
  InState s = Memᴰ m s.buffer.messages ⊎ Memᴰ m.row s.page_views_raw

  pub idle-IsKept : (s : State) → InState s → IsKept (idle, s)
  idle-IsKept s (inl h) = inl h
  idle-IsKept s (inr h) = inr (inr h)

  pub of_idle : (s : State) → IsKept (idle, s) → InState s
  of_idle s (inl h) = inl h
  of_idle s (inr (inl h)) = absurd (Memᴰ.not-nil h)
  of_idle s (inr (inr h)) = inr h

  Wrote-InState : {s s' : State} → Wrote s s' → InState s → InState s'
  Wrote-InState w (inl h) = inl (subst (λ b. Memᴰ m b.messages) (sym w.same_buffer) h)
  Wrote-InState w (inr h) = inr (w.rows_stay m.row h)

  pub begin_flush-IsKept :
      (ms : List BufferedMessage) (b : Buffer) (s : State)
      → Memᴰ m ms ⊎ Memᴰ m.row s.page_views_raw
      → IsKept (begin_flush (ms, b) s)
  begin_flush-IsKept [] b s (inl h) = absurd (Memᴰ.not-nil h)
  begin_flush-IsKept [] b s (inr h) = inr (inr h)
  begin_flush-IsKept (x ∷ xs) b s (inl h) = inr (inl h)
  begin_flush-IsKept (x ∷ xs) b s (inr h) = inr (inr h)

  end_insert-IsKept :
      (ms : List BufferedMessage) (q : Bool × State)
      → (q.0 ≡ true → Memᴰ m ms → Memᴰ m.row q.1.page_views_raw)
      → IsKept (inserting ms, q.1)
      → IsKept (end_insert ms q)
  unfolding end_insert
  end_insert-IsKept ms (true, s) stored (inl h) = inl h
  end_insert-IsKept ms (true, s) stored (inr (inl h)) = inr (inr (stored refl h))
  end_insert-IsKept ms (true, s) stored (inr (inr h)) = inr (inr h)
  end_insert-IsKept ms (false, s) stored (inl h) = inl (Memᴰ.append_right ms h)
  end_insert-IsKept ms (false, s) stored (inr (inl h)) = inl (Memᴰ.append_left s.buffer.messages h)
  end_insert-IsKept ms (false, s) stored (inr (inr h)) = inr (inr h)

  Wrote-IsKept :
      (ms : List BufferedMessage) {s s' : State}
      → Wrote s s'
      → IsKept (inserting ms, s)
      → IsKept (inserting ms, s')
  Wrote-IsKept ms w (inl h) = inl (subst (λ b. Memᴰ m b.messages) (sym w.same_buffer) h)
  Wrote-IsKept ms w (inr (inl h)) = inr (inl h)
  Wrote-IsKept ms w (inr (inr h)) = inr (inr (w.rows_stay m.row h))

  end_commit-IsKept :
      (ms : List BufferedMessage) (q : Bool × State) → InState q.1 → IsKept (end_commit ms q)
  end_commit-IsKept ms (true, s) (inl h) = inl h
  end_commit-IsKept ms (true, s) (inr h) = inr (inr h)
  end_commit-IsKept ms (false, s) (inl h) = inl h
  end_commit-IsKept ms (false, s) (inr h) = inr (inr h)

  commit_messages-InState :
      (ms : List Message) (s : State) → InState s → InState (commit_messages ms s).1
  unfolding commit_messages next_delivery
  commit_messages-InState ms s h = through (next_delivery s) (popped s.faults h)
    where
      popped : (ds : List Delivery) → InState s → InState (pop ds s).1
      popped [] h = h
      popped (d ∷ ds) h = h

      through :
          (q : Delivery × State)
          → InState q.1
          → InState (deliver q (λ s'. record s' { committed = ms ++ s'.committed })).1
      through (answered, s') h = h
      through (refused, s') h = h
      through (lost, s') h = h

  choice-IsKept :
      (b : Bool) (m' : Message) (e : ValidationError) (s : State)
      → InState s
      → IsKept (if b then stopped else dead_letter m' e, s)
  choice-IsKept true m' e s (inl h) = inl h
  choice-IsKept true m' e s (inr h) = inr (inr h)
  choice-IsKept false m' e s (inl h) = inl h
  choice-IsKept false m' e s (inr h) = inr (inr h)

  end_letter-IsKept :
      (m' : Message) (e : ValidationError) (q : Bool × State)
      → InState q.1
      → IsKept (end_letter m' e q)
  unfolding end_letter
  end_letter-IsKept m' e (true, s) (inl h) = inl h
  end_letter-IsKept m' e (true, s) (inr h) = inr (inr h)
  end_letter-IsKept m' e (false, s) h =
      choice-IsKept (look_at_context s).0 m' e (look_at_context s).1
        (Wrote-InState (look_at_context-Wrote s) h)

  pub advance-IsKept :
      (p : Producer) (q : Point) (s : State) → IsKept (q, s) → IsKept (advance p q s)
  unfolding advance get_and_clear
  advance-IsKept p idle s h = h
  advance-IsKept p about_to_flush s h =
      begin_flush-IsKept s.buffer.messages (get_and_clear s.buffer).1 s (of_idle s h)
  advance-IsKept p (inserting ms) s h =
      end_insert-IsKept ms (insert_with_retry (rows_of ms) s)
        (λ e i. insert_with_retry-stored (rows_of ms) s e m.row (row-of ms i))
        (Wrote-IsKept ms (insert_with_retry-Wrote (rows_of ms) s) h)
    where
      row-of : (ms : List BufferedMessage) → Memᴰ m ms → Memᴰ m.row (rows_of ms)
      row-of [] i = absurd (Memᴰ.not-nil i)
      row-of (x ∷ xs) (Memᴰ.head e) = Memᴰ.head (ap (λ b. b.row) e)
      row-of (x ∷ xs) (Memᴰ.tail i) = Memᴰ.tail (row-of xs i)
  advance-IsKept p (committing ms) s h =
      end_commit-IsKept ms (commit_messages (messages_of ms) s)
        (commit_messages-InState (messages_of ms) s (of_idle s h))
  advance-IsKept p (dead_letter m' e) s h =
      end_letter-IsKept m' e (handle_error_with_retry p m' e s)
        (Wrote-InState (handle_error_with_retry-Wrote p m' e s) (of_idle s h))
  advance-IsKept p (committing_letter m') s h =
      idle-IsKept (commit_messages (m' ∷ []) s).1
        (commit_messages-InState (m' ∷ []) s (of_idle s h))
  advance-IsKept p stopped s h = h
