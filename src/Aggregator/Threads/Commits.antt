-- ===== src/Aggregator/Threads/Commits.antt =====
-- pv-aggregator/internal/kafka/consumer.go: the commits of one thread.
use wallet_service.Base.{
  ◌≡◌, refl, sym, subst, ◌⊎◌, inl, inr, Bool, true, false, All, All-append, All-mono, List, [], ◌∷◌,
  ◌++◌, Memᴰ, if◌then◌else◌,
}
use wallet_service.Sql.{Delivery, answered, refused, lost}
use wallet_service.Aggregator.Event.{Message, PageViewRow, ValidationError}
use wallet_service.Aggregator.Buffer.{BufferedMessage, get_and_clear, put_back}
use wallet_service.Aggregator.Dlq.{Producer}
use wallet_service.Aggregator.Pipeline.{
  State, ErrorRow, error_row, look_at_context, insert_with_retry, commit_messages,
  handle_error_with_retry, next_delivery, deliver, pop,
}
use wallet_service.Aggregator.Pipeline.Writes.{
  Wrote, nothing, insert_with_retry-Wrote, handle_error_with_retry-Wrote, look_at_context-Wrote,
  Wrote-trans,
}
use wallet_service.Aggregator.Pipeline.Success.{
  insert_with_retry-stored, handle_error_with_retry-stored,
}
use wallet_service.Aggregator.Threads.{
  Point, idle, about_to_flush, inserting, committing, dead_letter, committing_letter, stopped,
  rows_of, messages_of, begin_flush, end_insert, end_commit, end_letter, advance,
}

-- The message has a row in page_views_raw, or in processing_errors.
abbrev pub IsSettled : Message → State → Type 0
IsSettled m s =
    ((r : PageViewRow) × Memᴰ r s.page_views_raw
      × (r.kafka_offset ≡ m.offset)
      × (r.kafka_partition ≡ m.partition))
    ⊎ ((e : ErrorRow) × Memᴰ e s.processing_errors
        × (e.kafka_offset ≡ m.offset)
        × (e.kafka_partition ≡ m.partition))

-- The row carries the position of its message.
abbrev pub IsLinked : BufferedMessage → Type 0
IsLinked b = (b.row.kafka_offset ≡ b.message.offset) × (b.row.kafka_partition ≡ b.message.partition)

abbrev pub IsGood : State → Type 0
IsGood s = All IsLinked s.buffer.messages × All (λ m. IsSettled m s) s.committed

-- What a thread is about to commit is settled.
abbrev pub IsReady : Point → State → Type 0
IsReady idle s = Unit
IsReady about_to_flush s = Unit
IsReady (inserting ms) s = All IsLinked ms
IsReady (committing ms) s = All (λ b. IsSettled b.message s) ms
IsReady (dead_letter m e) s = Unit
IsReady (committing_letter m) s = IsSettled m s
IsReady stopped s = Unit

-- The tables have at most grown.
pub record Grew (s s' : State) : Type 0 where
  pub rows_stay : (r : PageViewRow) → Memᴰ r s.page_views_raw → Memᴰ r s'.page_views_raw
  pub errors_stay : (e : ErrorRow) → Memᴰ e s.processing_errors → Memᴰ e s'.processing_errors

pub grew : {s s' : State} → Wrote s s' → Grew s s'
grew w = record { rows_stay = w.rows_stay; errors_stay = w.errors_stay }

pub IsSettled-Grew : {s s' : State} → Grew s s' → (m : Message) → IsSettled m s → IsSettled m s'
IsSettled-Grew g m (inl (r, i, o, p)) = inl (r, g.rows_stay r i, o, p)
IsSettled-Grew g m (inr (e, i, o, p)) = inr (e, g.errors_stay e i, o, p)

pub IsReady-Grew : {s s' : State} → Grew s s' → (q : Point) → IsReady q s → IsReady q s'
IsReady-Grew g idle h = tt
IsReady-Grew g about_to_flush h = tt
IsReady-Grew g (inserting ms) h = h
IsReady-Grew {s} {s'} g (committing ms) h =
    All-mono (λ b. IsSettled b.message s) (λ b. IsSettled b.message s') ms
      (λ b. IsSettled-Grew g b.message) h
IsReady-Grew g (dead_letter m e) h = tt
IsReady-Grew g (committing_letter m) h = IsSettled-Grew g m h
IsReady-Grew g stopped h = tt

IsGood-Wrote : (s s' : State) → Wrote s s' → IsGood s → IsGood s'
IsGood-Wrote s s' w (linked, settled) = (
  subst (λ b. All IsLinked b.messages) (sym w.same_buffer) linked,
  subst (All (λ m. IsSettled m s')) (sym w.same_committed) (
      All-mono (λ m. IsSettled m s) (λ m. IsSettled m s') s.committed (IsSettled-Grew (grew w))
        settled),
)

IsSettled-rows_of :
    (ms : List BufferedMessage) (s : State)
    → All IsLinked ms
    → ((r : PageViewRow) → Memᴰ r (rows_of ms) → Memᴰ r s.page_views_raw)
    → All (λ b. IsSettled b.message s) ms
IsSettled-rows_of [] s linked stored = tt
IsSettled-rows_of (b ∷ bs) s ((o, p), linked) stored = (
  inl (b.row, stored b.row (Memᴰ.head refl), o, p),
  IsSettled-rows_of bs s linked (λ r i. stored r (Memᴰ.tail i)),
)

IsSettled-messages_of :
    (ms : List BufferedMessage) (s : State)
    → All (λ b. IsSettled b.message s) ms
    → All (λ m. IsSettled m s) (messages_of ms)
IsSettled-messages_of [] s h = tt
IsSettled-messages_of (b ∷ bs) s (h, hs) = (h, IsSettled-messages_of bs s hs)

-- A thread's point and the shared state, and what it has done to the tables.
abbrev pub IsFine : State → Point × State → Type 0
IsFine s (q, s') = IsGood s' × IsReady q s' × Grew s s'

begin_flush-IsFine :
    (ms : List BufferedMessage) (s : State)
    → All IsLinked ms
    → IsGood s
    → IsFine s (begin_flush (ms, record s.buffer { messages = [] }) s)
begin_flush-IsFine [] s linked good =
    ((tt, good.1), tt, record { rows_stay = λ r i. i; errors_stay = λ e i. i })
begin_flush-IsFine (b ∷ bs) s linked good =
    ((tt, good.1), linked, record { rows_stay = λ r i. i; errors_stay = λ e i. i })

end_insert-IsFine :
    (ms : List BufferedMessage) (s : State) (q : Bool × State)
    → Wrote s q.1
    → (q.0 ≡ true → (r : PageViewRow) → Memᴰ r (rows_of ms) → Memᴰ r q.1.page_views_raw)
    → IsGood s
    → All IsLinked ms
    → IsFine s (end_insert ms q)
unfolding end_insert put_back
end_insert-IsFine ms s (true, s') w stored good linked =
    (IsGood-Wrote s s' w good, IsSettled-rows_of ms s' linked (stored refl), grew w)
end_insert-IsFine ms s (false, s') w stored good linked =
    let (linked', settled) = IsGood-Wrote s s' w good in
    (
      (All-append IsLinked ms s'.buffer.messages linked linked', settled),
      tt,
      record { rows_stay = w.rows_stay; errors_stay = w.errors_stay },
    )

-- A commit of messages that are settled.
abbrev CommitFine : State → State → Type 0
CommitFine s s' = IsGood s' × Grew s s'

commit_messages-Fine :
    (ms : List Message) (s : State)
    → IsGood s
    → All (λ m. IsSettled m s) ms
    → CommitFine s (commit_messages ms s).1
unfolding commit_messages next_delivery
commit_messages-Fine ms s good settled = popped s.faults
  where
    same : Grew s s
    same = grew (nothing s)

    add_commits : All (λ m. IsSettled m s) (ms ++ s.committed)
    add_commits = All-append (λ m. IsSettled m s) ms s.committed settled good.1

    stays : (ds : List Delivery) → Grew s (record s { faults = ds })
    stays ds = record { rows_stay = λ r i. i; errors_stay = λ e i. i }

    popped :
        (ds : List Delivery)
        → CommitFine s (deliver (pop ds s) (λ s'. record s' { committed = ms ++ s'.committed })).1
    popped [] = ((good.0, add_commits), record { rows_stay = λ r i. i; errors_stay = λ e i. i })
    popped (answered ∷ ds) =
        ((good.0, add_commits), record { rows_stay = λ r i. i; errors_stay = λ e i. i })
    popped (refused ∷ ds) = (good, stays ds)
    popped (lost ∷ ds) =
        ((good.0, add_commits), record { rows_stay = λ r i. i; errors_stay = λ e i. i })

end_commit-IsFine :
    (ms : List BufferedMessage) (s : State) (q : Bool × State)
    → CommitFine s q.1
    → IsFine s (end_commit ms q)
end_commit-IsFine ms s (true, s') (good, g) =
    (good, tt, record { rows_stay = g.rows_stay; errors_stay = g.errors_stay })
end_commit-IsFine ms s (false, s') (good, g) = (good, tt, g)

choice-IsReady :
    (b : Bool) (m : Message) (e : ValidationError) (s : State)
    → IsReady (if b then stopped else dead_letter m e) s
choice-IsReady true m e s = tt
choice-IsReady false m e s = tt

end_letter-IsFine :
    (m : Message) (e : ValidationError) (s : State) (q : Bool × State)
    → Wrote s q.1
    → (q.0 ≡ true → Memᴰ (error_row m e) q.1.processing_errors)
    → IsGood s
    → IsFine s (end_letter m e q)
unfolding end_letter
end_letter-IsFine m e s (true, s') w stored good =
    (IsGood-Wrote s s' w good, inr (error_row m e, stored refl, refl, refl), grew w)
end_letter-IsFine m e s (false, s') w stored good =
    let all = Wrote-trans w (look_at_context-Wrote s') in
    let s2 = (look_at_context s').1 in
    (IsGood-Wrote s s2 all good, choice-IsReady (look_at_context s').0 m e s2, grew all)

-- Every step of a thread, inside flush and on the dead-letter path.
pub advance-IsFine :
    (p : Producer) (q : Point) (s : State) → IsGood s → IsReady q s → IsFine s (advance p q s)
unfolding advance get_and_clear
advance-IsFine p idle s good h = (good, tt, grew (nothing s))
advance-IsFine p about_to_flush s good h = begin_flush-IsFine s.buffer.messages s good.0 good
advance-IsFine p (inserting ms) s good h =
    end_insert-IsFine ms s (insert_with_retry (rows_of ms) s)
      (insert_with_retry-Wrote (rows_of ms) s) (insert_with_retry-stored (rows_of ms) s) good h
advance-IsFine p (committing ms) s good h =
    end_commit-IsFine ms s (commit_messages (messages_of ms) s)
      (commit_messages-Fine (messages_of ms) s good (IsSettled-messages_of ms s h))
advance-IsFine p (dead_letter m e) s good h =
    end_letter-IsFine m e s (handle_error_with_retry p m e s)
      (handle_error_with_retry-Wrote p m e s) (handle_error_with_retry-stored p m e s) good
advance-IsFine p (committing_letter m) s good h =
    let (good', g) = commit_messages-Fine (m ∷ []) s good (h, tt) in (good', tt, g)
advance-IsFine p stopped s good h = (good, tt, grew (nothing s))
