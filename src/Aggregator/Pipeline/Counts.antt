-- ===== src/Aggregator/Pipeline/Counts.antt =====
-- The counters of pv-aggregator/internal/kafka/consumer.go beside the two tables, through the retried writes.
use wallet_service.Base.{
  ℕ, zero, suc, ◌+◌, ◌≤◌, ◌≡◌, Bool, true, false, List, [], ◌∷◌, ◌++◌, length, length-append, arith,
  if◌then◌else◌,
}
use wallet_service.Sql.{Delivery, answered, refused, lost}
use wallet_service.Aggregator.Event.{Message, PageViewRow, ValidationError}
use wallet_service.Aggregator.Dlq.{Producer}
use wallet_service.Aggregator.Pipeline.{
  State, error_row, pop_done, look_at_context, pop, next_delivery, deliver, insert_raw_batch,
  insert_error, send_with, send_letter, after_send, count_letter, handle_error, pause, after_pause,
  after_try, retry, handle_error_with_retry, insert_with_retry, commit_messages,
}

abbrev pub earned : Bool → ℕ → ℕ
earned true n = n
earned false n = 0

-- From the first state to the second no row has been counted or lost, there are `n` more where the operation
-- reports success, and each letter counted has its row.
abbrev pub Pays : ℕ → State → Bool × State → Type 0
Pays n s (b, s') =
    (s'.metrics.inserted_raw ≡ s.metrics.inserted_raw)
    × (length s.page_views_raw + earned b n ≤ length s'.page_views_raw)
    × (s'.metrics.dlq_count + length s.processing_errors
        ≤ length s'.processing_errors + s.metrics.dlq_count)

pop_done-Pays : (ds : List Bool) (s : State) → Pays 0 s (true, (pop_done ds s).1)
pop_done-Pays [] s = omega arith
pop_done-Pays (d ∷ ds) s = omega arith

pub look_at_context-Pays : (s : State) → Pays 0 s (true, (look_at_context s).1)
unfolding look_at_context
look_at_context-Pays s = pop_done-Pays s.done s

pop-Pays : (ds : List Delivery) (s : State) → Pays 0 s (true, (pop ds s).1)
pop-Pays [] s = omega arith
pop-Pays (d ∷ ds) s = omega arith

next_delivery-Pays : (s : State) → Pays 0 s (true, (next_delivery s).1)
unfolding next_delivery
next_delivery-Pays s = pop-Pays s.faults s

inserted-Pays :
    (rows : List PageViewRow) (q : Delivery × State)
    → Pays
        (length rows)
        q.1
        (deliver q (λ s'. record s' { page_views_raw = rows ++ s'.page_views_raw }))
inserted-Pays rows (answered, s) = omega (arith, length-append rows s.page_views_raw)
inserted-Pays rows (refused, s) = omega arith
inserted-Pays rows (lost, s) = omega (arith, length-append rows s.page_views_raw)

insert_raw_batch-Pays :
    (rows : List PageViewRow) (s : State) → Pays (length rows) s (insert_raw_batch rows s)
unfolding insert_raw_batch
insert_raw_batch-Pays rows s =
    omega (arith, next_delivery-Pays s, inserted-Pays rows (next_delivery s))

committed-Pays :
    (ms : List Message) (q : Delivery × State)
    → Pays 0 q.1 (deliver q (λ s'. record s' { committed = ms ++ s'.committed }))
committed-Pays ms (answered, s) = omega arith
committed-Pays ms (refused, s) = omega arith
committed-Pays ms (lost, s) = omega arith

pub commit_messages-Pays : (ms : List Message) (s : State) → Pays 0 s (commit_messages ms s)
unfolding commit_messages
commit_messages-Pays ms s = omega (arith, next_delivery-Pays s, committed-Pays ms (next_delivery s))

send_with-Pays : (p : Producer) (m : Message) (q : Delivery × State) → Pays 0 q.1 (send_with p m q)
unfolding send_with
send_with-Pays p m (d, s) = ground arith

when_on-Pays :
    (on : Bool) (s : State) → Pays 0 s (true, (if on then next_delivery s else (answered, s)).1)
when_on-Pays true s = next_delivery-Pays s
when_on-Pays false s = omega arith

send_letter-Pays : (p : Producer) (m : Message) (s : State) → Pays 0 s (send_letter p m s)
unfolding send_letter
send_letter-Pays p m s = omega (
  arith,
  when_on-Pays p.enabled s,
  send_with-Pays p m (if p.enabled then next_delivery s else (answered, s)),
)

-- An error row that is reported as inserted pays for the letter that is counted after it.
abbrev PaysLetter : State → Bool × State → Type 0
PaysLetter s (b, s') =
    (s'.metrics.inserted_raw ≡ s.metrics.inserted_raw)
    × (length s.page_views_raw ≤ length s'.page_views_raw)
    × (s'.metrics.dlq_count + length s.processing_errors + earned b 1
        ≤ length s'.processing_errors + s.metrics.dlq_count)

insert_error-Pays :
    (m : Message) (e : ValidationError) (s : State) → PaysLetter s (insert_error m e s)
unfolding insert_error
insert_error-Pays m e s = omega (arith, next_delivery-Pays s, delivered (next_delivery s))
  where
    delivered :
        (q : Delivery × State)
        → PaysLetter q.1 (
            deliver q
              (λ s'. record s' { processing_errors = error_row m e ∷ s'.processing_errors }))
    delivered (answered, s') = omega arith
    delivered (refused, s') = omega arith
    delivered (lost, s') = omega arith

counted-Pays :
    (m : Message) (e : ValidationError) (q : Bool × State)
    → Pays 0 q.1 (count_letter (after_send (insert_error m e) q))
counted-Pays m e (false, s) = omega arith
counted-Pays m e (true, s) = from_insert (insert_error m e s) (insert_error-Pays m e s)
  where
    from_insert : (r : Bool × State) → PaysLetter s r → Pays 0 s (count_letter r)
    from_insert (true, s') h = omega arith
    from_insert (false, s') h = omega arith

handle_error-Pays :
    (p : Producer) (m : Message) (e : ValidationError) (s : State) → Pays 0 s (handle_error p m e s)
unfolding handle_error
handle_error-Pays p m e s =
    omega (arith, send_letter-Pays p m s, counted-Pays m e (send_letter p m s))

module _ (n : ℕ) (f : State → Bool × State) (f-Pays : (s : State) → Pays n s (f s)) where
  pause-Pays : (left : ℕ) (s : State) → Pays 0 s (true, (pause left s).1)
  unfolding pause
  pause-Pays zero s = omega arith
  pause-Pays (suc left) s = look_at_context-Pays s

  after_pause-Pays :
      (rest : State → Bool × State) (q : Bool × State)
      → ((s : State) → Pays n s (rest s))
      → Pays n q.1 (after_pause rest q)
  after_pause-Pays rest (true, s) w = omega arith
  after_pause-Pays rest (false, s) w = w s

  after_try-Pays :
      (left : ℕ) (rest : State → Bool × State) (s : State) (q : Bool × State)
      → ((s : State) → Pays n s (rest s))
      → Pays n s q
      → Pays n s (after_try left rest q)
  unfolding after_try
  after_try-Pays left rest s (true, s') w h = h
  after_try-Pays left rest s (false, s') w h =
      omega (arith, pause-Pays left s', after_pause-Pays rest (pause left s') w)

  retry-Pays : (left : ℕ) (s : State) → Pays n s (retry f left s)
  unfolding retry
  retry-Pays zero s = omega arith
  retry-Pays (suc left) s = after_try-Pays left (retry f left) s (f s) (retry-Pays left) (f-Pays s)

pub insert_with_retry-Pays :
    (rows : List PageViewRow) (s : State) → Pays (length rows) s (insert_with_retry rows s)
unfolding insert_with_retry
insert_with_retry-Pays rows =
    retry-Pays (length rows) (insert_raw_batch rows) (insert_raw_batch-Pays rows) 5

pub handle_error_with_retry-Pays :
    (p : Producer) (m : Message) (e : ValidationError) (s : State)
    → Pays 0 s (handle_error_with_retry p m e s)
unfolding handle_error_with_retry
handle_error_with_retry-Pays p m e = retry-Pays 0 (handle_error p m e) (handle_error-Pays p m e) 10
