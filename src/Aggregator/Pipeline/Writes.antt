-- ===== src/Aggregator/Pipeline/Writes.antt =====
-- The writes of pv-aggregator/internal/kafka/consumer.go and internal/clickhouse/repo.go, and the parts
-- of the state that they reach.
use wallet_service.Base.{
  ℕ, zero, suc, ◌≡◌, refl, ◌∙◌, Bool, true, false, List, [], ◌∷◌, ◌++◌, Memᴰ, if◌then◌else◌,
}
use mathlib.Core.List.Memᴰ
use wallet_service.Sql.{Delivery, answered, refused, lost}
use wallet_service.Aggregator.Event.{Message, PageViewRow, ValidationError}
use wallet_service.Aggregator.Dlq.{Producer}
use wallet_service.Aggregator.Pipeline.{
  State, ErrorRow, error_row, pop_done, look_at_context, pop, next_delivery, deliver,
  insert_raw_batch, insert_error, send_with, send_letter, after_send, count_letter, handle_error,
  pause, after_pause, after_try, retry, handle_error_with_retry, insert_with_retry,
}

-- From the first state to the second the buffer and the commits are as they were, and the tables
-- have at most grown.
pub record Wrote (s s' : State) : Type 0 where
  pub same_buffer : s'.buffer ≡ s.buffer
  pub same_committed : s'.committed ≡ s.committed
  pub rows_stay : (r : PageViewRow) → Memᴰ r s.page_views_raw → Memᴰ r s'.page_views_raw
  pub errors_stay : (e : ErrorRow) → Memᴰ e s.processing_errors → Memᴰ e s'.processing_errors

pub nothing : (s : State) → Wrote s s
nothing s = record {
  same_buffer = refl;
  same_committed = refl;
  rows_stay = λ r m. m;
  errors_stay = λ e m. m;
}

pub Wrote-trans : {s1 s2 s3 : State} → Wrote s1 s2 → Wrote s2 s3 → Wrote s1 s3
Wrote-trans a b = record {
  same_buffer = b.same_buffer ∙ a.same_buffer;
  same_committed = b.same_committed ∙ a.same_committed;
  rows_stay = λ r m. b.rows_stay r (a.rows_stay r m);
  errors_stay = λ e m. b.errors_stay e (a.errors_stay e m);
}

pop_done-Wrote : (ds : List Bool) (s : State) → Wrote s (pop_done ds s).1
pop_done-Wrote [] s = nothing s
pop_done-Wrote (d ∷ ds) s = record {
  same_buffer = refl;
  same_committed = refl;
  rows_stay = λ r m. m;
  errors_stay = λ e m. m;
}

pub look_at_context-Wrote : (s : State) → Wrote s (look_at_context s).1
unfolding look_at_context
look_at_context-Wrote s = pop_done-Wrote s.done s

pop-Wrote : (ds : List Delivery) (s : State) → Wrote s (pop ds s).1
pop-Wrote [] s = nothing s
pop-Wrote (d ∷ ds) s = record {
  same_buffer = refl;
  same_committed = refl;
  rows_stay = λ r m. m;
  errors_stay = λ e m. m;
}

next_delivery-Wrote : (s : State) → Wrote s (next_delivery s).1
unfolding next_delivery
next_delivery-Wrote s = pop-Wrote s.faults s

deliver-Wrote :
    (q : Delivery × State) (f : State → State)
    → ((s : State) → Wrote s (f s))
    → Wrote q.1 (deliver q f).1
deliver-Wrote (answered, s) f w = w s
deliver-Wrote (refused, s) f w = nothing s
deliver-Wrote (lost, s) f w = w s

insert_raw_batch-Wrote : (rows : List PageViewRow) (s : State) → Wrote s (insert_raw_batch rows s).1
unfolding insert_raw_batch
insert_raw_batch-Wrote rows s = Wrote-trans (next_delivery-Wrote s) (
    deliver-Wrote (next_delivery s) (λ s'. record s' { page_views_raw = rows ++ s'.page_views_raw })
      (λ s'. record {
        same_buffer = refl;
        same_committed = refl;
        rows_stay = λ r m. Memᴰ.append_right rows m;
        errors_stay = λ e m. m;
      }))

insert_error-Wrote :
    (m : Message) (e : ValidationError) (s : State) → Wrote s (insert_error m e s).1
unfolding insert_error
insert_error-Wrote m e s = Wrote-trans (next_delivery-Wrote s) (
    deliver-Wrote (next_delivery s)
      (λ s'. record s' { processing_errors = error_row m e ∷ s'.processing_errors })
      (λ s'. record {
        same_buffer = refl;
        same_committed = refl;
        rows_stay = λ r h. h;
        errors_stay = λ x h. Memᴰ.tail h;
      }))

send_with-Wrote :
    (p : Producer) (m : Message) (q : Delivery × State) → Wrote q.1 (send_with p m q).1
unfolding send_with
send_with-Wrote p m (d, s) = record {
  same_buffer = refl;
  same_committed = refl;
  rows_stay = λ r h. h;
  errors_stay = λ e h. h;
}

when_on-Wrote : (on : Bool) (s : State) → Wrote s (if on then next_delivery s else (answered, s)).1
when_on-Wrote true s = next_delivery-Wrote s
when_on-Wrote false s = nothing s

send_letter-Wrote : (p : Producer) (m : Message) (s : State) → Wrote s (send_letter p m s).1
unfolding send_letter
send_letter-Wrote p m s =
    Wrote-trans (when_on-Wrote p.enabled s)
      (send_with-Wrote p m (if p.enabled then next_delivery s else (answered, s)))

after_send-Wrote :
    (insert : State → Bool × State) (q : Bool × State)
    → ((s : State) → Wrote s (insert s).1)
    → Wrote q.1 (after_send insert q).1
after_send-Wrote insert (false, s) w = nothing s
after_send-Wrote insert (true, s) w = w s

count_letter-Wrote : (q : Bool × State) → Wrote q.1 (count_letter q).1
count_letter-Wrote (false, s) = nothing s
count_letter-Wrote (true, s) = record {
  same_buffer = refl;
  same_committed = refl;
  rows_stay = λ r m. m;
  errors_stay = λ e m. m;
}

handle_error-Wrote :
    (p : Producer) (m : Message) (e : ValidationError) (s : State)
    → Wrote s (handle_error p m e s).1
unfolding handle_error
handle_error-Wrote p m e s = Wrote-trans (send_letter-Wrote p m s) (
    Wrote-trans (after_send-Wrote (insert_error m e) (send_letter p m s) (insert_error-Wrote m e))
      (count_letter-Wrote (after_send (insert_error m e) (send_letter p m s))))

-- A retry loop does what its rounds do.
module _ (f : State → Bool × State) (f-Wrote : (s : State) → Wrote s (f s).1) where
  pause-Wrote : (left : ℕ) (s : State) → Wrote s (pause left s).1
  unfolding pause
  pause-Wrote zero s = nothing s
  pause-Wrote (suc left) s = look_at_context-Wrote s

  after_pause-Wrote :
      (rest : State → Bool × State) (q : Bool × State)
      → ((s : State) → Wrote s (rest s).1)
      → Wrote q.1 (after_pause rest q).1
  after_pause-Wrote rest (true, s) w = nothing s
  after_pause-Wrote rest (false, s) w = w s

  after_try-Wrote :
      (left : ℕ) (rest : State → Bool × State) (q : Bool × State)
      → ((s : State) → Wrote s (rest s).1)
      → Wrote q.1 (after_try left rest q).1
  unfolding after_try
  after_try-Wrote left rest (true, s) w = nothing s
  after_try-Wrote left rest (false, s) w =
      Wrote-trans (pause-Wrote left s) (after_pause-Wrote rest (pause left s) w)

  retry-Wrote : (left : ℕ) (s : State) → Wrote s (retry f left s).1
  unfolding retry
  retry-Wrote zero s = nothing s
  retry-Wrote (suc left) s =
      Wrote-trans (f-Wrote s) (after_try-Wrote left (retry f left) (f s) (retry-Wrote left))

pub insert_with_retry-Wrote :
    (rows : List PageViewRow) (s : State) → Wrote s (insert_with_retry rows s).1
unfolding insert_with_retry
insert_with_retry-Wrote rows = retry-Wrote (insert_raw_batch rows) (insert_raw_batch-Wrote rows) 5

pub handle_error_with_retry-Wrote :
    (p : Producer) (m : Message) (e : ValidationError) (s : State)
    → Wrote s (handle_error_with_retry p m e s).1
unfolding handle_error_with_retry
handle_error_with_retry-Wrote p m e = retry-Wrote (handle_error p m e) (handle_error-Wrote p m e) 10
