-- ===== src/Aggregator/Pipeline/Success.antt =====
-- insertWithRetry and handleErrorWithRetry of pv-aggregator/internal/kafka/consumer.go: when they
-- report success.
use wallet_service.Base.{ℕ, zero, suc, ◌≡◌, refl, Bool, true, false, List, ◌∷◌, ◌++◌, Memᴰ, arith}
use mathlib.Core.List.Memᴰ
use wallet_service.Sql.{Delivery, answered, refused, lost}
use wallet_service.Aggregator.Event.{Message, PageViewRow, ValidationError}
use wallet_service.Aggregator.Dlq.{Producer}
use wallet_service.Aggregator.Pipeline.{
  State, ErrorRow, error_row, next_delivery, deliver, insert_raw_batch, insert_error, send_letter,
  after_send, count_letter, handle_error, pause, after_pause, after_try, retry,
  handle_error_with_retry, insert_with_retry,
}

-- A retry loop that succeeds has had a round that succeeded.
module _ (f : State → Bool × State) (Q : State → Type 0)
    (f-Q : (s : State) → (f s).0 ≡ true → Q (f s).1) where
  after_pause-ensures :
      (rest : State → Bool × State) (q : Bool × State)
      → ((s : State) → (rest s).0 ≡ true → Q (rest s).1)
      → (after_pause rest q).0 ≡ true
      → Q (after_pause rest q).1
  after_pause-ensures rest (true, s) w h = ground arith
  after_pause-ensures rest (false, s) w h = w s h

  after_try-ensures :
      (left : ℕ) (rest : State → Bool × State) (q : Bool × State)
      → (q.0 ≡ true → Q q.1)
      → ((s : State) → (rest s).0 ≡ true → Q (rest s).1)
      → (after_try left rest q).0 ≡ true
      → Q (after_try left rest q).1
  unfolding after_try
  after_try-ensures left rest (true, s) now w h = now refl
  after_try-ensures left rest (false, s) now w h = after_pause-ensures rest (pause left s) w h

  retry-ensures : (left : ℕ) (s : State) → (retry f left s).0 ≡ true → Q (retry f left s).1
  unfolding retry
  retry-ensures zero s h = ground arith
  retry-ensures (suc left) s h =
      after_try-ensures left (retry f left) (f s) (f-Q s) (retry-ensures left) h

deliver-ensures :
    (q : Delivery × State) (f : State → State) (Q : State → Type 0)
    → ((s : State) → Q (f s))
    → (deliver q f).0 ≡ true
    → Q (deliver q f).1
deliver-ensures (answered, s) f Q w h = w s
deliver-ensures (refused, s) f Q w h = ground arith
deliver-ensures (lost, s) f Q w h = ground arith

-- When insertWithRetry reports success, every row it was given is in page_views_raw.
pub insert_with_retry-stored :
    (rows : List PageViewRow) (s : State)
    → (insert_with_retry rows s).0 ≡ true
    → (r : PageViewRow) → Memᴰ r rows
    → Memᴰ r (insert_with_retry rows s).1.page_views_raw
unfolding insert_with_retry insert_raw_batch
insert_with_retry-stored rows s h r m =
    retry-ensures (insert_raw_batch rows) (λ s'. Memᴰ r s'.page_views_raw)
      (λ s'.
        deliver-ensures (next_delivery s')
          (λ s1. record s1 { page_views_raw = rows ++ s1.page_views_raw })
          (λ s1. Memᴰ r s1.page_views_raw) (λ s1. Memᴰ.append_left s1.page_views_raw m))
      5 s h

after_send-ensures :
    (insert : State → Bool × State) (q : Bool × State) (Q : State → Type 0)
    → ((s : State) → (insert s).0 ≡ true → Q (insert s).1)
    → (after_send insert q).0 ≡ true
    → Q (after_send insert q).1
after_send-ensures insert (false, s) Q w h = ground arith
after_send-ensures insert (true, s) Q w h = w s h

count_letter-ensures :
    (q : Bool × State) (e : ErrorRow)
    → (q.0 ≡ true → Memᴰ e q.1.processing_errors)
    → (count_letter q).0 ≡ true
    → Memᴰ e (count_letter q).1.processing_errors
count_letter-ensures (false, s) e w h = ground arith
count_letter-ensures (true, s) e w h = w refl

handle_error-stored :
    (p : Producer) (m : Message) (e : ValidationError) (s : State)
    → (handle_error p m e s).0 ≡ true
    → Memᴰ (error_row m e) (handle_error p m e s).1.processing_errors
unfolding handle_error insert_error
handle_error-stored p m e s =
    count_letter-ensures (after_send (insert_error m e) (send_letter p m s)) (error_row m e) (
      after_send-ensures (insert_error m e) (send_letter p m s)
        (λ s'. Memᴰ (error_row m e) s'.processing_errors)
        (λ s'.
          deliver-ensures (next_delivery s')
            (λ s1. record s1 { processing_errors = error_row m e ∷ s1.processing_errors })
            (λ s1. Memᴰ (error_row m e) s1.processing_errors) (λ s1. Memᴰ.head refl)))

-- When handleErrorWithRetry reports success, the row of the error is in processing_errors.
pub handle_error_with_retry-stored :
    (p : Producer) (m : Message) (e : ValidationError) (s : State)
    → (handle_error_with_retry p m e s).0 ≡ true
    → Memᴰ (error_row m e) (handle_error_with_retry p m e s).1.processing_errors
unfolding handle_error_with_retry
handle_error_with_retry-stored p m e s =
    retry-ensures (handle_error p m e) (λ s'. Memᴰ (error_row m e) s'.processing_errors)
      (handle_error-stored p m e) 10 s
