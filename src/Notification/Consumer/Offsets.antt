-- ===== src/Notification/Consumer/Offsets.antt =====
-- The saves of gw-notification/internal/consumer/consumer.go, and the positions that they move.
use wallet_service.Base.{
  ℕ, zero, suc, ◌+◌, ◌≡◌, refl, ap, ◌∙◌, ◌⊎◌, inl, inr, Bool, Bool-cases, true, false, Option, none,
  some, List, [], ◌∷◌, ◌++◌, arith,
}
use wallet_service.Base.Result.{Result, ok, err}
use wallet_service.Sql.{refused}
use wallet_service.Notification.Store.{
  LargeTransactionEvent, MongoError, duplicate_key, other_error, has_id, insert_large_transaction,
  set_consumer_offset,
}
use wallet_service.Notification.Store.Unique.{insert_ok-stored, insert_duplicate-stored}
use wallet_service.Notification.Consumer.{
  Message, got, State, look_at_context, Attempt, gave_up, stored, failed_once, judged, insert_into,
  insert_unless, attempt, pause, after_pause, after_attempt, save_loop, commit, save_with_retry,
  save_with_retry_simple, handle_in_group, handle_simple, read_all, run_with_reader_and_save_offset,
}

-- The event is in the collection.
abbrev pub IsStored : LargeTransactionEvent → State → Type 0
IsStored ev s = has_id ev.transaction_id s.store.documents ≡ true

module _ (ev : LargeTransactionEvent) where
  judged-IsStored :
      (q : Result MongoError Unit × State)
      → (q.0 ≡ ok tt → IsStored ev q.1)
      → (q.0 ≡ err duplicate_key → IsStored ev q.1)
      → (judged q).0 ≡ stored
      → IsStored ev (judged q).1
  judged-IsStored (ok _, s) new old h = new refl
  judged-IsStored (err duplicate_key, s) new old h = old refl
  judged-IsStored (err other_error, s) new old h = ground arith

  insert_unless-IsStored :
      (q : Bool × State) → (insert_unless q ev).0 ≡ stored → IsStored ev (insert_unless q ev).1
  insert_unless-IsStored (true, s) h = ground arith
  insert_unless-IsStored (false, s) h =
      judged-IsStored (insert_into ev s) (insert_ok-stored ev s.store)
        (insert_duplicate-stored ev s.store) h

  after_pause-IsStored :
      (rest : State → Bool × State) (q : Bool × State)
      → ((s : State) → (rest s).0 ≡ true → IsStored ev (rest s).1)
      → (after_pause rest q).0 ≡ true
      → IsStored ev (after_pause rest q).1
  after_pause-IsStored rest (true, s) keeps h = ground arith
  after_pause-IsStored rest (false, s) keeps h = keeps s h

  after_attempt-IsStored :
      (saved : State → State) (left : ℕ) (rest : State → Bool × State) (q : Attempt × State)
      → ((s : State) → (saved s).store ≡ s.store)
      → ((s : State) → (rest s).0 ≡ true → IsStored ev (rest s).1)
      → (q.0 ≡ stored → IsStored ev q.1)
      → (after_attempt saved left rest q).0 ≡ true
      → IsStored ev (after_attempt saved left rest q).1
  unfolding after_attempt
  after_attempt-IsStored saved left rest (gave_up, s) same keeps now h = ground arith
  after_attempt-IsStored saved left rest (stored, s) same keeps now h = rw (same s) (now refl)
  after_attempt-IsStored saved left rest (failed_once, s) same keeps now h =
      after_pause-IsStored rest (pause left s) keeps h

  save_loop-IsStored :
      (saved : State → State) (left : ℕ)
      → ((s : State) → (saved s).store ≡ s.store)
      → (s : State) → (save_loop saved ev left s).0 ≡ true
      → IsStored ev (save_loop saved ev left s).1
  unfolding save_loop attempt
  save_loop-IsStored saved zero same s h = ground arith
  save_loop-IsStored saved (suc left) same s h =
      after_attempt-IsStored saved left (save_loop saved ev left) (attempt ev s) same
        (save_loop-IsStored saved left same) (insert_unless-IsStored (look_at_context s)) h

store-commit : (m : Message) (s : State) → (commit m s).store ≡ s.store
unfolding commit
store-commit m s = ground arith

-- saveWithRetry reports success only when the event is in the collection, inserted now or found there
-- as a duplicate; this holds whatever Mongo does and whenever the context ends.
pub save_with_retry-IsStored :
    (m : Message) (ev : LargeTransactionEvent) (s : State)
    → (save_with_retry m ev s).0 ≡ true
    → IsStored ev (save_with_retry m ev s).1
unfolding save_with_retry
save_with_retry-IsStored m ev s = save_loop-IsStored ev (commit m) 5 (store-commit m) s

-- saveWithRetrySimple reports success only when the event is in the collection, inserted now or found
-- there as a duplicate; this holds whatever Mongo does and whenever the context ends.
save_with_retry_simple-IsStored :
    (ev : LargeTransactionEvent) (s : State)
    → (save_with_retry_simple ev s).0 ≡ true
    → IsStored ev (save_with_retry_simple ev s).1
unfolding save_with_retry_simple
save_with_retry_simple-IsStored ev s = save_loop-IsStored ev (λ s'. s') 5 (λ s'. refl) s

-- The group's position.
module _ (ev : LargeTransactionEvent) where
  committed-look : (s : State) → (look_at_context s).1.committed ≡ s.committed
  unfolding look_at_context
  committed-look s = ground arith

  committed-pause : (left : ℕ) (s : State) → (pause left s).1.committed ≡ s.committed
  committed-pause zero s = refl
  committed-pause (suc left) s = committed-look s

  committed-judged : (q : Result MongoError Unit × State) → (judged q).1.committed ≡ q.1.committed
  committed-judged (ok _, s) = refl
  committed-judged (err duplicate_key, s) = refl
  committed-judged (err other_error, s) = refl

  committed-insert_unless : (q : Bool × State) → (insert_unless q ev).1.committed ≡ q.1.committed
  committed-insert_unless (true, s) = refl
  committed-insert_unless (false, s) = committed-judged (insert_into ev s)

  committed-attempt : (s : State) → (attempt ev s).1.committed ≡ s.committed
  unfolding attempt
  committed-attempt s = rw (committed-insert_unless (look_at_context s), committed-look s) refl

  committed-after_pause :
      (rest : State → Bool × State) (q : Bool × State)
      → ((s : State) → (rest s).0 ≡ false → (rest s).1.committed ≡ s.committed)
      → (after_pause rest q).0 ≡ false
      → (after_pause rest q).1.committed ≡ q.1.committed
  committed-after_pause rest (true, s) keeps h = refl
  committed-after_pause rest (false, s) keeps h = keeps s h

  committed-after_attempt :
      (saved : State → State) (left : ℕ) (rest : State → Bool × State) (q : Attempt × State)
      → ((s : State) → (rest s).0 ≡ false → (rest s).1.committed ≡ s.committed)
      → (after_attempt saved left rest q).0 ≡ false
      → (after_attempt saved left rest q).1.committed ≡ q.1.committed
  unfolding after_attempt
  committed-after_attempt saved left rest (gave_up, s) keeps h = refl
  committed-after_attempt saved left rest (stored, s) keeps h = ground arith
  committed-after_attempt saved left rest (failed_once, s) keeps h =
      rw (committed-after_pause rest (pause left s) keeps h) (committed-pause left s)

  committed-save_loop :
      (saved : State → State) (left : ℕ) (s : State)
      → (save_loop saved ev left s).0 ≡ false
      → (save_loop saved ev left s).1.committed ≡ s.committed
  unfolding save_loop
  committed-save_loop saved zero s h = refl
  committed-save_loop saved (suc left) s h =
      rw
        (committed-after_attempt saved left (save_loop saved ev left) (attempt ev s)
          (committed-save_loop saved left) h)
        (committed-attempt s)

-- The group mode: whatever happens while one message is handled, its event is in the collection
-- afterwards, or the group's committed position is where it was, so that handling it has committed
-- nothing. (A later message's commit may go beyond it all the same.)
pub handle_in_group-commits :
    (m : Message) (ev : LargeTransactionEvent) (s : State)
    → IsStored ev (handle_in_group (some ev) m s)
      ⊎ ((handle_in_group (some ev) m s).committed ≡ s.committed)
unfolding save_with_retry
handle_in_group-commits m ev s = elim (Bool-cases (save_with_retry m ev s).0) [
  | inl e ↦ inl (save_with_retry-IsStored m ev s e)
  | inr e ↦ inr (committed-save_loop ev (commit m) 5 s e)
]

-- Mongo is down for the next five inserts.
abbrev pub mongo_down : List LargeTransactionEvent → Option ℕ → State
mongo_down ds o = record {
  store = record {
    documents = ds;
    offset = o;
    faults = refused ∷ refused ∷ refused ∷ refused ∷ refused ∷ [];
  };
  done = [];
  committed = none;
  commits = [];
}

abbrev mongo_up : List LargeTransactionEvent → Option ℕ → State
mongo_up ds o = record {
  store = record { documents = ds; offset = o; faults = [] };
  done = [];
  committed = none;
  commits = [];
}

module _ (ds : List LargeTransactionEvent) (o : Option ℕ) (ev : LargeTransactionEvent) where
  attempt_up :
      has_id ev.transaction_id ds ≡ false
      → attempt ev (mongo_up ds o) ≡ (stored, mongo_up (ds ++ ev ∷ []) o)
  unfolding attempt look_at_context insert_large_transaction
  attempt_up new = rw new refl

  handle_simple_up :
      (m : Message)
      → has_id ev.transaction_id ds ≡ false
      → handle_simple (some ev) m (mongo_up ds o) ≡ mongo_up (ds ++ ev ∷ []) (some (m.offset + 1))
  unfolding save_with_retry_simple save_loop set_consumer_offset
  handle_simple_up m new = rw (attempt_up new) refl

  handle_simple_down : (m : Message) → handle_simple (some ev) m (mongo_down ds o) ≡ mongo_up ds o
  unfolding save_with_retry_simple save_loop attempt look_at_context insert_large_transaction
  handle_simple_down m = refl

-- The simple mode with Mongo down for five inserts: a message whose five attempts fail is left, and
-- when the next message is saved the offset goes behind both, while the collection has got the
-- second event alone. The condition is that the second event is new.
pub later_save_skips_failed :
    (ds : List LargeTransactionEvent) (o : Option ℕ) (m1 m2 : Message)
    (ev1 ev2 : LargeTransactionEvent)
    → m1.event ≡ some ev1
    → m2.event ≡ some ev2
    → has_id ev2.transaction_id ds ≡ false
    → (run_with_reader_and_save_offset (got m1 ∷ got m2 ∷ []) (mongo_down ds o)).store
      ≡ record { documents = ds ++ ev2 ∷ []; offset = some (m2.offset + 1); faults = [] }
unfolding run_with_reader_and_save_offset read_all
later_save_skips_failed ds o m1 m2 ev1 ev2 is1 is2 new =
    let first =
      ap (λ e. handle_simple e m1 (mongo_down ds o)) is1 ∙ handle_simple_down ds o ev1 m1 in
    ap (λ s. s.store)
      (ap (handle_simple m2.event m2) first
        ∙ ap (λ e. handle_simple e m2 (mongo_up ds o)) is2
        ∙ handle_simple_up ds o ev2 m2 new)
