-- ===== src/Notification/Consumer.antt =====
-- gw-notification/internal/consumer/consumer.go: reading events from Kafka into Mongo. What each
-- fetch brings, when the context is done, and what becomes of each commit are inputs.
pub mod Offsets
use wallet_service.Base.{
  ℕ, zero, suc, ◌+◌, String, Bool, true, false, ◌==◌, ltb, Option, none, some, List, [], ◌∷◌, map,
  if◌then◌else◌,
}
use wallet_service.Base.Result.{Result, ok, err}
use wallet_service.Sql.{Delivery, answered, refused, lost}
use wallet_service.Notification.Store.{
  LargeTransactionEvent, Store, MongoError, duplicate_key, other_error, insert_large_transaction,
  get_consumer_offset, set_consumer_offset,
}

-- A message: its offset, and the event that its value decodes to, if it does.
pub record Message : Type 0 where
  pub offset : ℕ
  pub event : Option LargeTransactionEvent

-- What FetchMessage returns.
pub data Fetch : Type 0 where
  got : Message → Fetch
  eof other_failure cancelled : Fetch

-- The store; whether the context is done at each coming look at it (not, past the end); the group's
-- committed offset, and what becomes of the coming commits.
pub record State : Type 0 where
  pub store : Store
  pub done : List Bool
  pub committed : Option ℕ
  pub commits : List Delivery

abbrev pub pop_done : List Bool → State → Bool × State
pop_done [] s = (false, s)
pop_done (d ∷ ds) s = (d, record s { done = ds })

-- `ctx.Err() != nil`, and the choice of a `select` between a timer and the context.
unfoldable pub look_at_context : State → Bool × State
look_at_context s = pop_done s.done s

abbrev pub pop_commit : List Delivery → State → Delivery × State
pop_commit [] s = (answered, s)
pop_commit (d ∷ ds) s = (d, record s { commits = ds })

abbrev pub deliver_commit : Delivery × State → ℕ → State
deliver_commit (answered, s) n = record s { committed = some n }
deliver_commit (refused, s) n = s
deliver_commit (lost, s) n = record s { committed = some n }

-- reader.CommitMessages: the group goes on behind the message. An error is only logged.
unfoldable pub commit : Message → State → State
commit m s = deliver_commit (pop_commit s.commits s) (suc m.offset)

abbrev pub retry_attempts : ℕ
retry_attempts = 5

abbrev pub insert_into : LargeTransactionEvent → State → Result MongoError Unit × State
insert_into ev s =
    let (r, store) = insert_large_transaction ev s.store in (r, record s { store = store })

-- How one round of the retry loop went: the context was done, the event is in the store (now, or
-- as a duplicate), or Mongo failed.
pub data Attempt : Type 0 where
  gave_up stored failed_once : Attempt

abbrev pub judged : Result MongoError Unit × State → Attempt × State
judged (ok _, s) = (stored, s)
judged (err duplicate_key, s) = (stored, s)
judged (err other_error, s) = (failed_once, s)

abbrev pub insert_unless : Bool × State → LargeTransactionEvent → Attempt × State
insert_unless (true, s) ev = (gave_up, s)
insert_unless (false, s) ev = judged (insert_into ev s)

unfoldable pub attempt : LargeTransactionEvent → State → Attempt × State
unfolding look_at_context insert_large_transaction
attempt ev s = insert_unless (look_at_context s) ev

-- Whether to stop behind a failure: after the last attempt, or when the context is done while the
-- loop waits.
abbrev pub pause : ℕ → State → Bool × State
pause zero s = (true, s)
pause (suc left) s = look_at_context s

-- What follows the wait: the end, or the rest of the loop.
abbrev pub after_pause : (State → Bool × State) → Bool × State → Bool × State
after_pause rest (true, s) = (false, s)
after_pause rest (false, s) = rest s

abbrev pub after_attempt :
    (State → State) → ℕ → (State → Bool × State) → Attempt × State → Bool × State
unfolding look_at_context
after_attempt saved left rest (gave_up, s) = (false, s)
after_attempt saved left rest (stored, s) = (true, saved s)
after_attempt saved left rest (failed_once, s) = after_pause rest (pause left s)

-- The loop of saveWithRetry and saveWithRetrySimple with the attempts left; what is done once the
-- event is in the store is an argument.
unfoldable pub save_loop : (State → State) → LargeTransactionEvent → ℕ → State → Bool × State
unfolding attempt look_at_context
save_loop saved ev zero s = (false, s)
save_loop saved ev (suc left) s = after_attempt saved left (save_loop saved ev left) (attempt ev s)

-- saveWithRetry: a message that is stored is committed.
unfoldable pub save_with_retry : Message → LargeTransactionEvent → State → Bool × State
unfolding save_loop commit
save_with_retry m ev s = save_loop (commit m) ev retry_attempts s

unfoldable pub save_with_retry_simple : LargeTransactionEvent → State → Bool × State
unfolding save_loop
save_with_retry_simple ev s = save_loop (λ s'. s') ev retry_attempts s

-- The body of runWithReader for a message; a value that does not decode is skipped.
abbrev pub handle_in_group : Option LargeTransactionEvent → Message → State → State
handle_in_group none m s = s
handle_in_group (some ev) m s = (save_with_retry m ev s).1

abbrev pub save_offset : Bool × State → Message → State
save_offset (false, s) m = s
save_offset (true, s) m = record s { store = (set_consumer_offset (m.offset + 1) s.store).1 }

-- The body of runWithReaderAndSaveOffset for a message.
abbrev pub handle_simple : Option LargeTransactionEvent → Message → State → State
handle_simple none m s = s
handle_simple (some ev) m s = save_offset (save_with_retry_simple ev s) m

-- The loop over what a reader fetches, until it ends.
unfoldable pub read_all : (Message → State → State) → List Fetch → State → State
read_all handle [] s = s
read_all handle (got m ∷ fs) s = read_all handle fs (handle m s)
read_all handle (eof ∷ fs) s = s
read_all handle (other_failure ∷ fs) s = read_all handle fs s
read_all handle (cancelled ∷ fs) s = s

unfoldable pub run_with_reader : List Fetch → State → State
unfolding read_all save_with_retry
run_with_reader = read_all (λ m. handle_in_group m.event m)

unfoldable pub run_with_reader_and_save_offset : List Fetch → State → State
unfolding read_all save_with_retry_simple set_consumer_offset
run_with_reader_and_save_offset = read_all (λ m. handle_simple m.event m)

-- Where a new reader starts: at the saved offset; an error leaves it where readers start, at the
-- first offset.
abbrev pub start_at : Result MongoError ℕ × Store → ℕ × Store
start_at (ok n, s) = (n, s)
start_at (err e, s) = (0, s)

-- Between two readers the context is looked at once more, and again while the loop waits.
abbrev pub wait : Bool × State → Bool × State
unfolding look_at_context
wait (true, s) = (true, s)
wait (false, s) = look_at_context s

abbrev pub unless_done : Bool × State → (State → State) → State
unless_done (true, s) f = s
unless_done (false, s) f = f s

-- The reconnecting loop of both modes: one session after another, until the context is done.
unfoldable pub reconnect : List (State → State) → State → State
unfolding look_at_context wait
reconnect [] s = s
reconnect (session ∷ sessions) s =
    let rest = reconnect sessions in
    unless_done (look_at_context s) (λ s1. unless_done (wait (look_at_context (session s1))) rest)

-- A session of runSimpleConsumer. The argument says what a reader fetches from an offset on.
unfoldable pub simple_session : (ℕ → List Fetch) → State → State
unfolding run_with_reader_and_save_offset get_consumer_offset
simple_session reader s =
    let (start, store) = start_at (get_consumer_offset s.store) in
    run_with_reader_and_save_offset (reader start) (record s { store = store })

unfoldable pub run_simple_consumer : List (ℕ → List Fetch) → State → State
unfolding reconnect simple_session
run_simple_consumer readers = reconnect (map simple_session readers)

-- The group's readers start behind what is committed, or at the first offset.
abbrev pub group_start : Option ℕ → ℕ
group_start none = 0
group_start (some n) = n

unfoldable pub group_session : (ℕ → List Fetch) → State → State
unfolding run_with_reader
group_session reader s = run_with_reader (reader (group_start s.committed)) s

unfoldable pub run_group_consumer : List (ℕ → List Fetch) → State → State
unfolding reconnect group_session
run_group_consumer readers = reconnect (map group_session readers)

-- Run chooses by `UseConsumerGroup`.
unfoldable pub run : Bool → List (ℕ → List Fetch) → State → State
unfolding run_group_consumer run_simple_consumer
run use_group readers =
    if use_group then run_group_consumer readers else run_simple_consumer readers
