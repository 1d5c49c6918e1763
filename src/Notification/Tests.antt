-- ===== src/Notification/Tests.antt =====
-- Runs of the notification service, and the theorems at them.
use wallet_service.Base.{ℕ, ◌+◌, String, ◌≡◌, refl, ◌⊎◌, none, some, List, [], ◌∷◌, ◌++◌, map}
use wallet_service.Base.Int.{pos}
use wallet_service.Wallet.Money.{whole}
use wallet_service.Wallet.Publisher as Publisher
use wallet_service.Wallet.Publisher.{unacknowledged, copies, event_of, publish}
use wallet_service.Notification.Collected.{run_twice-collected}
use wallet_service.Notification.Delivery.{received, fetches, mongo_up, once, published_once}
use wallet_service.Sql.{answered, refused, lost}
use wallet_service.Notification.Store.{LargeTransactionEvent, has_id}
use wallet_service.Notification.Consumer.{
  Message, got, State, save_with_retry, handle_in_group, run_with_reader_and_save_offset,
}
use wallet_service.Notification.Consumer.Offsets.{
  IsStored, save_with_retry-IsStored, handle_in_group-commits, later_save_skips_failed, mongo_down,
}

abbrev event : String → LargeTransactionEvent
event id = record {
  transaction_id = id;
  user_id = 1;
  kind = "deposit";
  amount = pos 5;
  currency = "USD";
  created_at = "t";
}

abbrev message : ℕ → String → Message
message n id = record { offset = n; event = some (event id) }

-- A broker that takes the first write without an acknowledgement; the topic gets the event three times.
abbrev publisher : Publisher.Publisher
publisher = record {
  brokers = "kafka:9092" ∷ [];
  topic = "large_transactions";
  threshold = whole 3;
  retries = 3;
  backoff_ms = 200;
  timeout_ms = 2000;
}

abbrev broker : Publisher.Broker
broker = record {
  events = [];
  writes = unacknowledged 2 ∷ [];
  pauses = [];
  waited = [];
  uuid = λ _. "u";
  stamp = λ _. "t";
  drawn = 0;
}

-- One transaction is stored; the next insert is refused, and one after it loses its answer.
abbrev state : State
state = record {
  store = record {
    documents = event "a" ∷ [];
    offset = none;
    faults = refused ∷ answered ∷ lost ∷ [];
  };
  done = [];
  committed = none;
  commits = [];
}

-- One message decodes to nothing.
abbrev twice_b : List Message
twice_b = message 1 "b" ∷ record { offset = 2; event = none } ∷ message 3 "b" ∷ []

save_with_retry-IsStored_example :
    IsStored (event "b") (save_with_retry (message 1 "b") (event "b") state).1
unfolding save_with_retry has_id
save_with_retry-IsStored_example = save_with_retry-IsStored (message 1 "b") (event "b") state refl

handle_in_group-commits_example :
    IsStored (event "b") (handle_in_group (some (event "b")) (message 1 "b") state)
    ⊎ ((handle_in_group (some (event "b")) (message 1 "b") state).committed ≡ none)
handle_in_group-commits_example = handle_in_group-commits (message 1 "b") (event "b") state

later_save_skips_failed_example :
    (run_with_reader_and_save_offset
      (got (message 1 "b") ∷ got (message 2 "c") ∷ [])
      (mongo_down (event "a" ∷ []) none)).store
    ≡ record { documents = (event "a" ∷ []) ++ event "c" ∷ []; offset = some (2 + 1); faults = [] }
unfolding has_id
later_save_skips_failed_example =
    later_save_skips_failed (event "a" ∷ []) none (message 1 "b") (message 2 "c") (event "b")
      (event "c") refl refl refl

published_once_example :
    (n : ℕ) × ((publish (some publisher) 1 "deposit" "USD" (whole 5) broker).events
      ≡ [] ++ copies n (event_of 1 "deposit" "USD" (whole 5) broker))
    × (run_with_reader_and_save_offset
          (fetches 7 (copies n (event_of 1 "deposit" "USD" (whole 5) broker)))
          (mongo_up (event "a" ∷ []) (some 7))
        ≡ mongo_up
            ((event "a" ∷ []) ++ once n (received (event_of 1 "deposit" "USD" (whole 5) broker)))
            (some (7 + n)))
unfolding has_id
published_once_example =
    published_once publisher 1 "deposit" "USD" (whole 5) broker (event "a" ∷ []) 7 refl

run_twice-collected_example :
    (run_with_reader_and_save_offset (map got twice_b) (mongo_up (event "a" ∷ []) (some 0))
      ≡ mongo_up (event "a" ∷ event "b" ∷ []) (some 4))
    × ((run_with_reader_and_save_offset
          (map got twice_b)
          (mongo_up (event "a" ∷ event "b" ∷ []) (some 0))).store.documents
        ≡ event "a" ∷ event "b" ∷ [])
unfolding has_id
run_twice-collected_example = run_twice-collected twice_b (event "a" ∷ []) 0
