-- ===== src/Notification/Delivery.antt =====
-- An event from Publish of gw-currency-wallet/internal/kafka/publisher.go to the collection of
-- gw-notification, in the simple mode.
use wallet_service.Base.{
  ℕ, zero, suc, ◌+◌, String, ◌≡◌, ◌∙◌, refl, sym, ap, true, false, eq_refl, Option, none, some,
  List, [], ◌∷◌, ◌++◌, arith,
}
use wallet_service.Wallet.Money.{Float}
use wallet_service.Wallet.Publisher as Publisher
use wallet_service.Wallet.Publisher.{Broker, copies, event_of, publish}
use wallet_service.Wallet.Publisher.Retries.{publish-copies}
use wallet_service.Notification.Store.{
  LargeTransactionEvent, has_id, insert_large_transaction, set_consumer_offset, next_delivery,
}
use wallet_service.Notification.Store.Unique.{has_id-append}
use wallet_service.Notification.Consumer.{
  Message, Fetch, got, State, read_all, handle_simple, run_with_reader_and_save_offset,
  save_with_retry_simple, look_at_context,
}

-- Both structs have the same fields with the same JSON keys.
abbrev pub received : Publisher.LargeTransactionEvent → LargeTransactionEvent
received ev = record {
  transaction_id = ev.transaction_id;
  user_id = ev.user_id;
  kind = ev.kind;
  amount = ev.amount;
  currency = ev.currency;
  created_at = ev.created_at;
}

-- What a reader fetches of messages that begin at an offset.
abbrev pub fetches : ℕ → List Publisher.LargeTransactionEvent → List Fetch
fetches n [] = []
fetches n (ev ∷ evs) = got (record { offset = n; event = some (received ev) }) ∷ fetches (suc n) evs

-- Mongo answers every call, and the context is not done.
abbrev pub mongo_up : List LargeTransactionEvent → Option ℕ → State
mongo_up documents offset = record {
  store = record { documents = documents; offset = offset; faults = [] };
  done = [];
  committed = none;
  commits = [];
}

module _ (ev : LargeTransactionEvent) (m : Message) (documents : List LargeTransactionEvent)
    (offset : Option ℕ) where
  pub save_new :
      has_id ev.transaction_id documents ≡ false
      → handle_simple (some ev) m (mongo_up documents offset)
        ≡ mongo_up (documents ++ ev ∷ []) (some (m.offset + 1))
  unfolding save_with_retry_simple insert_large_transaction set_consumer_offset next_delivery
      look_at_context
  save_new h = rw h refl

  pub save_again :
      has_id ev.transaction_id documents ≡ true
      → handle_simple (some ev) m (mongo_up documents offset)
        ≡ mongo_up documents (some (m.offset + 1))
  unfolding save_with_retry_simple insert_large_transaction set_consumer_offset next_delivery
      look_at_context
  save_again h = rw h refl

has_id-appended :
    (ev : LargeTransactionEvent) (documents : List LargeTransactionEvent)
    → has_id ev.transaction_id (documents ++ ev ∷ []) ≡ true
has_id-appended ev documents =
    ground (arith, has_id-append ev.transaction_id documents ev, eq_refl ev.transaction_id)

-- Copies of a stored event only move the offset.
copies_are_skipped :
    (ev : Publisher.LargeTransactionEvent) (documents : List LargeTransactionEvent)
    → has_id ev.transaction_id documents ≡ true
    → (n start : ℕ)
    → run_with_reader_and_save_offset
        (fetches start (copies n ev))
        (mongo_up documents (some start))
      ≡ mongo_up documents (some (start + n))
unfolding run_with_reader_and_save_offset read_all
copies_are_skipped ev documents h zero start = ap (λ k. mongo_up documents (some k)) (omega arith)
copies_are_skipped ev documents h (suc n) start =
    ap (run_with_reader_and_save_offset (fetches (suc start) (copies n ev))) (
      save_again (received ev) (record { offset = start; event = some (received ev) }) documents
        (some start) h
      ∙ ap (λ k. mongo_up documents (some k)) (omega arith))
    ∙ copies_are_skipped ev documents h n (suc start)
    ∙ ap (λ k. mongo_up documents (some k)) (omega arith)

append_nil : (documents : List LargeTransactionEvent) → documents ++ [] ≡ documents
append_nil [] = refl
append_nil (d ∷ ds) = ap (λ l. d ∷ l) (append_nil ds)

-- What the collection gains of the copies of one event.
abbrev pub once : ℕ → LargeTransactionEvent → List LargeTransactionEvent
once zero ev = []
once (suc n) ev = ev ∷ []

copies_are_stored_once :
    (ev : Publisher.LargeTransactionEvent) (documents : List LargeTransactionEvent)
    → has_id ev.transaction_id documents ≡ false
    → (n start : ℕ)
    → run_with_reader_and_save_offset
        (fetches start (copies n ev))
        (mongo_up documents (some start))
      ≡ mongo_up (documents ++ once n (received ev)) (some (start + n))
unfolding run_with_reader_and_save_offset read_all
copies_are_stored_once ev documents h zero start =
    ap (λ l. mongo_up l (some start)) (sym (append_nil documents))
    ∙ ap (λ k. mongo_up (documents ++ []) (some k)) (omega arith)
copies_are_stored_once ev documents h (suc n) start =
    ap (run_with_reader_and_save_offset (fetches (suc start) (copies n ev))) (
      save_new (received ev) (record { offset = start; event = some (received ev) }) documents
        (some start) h
      ∙ ap (λ k. mongo_up (documents ++ received ev ∷ []) (some k)) (omega arith))
    ∙ copies_are_skipped ev (documents ++ received ev ∷ [])
        (has_id-appended (received ev) documents) n (suc start)
    ∙ ap (λ k. mongo_up (documents ++ received ev ∷ []) (some k)) (omega arith)

-- What one Publish appends to the topic is in the collection once when the consumer has read it: the
-- events appended are copies of one event, as many as its attempts brought, and a consumer in the simple
-- mode that reads them from the saved offset on stores that event if there is a copy and nothing else,
-- and saves the offset behind the last copy. This is while Mongo answers and the context is not done,
-- for a transaction id that no document has yet.
pub published_once :
    (p : Publisher.Publisher) (user : ℕ) (kind currency : String) (amount : Float) (b : Broker)
    (documents : List LargeTransactionEvent) (start : ℕ)
    → has_id (b.uuid b.drawn) documents ≡ false
    → (n : ℕ) × ((publish (some p) user kind currency amount b).events
        ≡ b.events ++ copies n (event_of user kind currency amount b))
      × (run_with_reader_and_save_offset
            (fetches start (copies n (event_of user kind currency amount b)))
            (mongo_up documents (some start))
          ≡ mongo_up
              (documents ++ once n (received (event_of user kind currency amount b)))
              (some (start + n)))
unfolding event_of
published_once p user kind currency amount b documents start h =
    let sent = publish-copies p user kind currency amount b in
    (
      sent.0,
      sent.3,
      copies_are_stored_once (event_of user kind currency amount b) documents h sent.0 start,
    )
