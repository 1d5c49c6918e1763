-- ===== src/Notification/Collected.antt =====
-- The simple mode of gw-notification/internal/consumer/consumer.go while Mongo answers.
use wallet_service.Base.{
  ℕ, ◌+◌, String, ◌≡◌, ◌∙◌, refl, sym, ap, All, true, Bool-cases, Option, none, some, List, [], ◌∷◌,
  ◌++◌, map, arith, inl, inr, eq_refl, if◌then◌else◌,
}
use wallet_service.Notification.Store.{LargeTransactionEvent, has_id}
use wallet_service.Notification.Store.Unique.{has_id-append}
use wallet_service.Notification.Consumer.{
  State, Message, got, read_all, handle_simple, run_with_reader_and_save_offset,
}
use wallet_service.Notification.Delivery.{mongo_up, save_new, save_again}

-- The first event of each transaction id, behind what is there.
abbrev pub add_new :
    Option LargeTransactionEvent → List LargeTransactionEvent → List LargeTransactionEvent
add_new none documents = documents
add_new (some ev) documents =
    if has_id ev.transaction_id documents then documents else documents ++ ev ∷ []

abbrev pub collected : List Message → List LargeTransactionEvent → List LargeTransactionEvent
collected [] documents = documents
collected (m ∷ ms) documents = collected ms (add_new m.event documents)

-- The offset behind the last message that decodes.
abbrev pub next_offset : Option LargeTransactionEvent → ℕ → ℕ → ℕ
next_offset none at offset = offset
next_offset (some ev) at offset = at + 1

abbrev pub behind : List Message → ℕ → ℕ
behind [] offset = offset
behind (m ∷ ms) offset = behind ms (next_offset m.event m.offset offset)

one_message :
    (e : Option LargeTransactionEvent) (m : Message) (documents : List LargeTransactionEvent)
    (offset : ℕ)
    → handle_simple e m (mongo_up documents (some offset))
      ≡ mongo_up (add_new e documents) (some (next_offset e m.offset offset))
one_message none m documents offset = refl
one_message (some ev) m documents offset = elim (Bool-cases (has_id ev.transaction_id documents)) [
  | inl known ↦
      save_again ev m documents (some offset) known
      ∙ ap (λ b. mongo_up (if b then documents else documents ++ ev ∷ []) (some (m.offset + 1)))
          (sym known)
  | inr fresh ↦
      save_new ev m documents (some offset) fresh
      ∙ ap (λ b. mongo_up (if b then documents else documents ++ ev ∷ []) (some (m.offset + 1)))
          (sym fresh)
]

run-collected :
    (ms : List Message) (documents : List LargeTransactionEvent) (offset : ℕ)
    → run_with_reader_and_save_offset (map got ms) (mongo_up documents (some offset))
      ≡ mongo_up (collected ms documents) (some (behind ms offset))
unfolding run_with_reader_and_save_offset read_all
run-collected [] documents offset = refl
run-collected (m ∷ ms) documents offset =
    ap (run_with_reader_and_save_offset (map got ms)) (one_message m.event m documents offset)
    ∙ run-collected ms (add_new m.event documents) (next_offset m.event m.offset offset)

-- An id that is there stays, and an event added has its id there.
has_id-add_new :
    (id : String) (e : Option LargeTransactionEvent) (documents : List LargeTransactionEvent)
    → has_id id documents ≡ true
    → has_id id (add_new e documents) ≡ true
has_id-add_new id none documents h = h
has_id-add_new id (some ev) documents h = ground (arith, has_id-append id documents ev)

has_id-collected :
    (id : String) (ms : List Message) (documents : List LargeTransactionEvent)
    → has_id id documents ≡ true
    → has_id id (collected ms documents) ≡ true
has_id-collected id [] documents h = h
has_id-collected id (m ∷ ms) documents h =
    has_id-collected id ms (add_new m.event documents) (has_id-add_new id m.event documents h)

added_is_known :
    (e : Option LargeTransactionEvent) (ms : List Message) (documents : List LargeTransactionEvent)
    → add_new e (collected ms (add_new e documents)) ≡ collected ms (add_new e documents)
added_is_known none ms documents = refl
added_is_known (some ev) ms documents =
    let here : has_id ev.transaction_id (add_new (some ev) documents) ≡ true =
      ground (arith, has_id-append ev.transaction_id documents ev, eq_refl ev.transaction_id) in
    rw (has_id-collected ev.transaction_id ms (add_new (some ev) documents) here) refl

every_one_known :
    (ms : List Message) (documents : List LargeTransactionEvent)
    → All (λ m. add_new m.event (collected ms documents) ≡ collected ms documents) ms
every_one_known [] documents = tt
every_one_known (m ∷ ms) documents =
    (added_is_known m.event ms documents, every_one_known ms (add_new m.event documents))

collected-known :
    (ms : List Message) (documents : List LargeTransactionEvent)
    → All (λ m. add_new m.event documents ≡ documents) ms
    → collected ms documents ≡ documents
collected-known [] documents h = refl
collected-known (m ∷ ms) documents (known, all) =
    ap (collected ms) known ∙ collected-known ms documents all

-- A consumer in the simple mode, with Mongo answering and the context not done, stores of any messages the
-- events of those that decode, in order, but of each transaction id only the first, and none whose id is
-- in the collection already; it saves the offset behind the last message that decodes, or leaves it. When
-- the same messages are read again, with the offset that was saved before, the collection stays as it is.
pub run_twice-collected :
    (ms : List Message) (documents : List LargeTransactionEvent) (offset : ℕ)
    → (run_with_reader_and_save_offset (map got ms) (mongo_up documents (some offset))
        ≡ mongo_up (collected ms documents) (some (behind ms offset)))
      × ((run_with_reader_and_save_offset
            (map got ms)
            (mongo_up (collected ms documents) (some offset))).store.documents
          ≡ collected ms documents)
run_twice-collected ms documents offset = (
  run-collected ms documents offset,
  ap (λ (s : State). s.store.documents) (run-collected ms (collected ms documents) offset)
      ∙ collected-known ms (collected ms documents) (every_one_known ms documents),
)
