-- ===== src/Notification/Store.antt =====
-- gw-notification/internal/model and internal/storage/mongo: the collection of large transactions,
-- with its unique index, and the offsets of the simple consumer. What becomes of each round trip to
-- Mongo is an input.
pub mod Unique
use wallet_service.Base.{
  ℕ, String, Bool, true, false, ◌||◌, ◌=ₛ◌, Option, none, some, List, [], ◌∷◌, ◌++◌, if◌then◌else◌,
}
use wallet_service.Base.Result.{Result, ok, err}
use wallet_service.Sql.{Delivery, answered, refused, lost}
use wallet_service.Wallet.Money.{Float}

pub record LargeTransactionEvent : Type 0 where
  pub transaction_id : String
  pub user_id : ℕ
  pub kind : String  -- `Type`
  pub amount : Float
  pub currency : String
  pub created_at : String

-- The documents in order of insertion, the offset of the consumer's topic and partition, and what
-- becomes of the coming round trips (answered, past the end).
pub record Store : Type 0 where
  pub documents : List LargeTransactionEvent
  pub offset : Option ℕ
  pub faults : List Delivery

pub data MongoError : Type 0 where
  duplicate_key other_error : MongoError

unfoldable pub has_id : String → List LargeTransactionEvent → Bool
has_id id [] = false
has_id id (d ∷ ds) = d.transaction_id =ₛ id || has_id id ds

abbrev pub pop : List Delivery → Store → Delivery × Store
pop [] s = (answered, s)
pop (d ∷ ds) s = (d, record s { faults = ds })

unfoldable pub next_delivery : Store → Delivery × Store
next_delivery s = pop s.faults s

-- InsertOne under the unique index on `transaction_id`.
abbrev pub inserted : Bool → LargeTransactionEvent → Store → Result MongoError Unit × Store
inserted true ev s = (err duplicate_key, s)
inserted false ev s = (ok tt, record s { documents = s.documents ++ ev ∷ [] })

abbrev pub deliver :
    Delivery × Store → (Store → Result MongoError Unit × Store) → Result MongoError Unit × Store
deliver (answered, s) f = f s
deliver (refused, s) f = (err other_error, s)
deliver (lost, s) f = (err other_error, (f s).1)

unfoldable pub insert_large_transaction :
    LargeTransactionEvent → Store → Result MongoError Unit × Store
unfolding next_delivery
insert_large_transaction ev s =
    deliver (next_delivery s) (inserted (has_id ev.transaction_id s.documents) ev)

abbrev pub read_offset : Delivery × Store → Result MongoError ℕ × Store
read_offset (answered, s) = (ok (elim s.offset [ none ↦ 0 | some n ↦ n ]), s)
read_offset (refused, s) = (err other_error, s)
read_offset (lost, s) = (err other_error, s)

-- No document means offset 0.
unfoldable pub get_consumer_offset : Store → Result MongoError ℕ × Store
unfolding next_delivery
get_consumer_offset s = read_offset (next_delivery s)

-- An upsert.
unfoldable pub set_consumer_offset : ℕ → Store → Result MongoError Unit × Store
unfolding next_delivery
set_consumer_offset n s = deliver (next_delivery s) (λ s'. (ok tt, record s' { offset = some n }))
