-- ===== src/Notification/Store/Unique.antt =====
-- InsertLargeTransaction of gw-notification/internal/storage/mongo/mongo.go under its unique index.
use wallet_service.Base.{String, ◌≡◌, true, ◌||◌, ◌=ₛ◌, eq_refl, List, [], ◌∷◌, ◌++◌, arith}
use wallet_service.Base.Result.{ok, err}
use wallet_service.Notification.Store.{
  LargeTransactionEvent, Store, duplicate_key, has_id, insert_large_transaction,
}

pub has_id-append :
    (id : String) (ds : List LargeTransactionEvent) (ev : LargeTransactionEvent)
    → has_id id (ds ++ ev ∷ []) ≡ (has_id id ds || ev.transaction_id =ₛ id)
unfolding has_id
has_id-append id [] ev = ground arith
has_id-append id (d ∷ ds) ev = ground (arith, has_id-append id ds ev)

module _ (ev : LargeTransactionEvent) (s : Store) where
  -- After a success, or a duplicate, the transaction is in the collection.
  pub insert_ok-stored :
      (insert_large_transaction ev s).0 ≡ ok tt
      → has_id ev.transaction_id (insert_large_transaction ev s).1.documents ≡ true
  unfolding insert_large_transaction
  insert_ok-stored h =
      ground (arith, has_id-append ev.transaction_id s.documents ev, eq_refl ev.transaction_id)

  pub insert_duplicate-stored :
      (insert_large_transaction ev s).0 ≡ err duplicate_key
      → has_id ev.transaction_id (insert_large_transaction ev s).1.documents ≡ true
  unfolding insert_large_transaction
  insert_duplicate-stored h = ground arith
