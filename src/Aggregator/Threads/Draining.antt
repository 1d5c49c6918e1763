-- ===== src/Aggregator/Threads/Draining.antt =====
-- flush of pv-aggregator/internal/kafka/consumer.go, with ClickHouse and Kafka up.
use wallet_service.Base.{ℕ, ◌+◌, ◌≡◌, refl, Bool, length, List, [], ◌∷◌, ◌++◌}
use wallet_service.Aggregator.Event.{Message, PageViewRow}
use wallet_service.Aggregator.Buffer.{BufferedMessage, get_and_clear}
use wallet_service.Aggregator.Dlq.{Producer, Letter}
use wallet_service.Aggregator.Pipeline.{
  State, Metrics, ErrorRow, insert_with_retry, retry, insert_raw_batch, commit_messages,
  next_delivery,
}
use wallet_service.Aggregator.Threads.{rows_of, messages_of, advance, flush, end_insert}
use wallet_service.Aggregator.Threads.Overtaking.{calm}

module _ (p : Producer) (max_size : ℕ) (signal : Bool) (k : Metrics) (rows : List PageViewRow)
    (errors : List ErrorRow) (letters : List Letter) (committed : List Message) (clock : ℕ) where
  abbrev pub holding : List BufferedMessage → State
  holding ms =
      calm (record { messages = ms; max_size = max_size; signal = signal }) k rows errors letters
        committed clock

  -- With every round trip answered, flush empties the buffer: the rows of all its messages are in
  -- page_views_raw, in the buffer's order in front of what was there, and all its messages are
  -- committed; the count of inserted rows grows by their number, and the time of the last flush is
  -- now. A flush of an empty buffer changes nothing.
  pub flush_drains :
      (m : BufferedMessage) (ms : List BufferedMessage)
      → (flush p (holding []) ≡ holding [])
        × (flush p (holding (m ∷ ms)) ≡ record (holding []) {
          page_views_raw = rows_of (m ∷ ms) ++ rows;
          committed = messages_of (m ∷ ms) ++ committed;
          metrics = record k {
            inserted_raw = k.inserted_raw + length (m ∷ ms);
            last_flush = clock;
          };
        })
  unfolding flush advance get_and_clear insert_with_retry retry insert_raw_batch commit_messages
      next_delivery end_insert
  flush_drains m ms = (refl, refl)
