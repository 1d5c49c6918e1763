-- ===== src/Aggregator/Buffer.antt =====
-- pv-aggregator/internal/agg/buffer.go: the messages that wait for the next flush.
use wallet_service.Base.{ℕ, Bool, false, ◌||◌, leb, length, List, [], ◌∷◌, ◌++◌}
use wallet_service.Aggregator.Event.{Message, PageViewRow}

pub record BufferedMessage : Type 0 where
  pub message : Message
  pub row : PageViewRow

-- `signal`: flushChan holds its one token.
pub record Buffer : Type 0 where
  pub messages : List BufferedMessage
  pub max_size : ℕ
  pub signal : Bool

abbrev pub new_buffer : ℕ → Buffer
new_buffer max_size = record { messages = []; max_size = max_size; signal = false }

-- Whether to flush, and the buffer. A token that does not fit is dropped.
unfoldable pub add : BufferedMessage → Buffer → Bool × Buffer
add m b =
    let messages = b.messages ++ m ∷ [] in
    let should_flush = leb b.max_size (length messages) in
    (should_flush, record b { messages = messages; signal = b.signal || should_flush })

unfoldable pub get_and_clear : Buffer → List BufferedMessage × Buffer
get_and_clear b = (b.messages, record b { messages = [] })

unfoldable pub put_back : List BufferedMessage → Buffer → Buffer
put_back ms b = record b { messages = ms ++ b.messages }

unfoldable pub size : Buffer → ℕ
size b = length b.messages

-- A receive from flushChan.
unfoldable pub take_signal : Buffer → Bool × Buffer
take_signal b = (b.signal, record b { signal = false })
