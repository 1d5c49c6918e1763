-- ===== src/Wallet/Publisher.antt =====
-- Publisher, gw-currency-wallet/internal/kafka/publisher.go: events of large transactions, written
-- to Kafka with retries. The broker's answers are inputs.
pub mod Retries
pub mod Backoff
use wallet_service.Base.{
  ℕ, zero, suc, ◌+◌, ◌*◌, ◌%◌, ◌^◌, String, Bool, true, false, Option, none, some, List, [], ◌∷◌,
  ◌++◌, ◌||◌, leb, ◌==◌, if◌then◌else◌,
}
use wallet_service.Base.Text.{is_empty, broker_list}
use wallet_service.Base.Int.{ℤ, pos, negsuc, ltb_ℤ}
use wallet_service.Wallet.Money.{Float}

pub record LargeTransactionEvent : Type 0 where
  pub transaction_id : String
  pub user_id : ℕ
  pub kind : String  -- `Type`
  pub amount : Float
  pub currency : String
  pub created_at : String

pub record Publisher : Type 0 where
  pub brokers : List String
  pub topic : String
  pub threshold : Float
  pub retries : ℕ
  pub backoff_ms : ℕ
  pub timeout_ms : ℕ

-- `if n <= 0 { n = d }`
abbrev pub positive_or : ℤ → ℕ → ℕ
positive_or (pos (suc n)) d = suc n
positive_or (pos zero) d = d
positive_or (negsuc n) d = d

abbrev configured : List String → String → Float → ℤ → ℤ → ℤ → Option Publisher
configured [] topic threshold retries backoff timeout = none
configured (b ∷ bs) topic threshold retries backoff timeout =
    if is_empty topic
    then none
    else some (record {
      brokers = b ∷ bs;
      topic = topic;
      threshold = threshold;
      retries = positive_or retries 3;
      backoff_ms = positive_or backoff 200;
      timeout_ms = positive_or timeout 2000;
    })

-- `none` is the nil publisher.
unfoldable pub new_publisher : String → String → Float → ℤ → ℤ → ℤ → Option Publisher
unfolding broker_list
new_publisher brokers = configured (broker_list brokers)

-- A call of WriteMessages is acknowledged or ends with an error. The writer of kafka-go tries again within
-- the call when an acknowledgement is lost, so the event may come to the topic more than once: the
-- copies beyond the first of a call that succeeds, and all copies of one that fails.
pub data Write : Type 0 where
  acknowledged unacknowledged : ℕ → Write

-- The event, a number of times.
abbrev pub copies : ℕ → LargeTransactionEvent → List LargeTransactionEvent
copies zero ev = []
copies (suc n) ev = ev ∷ copies n ev

-- A pause between attempts ends by its timer, or by the request's context.
pub data Pause : Type 0 where
  elapsed context_done : Pause

-- The topic as it stands, what will become of the coming writes and pauses (past the end, writes
-- are acknowledged and bring one copy, and pauses elapse), the pauses asked for so far in nanoseconds, and the sources
-- of `uuid.New` and of time stamps.
pub record Broker : Type 0 where
  pub events : List LargeTransactionEvent
  pub writes : List Write
  pub pauses : List Pause
  pub waited : List ℕ
  pub uuid : ℕ → String
  pub stamp : ℕ → String
  pub drawn : ℕ

abbrev pub written : Write → LargeTransactionEvent → Broker → Bool × Broker
written (acknowledged n) ev b = (true, record b { events = b.events ++ copies (suc n) ev })
written (unacknowledged n) ev b = (false, record b { events = b.events ++ copies n ev })

abbrev pub take_write : List Write → LargeTransactionEvent → Broker → Bool × Broker
take_write [] ev b = written (acknowledged 0) ev b
take_write (x ∷ xs) ev b = written x ev (record b { writes = xs })

-- `p.writer.WriteMessages`, and whether it returned no error.
unfoldable pub write_message : LargeTransactionEvent → Broker → Bool × Broker
write_message ev b = take_write b.writes ev b

abbrev pub is_elapsed : Pause → Bool
is_elapsed elapsed = true
is_elapsed context_done = false

abbrev pub take_pause : List Pause → ℕ → Broker → Bool × Broker
take_pause [] d b = (true, record b { waited = b.waited ++ d ∷ [] })
take_pause (x ∷ xs) d b = (is_elapsed x, record b { pauses = xs; waited = b.waited ++ d ∷ [] })

unfoldable pub pause : ℕ → Broker → Bool × Broker
pause d b = take_pause b.pauses d b

-- `for i := 1; i < attempt; i++ { backoff *= 2 }`, a 64-bit Duration.
unfoldable pub doubled : ℕ → ℕ → ℕ
doubled zero d = d
doubled (suc n) d = doubled n (d * 2 % 2 ^ 64)

-- The pause before an attempt but the first: `suc n` is the attempt's number.
unfoldable pub backoff : Publisher → ℕ → ℕ
unfolding doubled
backoff p n = doubled n (p.backoff_ms * 1000000 % 2 ^ 64)

abbrev pub before : Publisher → ℕ → Broker → Bool × Broker
unfolding pause backoff
before p zero b = (true, b)
before p (suc n) b = pause (backoff p n) b

abbrev pub after_write : (Broker → Bool × Broker) → Bool × Broker → Bool × Broker
after_write rest (true, b) = (true, b)
after_write rest (false, b) = rest b

-- A pause that the context ends ends the loop.
abbrev pub after_pause :
    LargeTransactionEvent → (Broker → Bool × Broker) → Bool × Broker → Bool × Broker
unfolding write_message
after_pause ev rest (false, b) = (false, b)
after_pause ev rest (true, b) = after_write rest (write_message ev b)

-- The loop from `attempt` on, with the attempts left; the result says whether a write succeeded.
unfoldable pub attempts : Publisher → LargeTransactionEvent → ℕ → ℕ → Broker → Bool × Broker
unfolding before after_pause
attempts p ev attempt zero b = (false, b)
attempts p ev attempt (suc left) b =
    after_pause ev (attempts p ev (suc attempt) left) (before p attempt b)

unfoldable pub event_of : ℕ → String → String → Float → Broker → LargeTransactionEvent
event_of user kind currency amount b = record {
  transaction_id = b.uuid b.drawn;
  user_id = user;
  kind = kind;
  amount = amount;
  currency = currency;
  created_at = b.stamp b.drawn;
}

unfoldable pub publish : Option Publisher → ℕ → String → String → Float → Broker → Broker
unfolding attempts event_of
publish none user kind currency amount b = b
publish (some p) user kind currency amount b =
    if ltb_ℤ amount p.threshold
    then b
    else (attempts p (event_of user kind currency amount b) 0 p.retries
        (record b { drawn = suc b.drawn })).1
