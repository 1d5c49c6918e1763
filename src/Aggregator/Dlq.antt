-- ===== src/Aggregator/Dlq.antt =====
-- pv-aggregator/internal/dlq/producer.go: the dead letters.
use wallet_service.Base.{ℕ, String, Bool, true, false, ◌||◌, not, List, [], ◌∷◌, if◌then◌else◌}
use wallet_service.Base.Text.{is_empty, broker_list}
use wallet_service.Sql.{Delivery, answered, refused, lost}
use wallet_service.Aggregator.Event.{Message}

-- The brokers and the topic of the writer, when there is one.
pub record Producer : Type 0 where
  pub enabled : Bool
  pub brokers : List String
  pub topic : String

abbrev disabled : Producer
disabled = record { enabled = false; brokers = []; topic = "" }

abbrev with_brokers : List String → String → Producer
with_brokers [] topic = disabled
with_brokers (b ∷ bs) topic = record { enabled = true; brokers = b ∷ bs; topic = topic }

unfoldable pub new_producer : String → String → Bool → Producer
unfolding broker_list
new_producer brokers topic enabled =
    if not enabled || is_empty brokers || is_empty topic
    then disabled
    else with_brokers (broker_list brokers) topic

pub record Letter : Type 0 where
  pub key : String
  pub value : String
  pub original_offset : ℕ
  pub original_partition : ℕ
  pub page_id : String

abbrev pub letter_of : Message → String → Letter
letter_of m page_id = record {
  key = "dlq";
  value = m.value;
  original_offset = m.offset;
  original_partition = m.partition;
  page_id = page_id;
}

abbrev pub delivered : Delivery → Letter → List Letter → Bool × List Letter
delivered answered l topic = (true, l ∷ topic)
delivered refused l topic = (false, topic)
delivered lost l topic = (false, l ∷ topic)

-- Send, into the letters of the topic, the newest first. A producer that is off reports success.
unfoldable pub send : Producer → Delivery → Message → String → List Letter → Bool × List Letter
send p d m page_id topic =
    if p.enabled then delivered d (letter_of m page_id) topic else (true, topic)
