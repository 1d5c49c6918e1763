-- ===== src/Producer/Delivered.antt =====
-- A message of pv-producer as pv-aggregator fetches it.
use wallet_service.Base.{
  ℕ, String, ◌≡◌, ◌≢◌, refl, Bool, true, false, Option, none, some, arith, if◌then◌else◌,
}
use wallet_service.Base.Text.{is_empty}
use wallet_service.Base.Result.{ok, err}
use wallet_service.Aggregator.Event as Aggregator
use wallet_service.Aggregator.Event.{json_parse, parse_and_validate, validate, validate_decoded}
use wallet_service.Producer.Event.{
  PageViewEvent, Payload, encoded, corrupt, to_json, decoded, received, invalid_json,
}
use wallet_service.Producer.Generator.{Draws, generate_new, take_chars}
use wallet_service.Producer.Generator.Accepted.{verdict, generate_new-verdict}
use wallet_service.Producer.Broker.{Message}
use wallet_service.Producer.Kafka.{message_of, with_payload, get_partition_key, payload_of}

-- `text` is the JSON itself; Kafka chooses the offset and the partition.
abbrev pub as_fetched : String → ℕ → ℕ → Message → Aggregator.Message
as_fetched text offset partition m = record {
  value = text;
  decoded = decoded m.value;
  offset = offset;
  partition = partition;
}

with_payload-value :
    (key id : String) (o : Option Payload) (m : Message)
    → with_payload key id o ≡ some m
    → o ≡ some m.value
with_payload-value key id none m e = absurd (ground arith)
with_payload-value key id (some v) m e = ground arith

decoded_of_json :
    (ev : PageViewEvent) (v : Payload) → to_json ev ≡ some v → decoded v ≡ ok (received ev)
unfolding to_json
decoded_of_json ev corrupt e = absurd (ground arith)
decoded_of_json ev (encoded other) e = ground arith

module _ (d : Draws) (user : is_empty (take_chars 8 d.user_uuid) ≡ false) (timed : d.now ≢ 0) where
  -- From the generator to the aggregator: of the message that is sent for a new event, the aggregator
  -- makes a JSON error if the payload was corrupted on purpose. Else it accepts the event as it was made,
  -- unless the draws spoiled it or made it a bounce of no milliseconds: then it refuses the event, for
  -- the missing page if that is how it was spoiled, and for its duration otherwise.
  pub message_of-verdict :
      (strategy text : String) (corrupted : Bool) (draw offset partition : ℕ) (m : Message)
      → message_of strategy (generate_new d) corrupted draw ≡ some m
      → parse_and_validate (as_fetched text offset partition m)
        ≡ (if corrupted then err (json_parse invalid_json) else verdict d)
  unfolding message_of parse_and_validate
  message_of-verdict strategy text true draw offset partition m sent =
      let value : some corrupt ≡ some m.value =
        with_payload-value (get_partition_key strategy draw (generate_new d))
          (generate_new d).event_id (some corrupt) m sent in
      let same : m.value ≡ corrupt = ground arith in rw same refl
  message_of-verdict strategy text false draw offset partition m sent =
      let value =
        with_payload-value (get_partition_key strategy draw (generate_new d))
          (generate_new d).event_id (payload_of (generate_new d) false) m sent in
      rw (decoded_of_json (generate_new d) m.value value) (generate_new-verdict d user timed)
