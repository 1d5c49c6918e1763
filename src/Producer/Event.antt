-- ===== src/Producer/Event.antt =====
-- pv-producer/internal/model/event.go, and what the aggregator makes of a message of the producer.
use wallet_service.Base.{ℕ, ◌*◌, ◌^◌, String, Bool, Option, none, some, ltb, if◌then◌else◌}
use wallet_service.Base.Int.{ℤ}
use wallet_service.Base.Result.{Result, ok, err}
use wallet_service.Aggregator.Event as Aggregator

-- Times are counted in nanoseconds from the zero time.
pub record PageViewEvent : Type 0 where
  pub event_id : String
  pub page_id : String
  pub user_id : String
  pub view_duration : ℤ
  pub timestamp : ℕ
  pub user_agent : String
  pub ip_address : String
  pub region : String
  pub is_bounce : Bool

-- The value of a message: an event as JSON, or the text `{"invalid": json}`.
pub data Payload : Type 0 where
  encoded : PageViewEvent → Payload
  corrupt : Payload

-- 3652059 days lead from the zero time to the year 10000, which RFC 3339 has no text for.
abbrev pub year_10000 : ℕ
year_10000 = 3652059 * 86400 * 10 ^ 9

-- json.Marshal fails on a time that RFC 3339 has no text for.
unfoldable pub to_json : PageViewEvent → Option Payload
to_json ev = if ltb ev.timestamp year_10000 then some (encoded ev) else none

-- The aggregator's struct has the same fields with the same keys, so json.Unmarshal gives them back.
abbrev pub received : PageViewEvent → Aggregator.PageViewEvent
received ev = record {
  event_id = ev.event_id;
  page_id = ev.page_id;
  user_id = ev.user_id;
  view_duration = ev.view_duration;
  timestamp = ev.timestamp;
  user_agent = ev.user_agent;
  ip_address = ev.ip_address;
  region = ev.region;
  is_bounce = ev.is_bounce;
}

abbrev pub invalid_json : String
invalid_json = "invalid character 'j' looking for beginning of value"

abbrev pub decoded : Payload → Result String Aggregator.PageViewEvent
decoded (encoded ev) = ok (received ev)
decoded corrupt = err invalid_json
