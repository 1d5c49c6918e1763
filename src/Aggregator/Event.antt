-- ===== src/Aggregator/Event.antt =====
-- pv-aggregator/internal/model, the validation in internal/kafka/consumer.go, and the rows of
-- internal/clickhouse/repo.go.
use wallet_service.Base.{
  ℕ, ◌+◌, ◌-◌, ◌*◌, ◌%◌, ◌^◌, String, Bool, ◌||◌, ◌==◌, Option, none, some, if◌then◌else◌,
}
use wallet_service.Base.Int.{ℤ, pos, negsuc, ltb_ℤ, leb_ℤ}
use wallet_service.Base.Text.{is_empty}
use wallet_service.Base.Result.{Result, ok, err}

-- Times are counted in nanoseconds from the zero time.
pub record PageViewEvent : Type 0 where
  pub event_id : String
  pub page_id : String
  pub user_id : String
  pub view_duration : ℤ
  pub timestamp : ℕ
  pub user_agent : String
  pub ip_address : String
  pub region : String
  pub is_bounce : Bool

-- A fetched message. Its value is given by its text and by what json.Unmarshal makes of it: an
-- event, or the text of an error.
pub record Message : Type 0 where
  pub value : String
  pub decoded : Result String PageViewEvent
  pub offset : ℕ
  pub partition : ℕ

pub data ValidationError : Type 0 where
  json_parse : String → ValidationError
  empty_page_id empty_user_id bad_duration zero_timestamp : ValidationError

unfoldable pub validate : PageViewEvent → Result ValidationError PageViewEvent
validate ev =
    if is_empty ev.page_id
    then err empty_page_id
    else (if is_empty ev.user_id
        then err empty_user_id
        else (if leb_ℤ ev.view_duration (pos 0)
            then err bad_duration
            else (if ev.timestamp == 0 then err zero_timestamp else ok ev)))

abbrev pub validate_decoded : Result String PageViewEvent → Result ValidationError PageViewEvent
unfolding validate
validate_decoded (err e) = err (json_parse e)
validate_decoded (ok ev) = validate ev

unfoldable pub parse_and_validate : Message → Result ValidationError PageViewEvent
unfolding validate_decoded
parse_and_validate m = validate_decoded m.decoded

-- An address, by the number that its bytes make.
pub data Ip : Type 0 where
  v4 v6 : ℕ → Ip

pub record PageViewRow : Type 0 where
  pub event_date : ℕ
  pub event_time : ℕ
  pub page_id : String
  pub user_id : String
  pub duration_ms : ℕ
  pub user_agent : String
  pub ip_address : ℕ
  pub region : String
  pub is_bounce : ℕ
  pub kafka_offset : ℕ
  pub kafka_partition : ℕ
  pub processed_time : ℕ

-- The conversion of a Go int to uint32.
abbrev pub to_uint32 : ℤ → ℕ
to_uint32 (pos n) = n % 2 ^ 32
to_uint32 (negsuc n) = 2 ^ 32 - 1 - n % 2 ^ 32

abbrev pub nanoseconds_per_day : ℕ
nanoseconds_per_day = 86400000000000

-- `To16` puts ::ffff: before the four bytes. What does not parse is the zero address.
abbrev pub to_16 : Option Ip → ℕ
to_16 none = 0
to_16 (some (v4 a)) = 65535 * 2 ^ 32 + a
to_16 (some (v6 a)) = a

abbrev pub event_time_at : ℕ → ℕ → ℕ
event_time_at t now = if t == 0 then now else t

-- `parse_ip` is net.ParseIP, and `now` what time.Now returns.
unfoldable pub convert_event_to_row : (String → Option Ip) → ℕ → PageViewEvent → ℕ → ℕ → PageViewRow
convert_event_to_row parse_ip now ev offset partition =
    let time = event_time_at ev.timestamp now in
    record {
      event_date = time - time % nanoseconds_per_day;
      event_time = time;
      page_id = ev.page_id;
      user_id = ev.user_id;
      duration_ms = to_uint32 ev.view_duration;
      user_agent = ev.user_agent;
      ip_address = to_16 (parse_ip ev.ip_address);
      region = ev.region;
      is_bounce = if ev.is_bounce || ltb_ℤ ev.view_duration (pos 5000) then 1 else 0;
      kafka_offset = offset;
      kafka_partition = partition;
      processed_time = now;
    }
