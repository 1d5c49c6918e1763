-- ===== src/Aggregator/Server.antt =====
-- pv-aggregator/internal/http/server.go with GetStats of internal/kafka/consumer.go. How a time is
-- formatted is a parameter.
pub mod Served
use wallet_service.Base.{ℕ, String, ◌=ₛ◌, if◌then◌else◌}
use wallet_service.Aggregator.Pipeline.{Metrics, State}

-- The counters, and the time of the last flush.
abbrev pub Stats : Type 0
Stats = ℕ × ℕ × ℕ × ℕ × ℕ

unfoldable pub get_stats : Metrics → Stats
get_stats m = (m.consumed, m.inserted_raw, m.dlq_count, m.ch_errors, m.last_flush)

pub record MetricsReply : Type 0 where
  pub consumed : ℕ
  pub inserted_raw : ℕ
  pub dlq_count : ℕ
  pub ch_errors : ℕ
  pub last_flush_time : String

pub data Reply : Type 0 where
  http_error : ℕ → String → Reply
  healthy : Reply
  metrics : MetricsReply → Reply

unfoldable pub handle_health : String → Reply
handle_health method = if method =ₛ "GET" then healthy else http_error 405 "Method not allowed"

abbrev pub shown : (ℕ → String) → Stats → MetricsReply
shown format (consumed, inserted, dlq, errors, last_flush) = record {
  consumed = consumed;
  inserted_raw = inserted;
  dlq_count = dlq;
  ch_errors = errors;
  last_flush_time = format last_flush;
}

unfoldable pub handle_metrics : (ℕ → String) → String → State → Reply
unfolding get_stats
handle_metrics format method s =
    if method =ₛ "GET"
    then metrics (shown format (get_stats s.metrics))
    else http_error 405 "Method not allowed"

-- The two routes of Start.
unfoldable pub serve : (ℕ → String) → String → String → State → Reply
unfolding handle_health handle_metrics
serve format path method s =
    if path =ₛ "/health"
    then handle_health method
    else (if path =ₛ "/metrics"
        then handle_metrics format method s
        else http_error 404 "404 page not found")
