-- ===== src/Producer/Control.antt =====
-- pv-producer/internal/http/server.go. What json.Decode makes of a body is an input; net/http recovers a
-- handler's panic and closes the connection.
pub mod Settings
use wallet_service.Base.{ℕ, ◌/◌, String, Bool, true, false, not, ◌||◌, ◌=ₛ◌, ltb, if◌then◌else◌}
use wallet_service.Base.Int.{ℤ, pos, negsuc, ltb_ℤ}
use wallet_service.Base.Text.{is_empty, or_default}
use wallet_service.Base.Result.{Result, ok, err}
use wallet_service.Config.Producer.{Config}
use wallet_service.Producer.Generator.{Generator, set_mode, set_rps}
use wallet_service.Producer.Metrics.{Stats, get_stats}
use wallet_service.Producer.Broker.{State, Outcome, returned, panicked}
use wallet_service.Producer.Kafka.{update_config}

pub record ControlRequest : Type 0 where
  pub mode : String
  pub rps : ℤ
  pub batch_size : ℤ
  pub flush_ms : ℤ
  pub strategy : String
  pub send_mode : String

pub record Server : Type 0 where
  pub cfg : Config
  pub generator : Generator
  pub producer : State

pub record MetricsReply : Type 0 where
  pub sent : ℕ
  pub failed : ℕ
  pub avg_latency_ms : ℕ
  pub p95_latency_ms : ℕ
  pub events_generated : ℕ

pub data Reply : Type 0 where
  http_error : ℕ → String → Reply
  accepted : ControlRequest → Reply
  metrics : MetricsReply → Reply
  no_reply : Reply

unfoldable pub update_generator : ControlRequest → Generator → Generator
unfolding is_empty
update_generator req g =
    let g1 = if is_empty req.mode then g else set_mode req.mode g in
    if ltb_ℤ (pos 0) req.rps then set_rps req.rps g1 else g1

-- Whether the request sets anything of the producer.
unfoldable pub sets_producer : ControlRequest → Bool
unfolding is_empty
sets_producer req =
    not (is_empty req.send_mode)
    || ltb_ℤ (pos 0) req.batch_size
    || ltb_ℤ (pos 0) req.flush_ms
    || not (is_empty req.strategy)

-- `if v == 0 { v = d }`
abbrev pub or_default_ℤ : ℤ → ℤ → ℤ
or_default_ℤ (pos n) d = if ltb 0 n then pos n else d
or_default_ℤ (negsuc n) d = negsuc n

abbrev pub replied : ControlRequest → Server → Outcome × State → Reply × Server
replied req s (panicked, p) = (no_reply, record s { producer = p })
replied req s (returned, p) = (accepted req, record s { producer = p })

unfoldable pub update_producer : ControlRequest → Server → Reply × Server
update_producer req s = replied req s (
    update_config (or_default req.send_mode s.cfg.send_mode)
      (or_default_ℤ req.batch_size s.cfg.batch_size)
      (or_default_ℤ req.flush_ms s.cfg.flush_interval_ms)
      (or_default req.strategy s.cfg.partition_strategy) s.producer)

abbrev pub control : Result String ControlRequest → Server → Reply × Server
control (err _) s = (http_error 400 "Invalid JSON", s)
control (ok req) s =
    let s1 : Server = record s { generator = update_generator req s.generator } in
    if sets_producer req then update_producer req s1 else (accepted req, s1)

unfoldable pub handle_control : String → Result String ControlRequest → Server → Reply × Server
handle_control method body s =
    if method =ₛ "POST" then control body s else (http_error 405 "Method not allowed", s)

-- Latencies are in nanoseconds.
abbrev pub shown : Stats → ℕ → MetricsReply
shown stats events = record {
  sent = stats.sent;
  failed = stats.failed;
  avg_latency_ms = stats.avg_latency / 1000000;
  p95_latency_ms = stats.p95_latency / 1000000;
  events_generated = events;
}

unfoldable pub handle_metrics : String → Server → Reply
unfolding get_stats
handle_metrics method s =
    if method =ₛ "GET"
    then metrics (shown (get_stats s.producer.metrics) s.generator.event_counter)
    else http_error 405 "Method not allowed"

-- The two routes of Start.
unfoldable pub serve : String → String → Result String ControlRequest → Server → Reply × Server
unfolding handle_control handle_metrics
serve path method body s =
    if path =ₛ "/control"
    then handle_control method body s
    else (if path =ₛ "/metrics"
        then (handle_metrics method s, s)
        else (http_error 404 "404 page not found", s))
