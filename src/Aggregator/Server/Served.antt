-- ===== src/Aggregator/Server/Served.antt =====
-- What GET /metrics of pv-aggregator/internal/http/server.go shows, while the consumer's threads run.
use wallet_service.Base.{
  ℕ, ◌≤◌, String, ◌=ₛ◌, Bool, true, false, Option, List, length, arith, if◌then◌else◌,
}
use wallet_service.Aggregator.Event.{Ip}
use wallet_service.Aggregator.Dlq.{Producer}
use wallet_service.Aggregator.Pipeline.{State}
use wallet_service.Aggregator.Threads.{System, Turn, schedule}
use wallet_service.Aggregator.Threads.Accounted.{IsAccounted, schedule-IsAccounted}
use wallet_service.Aggregator.Server.{
  Reply, http_error, healthy, metrics, shown, get_stats, handle_health, handle_metrics, serve,
}

-- Rows that a reply counts have been inserted.
abbrev pub IsCovered : Reply → State → Type 0
IsCovered (metrics r) s =
    (r.inserted_raw ≤ length s.page_views_raw) × (r.dlq_count ≤ length s.processing_errors)
IsCovered healthy s = Unit
IsCovered (http_error status text) s = Unit

module _ (format : ℕ → String) (y : System) (h : IsAccounted y) where
  metrics-IsCovered :
      (right : Bool)
      → IsCovered
          (if right
            then metrics (shown format (get_stats y.shared.metrics))
            else http_error 405 "Method not allowed")
          y.shared
  unfolding get_stats
  metrics-IsCovered true = (omega arith, omega arith)
  metrics-IsCovered false = tt

  health-IsCovered : (method : String) → IsCovered (handle_health method) y.shared
  unfolding handle_health
  health-IsCovered method = only (method =ₛ "GET")
    where
      only :
          (right : Bool)
          → IsCovered (if right then healthy else http_error 405 "Method not allowed") y.shared
      only true = tt
      only false = tt

  served-IsCovered : (path method : String) → IsCovered (serve format path method y.shared) y.shared
  unfolding serve handle_metrics
  served-IsCovered path method = routed (path =ₛ "/health") (path =ₛ "/metrics")
    where
      routed :
          (on_health on_metrics : Bool)
          → IsCovered
              (if on_health
                then handle_health method
                else (if on_metrics
                    then handle_metrics format method y.shared
                    else http_error 404 "404 page not found"))
              y.shared
      routed true on_metrics = health-IsCovered method
      routed false true = metrics-IsCovered (method =ₛ "GET")
      routed false false = tt

-- Whatever order Run, flushLoop and Close take their turns in, and whatever ClickHouse and Kafka do, the
-- counters never run ahead of the inserts, if they did not before: as many rows as inserted_raw says, and as
-- many more as threads have inserted without having counted them, have been inserted into page_views_raw,
-- and as many as dlq_count says into processing_errors. So no request to the HTTP server is answered with
-- more rows of either kind than have been inserted, whether or not ClickHouse has expired some since.
pub schedule-IsCovered :
    (p : Producer) (parse_ip : String → Option Ip) (format : ℕ → String) (ts : List Turn)
    (y : System) (path method : String)
    → IsAccounted y
    → IsAccounted (schedule p parse_ip ts y)
      × IsCovered
          (serve format path method (schedule p parse_ip ts y).shared)
          (schedule p parse_ip ts y).shared
schedule-IsCovered p parse_ip format ts y path method h =
    let after = schedule-IsAccounted p parse_ip ts y h in
    (after, served-IsCovered format (schedule p parse_ip ts y) after path method)
