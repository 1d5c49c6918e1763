-- ===== src/Producer/Control/Settings.antt =====
-- HandleControl of pv-producer/internal/http/server.go.
use wallet_service.Base.{◌≡◌, refl, true, ◌&&◌, ◌=ₛ◌, arith, if◌then◌else◌}
use wallet_service.Base.Int.{pos, leb_ℤ}
use wallet_service.Base.Text.{or_default}
use wallet_service.Base.Result.{ok}
use wallet_service.Producer.Broker.{State, Outcome, returned, panicked, milliseconds}
use wallet_service.Producer.Kafka.Settings.{IsUpdated, update_config-IsUpdated}
use wallet_service.Producer.Control.{
  ControlRequest, Server, Reply, accepted, no_reply, or_default_ℤ, replied, sets_producer,
  update_generator, update_producer, handle_control,
}

-- The server after a request, with the reply: the settings that the request leaves out are those of the
-- start.
pub record IsControlled (req : ControlRequest) (s : Server) (r : Reply × Server) : Type 0 where
  pub mode : r.1.producer.send_mode ≡ or_default req.send_mode s.cfg.send_mode
  pub size : r.1.producer.batch_size ≡ or_default_ℤ req.batch_size s.cfg.batch_size
  pub interval :
      r.1.producer.flush_interval ≡ milliseconds (or_default_ℤ req.flush_ms s.cfg.flush_interval_ms)
  pub strategy : r.1.producer.partition_strategy ≡ or_default req.strategy s.cfg.partition_strategy
  pub reply : r.0 ≡ (
      if or_default req.send_mode s.cfg.send_mode =ₛ "batch"
        && leb_ℤ (milliseconds (or_default_ℤ req.flush_ms s.cfg.flush_interval_ms)) (pos 0)
      then no_reply
      else accepted req)
  pub batch : r.1.producer.batch ≡ s.producer.batch
  pub generator : r.1.generator ≡ update_generator req s.generator

replied-IsControlled :
    (req : ControlRequest) (s : Server) (r : Outcome × State)
    → IsUpdated
        (or_default req.send_mode s.cfg.send_mode)
        (or_default_ℤ req.batch_size s.cfg.batch_size)
        (or_default_ℤ req.flush_ms s.cfg.flush_interval_ms)
        (or_default req.strategy s.cfg.partition_strategy)
        s.producer
        r
    → IsControlled req s (replied req (record s { generator = update_generator req s.generator }) r)
replied-IsControlled req s (panicked, p) u = record {
  mode = u.mode_set;
  size = u.size_set;
  interval = u.interval_set;
  strategy = u.strategy_set;
  reply = ground (arith, u.outcome);
  batch = u.batch_kept;
  generator = refl;
}
replied-IsControlled req s (returned, p) u = record {
  mode = u.mode_set;
  size = u.size_set;
  interval = u.interval_set;
  strategy = u.strategy_set;
  reply = ground (arith, u.outcome);
  batch = u.batch_kept;
  generator = refl;
}

-- A POST that sets any of the producer's four settings sets all four: those that it leaves out go back
-- to the configuration of the start, whatever earlier requests have set. It is answered, unless the
-- mode becomes batch with an interval that is not positive; then the handler panics after the
-- settings are changed. The messages in the batch stay, and the generator's mode and rate are set.
pub handle_control-IsControlled :
    (req : ControlRequest) (s : Server)
    → sets_producer req ≡ true
    → IsControlled req s (handle_control "POST" (ok req) s)
unfolding handle_control update_producer
handle_control-IsControlled req s sets = rw sets (
    replied-IsControlled req s _ (
      update_config-IsUpdated (or_default req.send_mode s.cfg.send_mode)
        (or_default_ℤ req.batch_size s.cfg.batch_size)
        (or_default_ℤ req.flush_ms s.cfg.flush_interval_ms)
        (or_default req.strategy s.cfg.partition_strategy) s.producer))
