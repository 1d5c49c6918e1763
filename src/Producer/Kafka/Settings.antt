-- ===== src/Producer/Kafka/Settings.antt =====
-- UpdateConfig of pv-producer/internal/kafka/producer.go, and the writer's mode, which it leaves as it is.
use mathlib.Core.List.{append-nil}
use wallet_service.Base.{
  ℕ, suc, ◌*◌, ◌≤◌, String, ◌≡◌, ◌∙◌, ap, refl, Bool, true, not, ◌&&◌, ◌=ₛ◌, some, List, [], ◌∷◌,
  ◌++◌, arith, if◌then◌else◌,
}
use wallet_service.Base.Int.{ℤ, pos, leb_ℤ}
use wallet_service.Producer.Broker.{
  State, Message, Outcome, returned, panicked, Write, failed, milliseconds, write_now,
}
use wallet_service.Config.Producer.{Config}
use wallet_service.Producer.Kafka.{Sending, first_state, update_config, message_in, send, send_by}

-- An interval of 1 to 9223372036854 milliseconds is set as it is meant.
milliseconds_exact : (n : ℕ) → n ≤ 9223372036854 → milliseconds (pos n) ≡ pos (n * 1000000)
unfolding milliseconds
milliseconds_exact n h = ground arith

abbrev pub can_tick : String → ℤ → Bool
can_tick send_mode flush_ms = send_mode =ₛ "batch" && not (leb_ℤ (milliseconds flush_ms) (pos 0))

-- The state after an update from `s`, with the outcome.
pub record IsUpdated (send_mode : String) (batch_size flush_ms : ℤ) (strategy : String) (s : State)
    (r : Outcome × State) : Type 0 where
  pub mode_set : r.1.send_mode ≡ send_mode
  pub size_set : r.1.batch_size ≡ batch_size
  pub interval_set : r.1.flush_interval ≡ milliseconds flush_ms
  pub strategy_set : r.1.partition_strategy ≡ strategy
  pub outcome :
      r.0
      ≡ (if send_mode =ₛ "batch" && not (can_tick send_mode flush_ms) then panicked else returned)
  pub ticks : r.1.ticking ≡ can_tick send_mode flush_ms
  pub loops :
      r.1.flush_loops ≡ (if can_tick send_mode flush_ms then suc s.flush_loops else s.flush_loops)
  pub batch_kept : r.1.batch ≡ s.batch
  pub topic_kept : r.1.topic ≡ s.topic
  pub writer_kept : r.1.writer_async ≡ s.writer_async

-- UpdateConfig always sets the four settings. It panics exactly in the batch mode with an interval that
-- is not positive, and then no ticker runs. Every update to the batch mode that does not panic adds one
-- goroutine that runs flushLoop. The batch, the topic and the writer stay as they are.
pub update_config-IsUpdated :
    (send_mode : String) (batch_size flush_ms : ℤ) (strategy : String) (s : State)
    → IsUpdated send_mode batch_size flush_ms strategy s
        (update_config send_mode batch_size flush_ms strategy s)
unfolding update_config
update_config-IsUpdated send_mode batch_size flush_ms strategy s = ground arith

write_now-async :
    (ms : List Message) (s : State) → s.writer_async ≡ true → (write_now ms s).0 ≡ true
unfolding write_now
write_now-async ms s async = ground arith

send-sync :
    (x : Sending) (s : State) (m : Message)
    → s.send_mode ≡ "sync"
    → message_in x s ≡ some m
    → send x s ≡ write_now (m ∷ []) s
unfolding send send_by
send-sync x s m sync message = rw (message, sync) refl

-- UpdateConfig keeps the writer that NewProducer made: a producer that was started in the async mode and is
-- set to the sync mode, with any other settings, reports success of a Send whose write brings nothing to
-- the topic, and counts no failure. (A writer that was made asynchronous answers before it writes.)
pub async_writer_hides_failure :
    (cfg : Config) (x : Sending) (s : State) (m : Message) (size flush_ms : ℤ) (strategy : String)
    (latency : ℕ) (more : List Write)
    → cfg.send_mode ≡ "async"
    → s.writer_async ≡ (first_state cfg).writer_async
    → s.writes ≡ record { outcome = failed []; latency = latency; again = [] } ∷ more
    → message_in x (update_config "sync" size flush_ms strategy s).1 ≡ some m
    → ((send x (update_config "sync" size flush_ms strategy s).1).0 ≡ true)
      × ((send x (update_config "sync" size flush_ms strategy s).1).1.topic ≡ s.topic)
      × ((send x (update_config "sync" size flush_ms strategy s).1).1.missing ≡ s.missing ++ m ∷ [])
      × ((send x (update_config "sync" size flush_ms strategy s).1).1.metrics.failed_count
          ≡ s.metrics.failed_count)
unfolding write_now update_config
async_writer_hides_failure cfg x s m size flush_ms strategy latency more mode made failing message =
    let async : s.writer_async ≡ true = made ∙ ap (λ (v : String). v =ₛ "async") mode in
    rw (send-sync x (update_config "sync" size flush_ms strategy s).1 m refl message)
      (ground (arith, append-nil s.topic))
