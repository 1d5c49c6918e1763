-- ===== src/Producer/Threads.antt =====
-- pv-producer/internal/kafka/producer.go with its callers as threads: the generator that sends, the flushLoop
-- goroutines, the goroutines of asynchronous sends, the control handler and the shutdown. A write begins
-- in one turn and ends in another, and anything may come between.
pub mod Places
pub mod Conserved
pub mod Stranded
use wallet_service.Base.{ℕ, zero, suc, String, Bool, Option, none, some, List, [], ◌∷◌, ◌++◌}
use wallet_service.Base.Int.{ℤ}
use wallet_service.Producer.Broker.{State, Message, launch, write_now}
use wallet_service.Producer.Kafka.{Sending, send_by, tick_by, update_config, close, message_in}

-- `sends` and `ticks` begin the writes that Send and flushLoop do, and `ends n` ends the n-th of those that
-- have begun.
pub data Turn : Type 0 where
  sends : Sending → Turn
  ticks : Turn
  ends : ℕ → Turn
  sets : String → ℤ → ℤ → String → Turn
  closes : Turn

abbrev pub put_back :
    List Message
    → Option (List Message × List (List Message))
    → Option (List Message × List (List Message))
put_back ms none = none
put_back ms (some (found, rest)) = some (found, ms ∷ rest)

-- The n-th, and the others.
unfoldable pub pick : ℕ → List (List Message) → Option (List Message × List (List Message))
pick n [] = none
pick zero (ms ∷ rest) = some (ms, rest)
pick (suc n) (ms ∷ rest) = put_back ms (pick n rest)

abbrev pub write_picked : Option (List Message × List (List Message)) → State → State
unfolding write_now
write_picked none s = s
write_picked (some (ms, rest)) s = (write_now ms (record s { in_flight = rest })).1

unfoldable pub end_write : ℕ → State → State
unfolding pick write_picked
end_write n s = write_picked (pick n s.in_flight) s

unfoldable pub turn : Turn → State → State
unfolding send_by tick_by launch end_write update_config close
turn (sends x) s = (send_by launch x s).1
turn ticks s = (tick_by launch s).1
turn (ends n) s = end_write n s
turn (sets send_mode batch_size flush_ms strategy) s =
    (update_config send_mode batch_size flush_ms strategy s).1
turn closes s = (close s).1

unfoldable pub schedule : List Turn → State → State
unfolding turn
schedule [] s = s
schedule (t ∷ ts) s = schedule ts (turn t s)
