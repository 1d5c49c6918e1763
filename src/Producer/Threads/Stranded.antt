-- ===== src/Producer/Threads/Stranded.antt =====
-- pv-producer/internal/kafka/producer.go after UpdateConfig has left the batch mode.
use wallet_service.Base.{
  ◌≡◌, refl, Bool, false, Option, none, some, List, [], ◌∷◌, String, ◌=ₛ◌, arith, All, ◌∙◌,
}
use wallet_service.Base.Int.{ℤ}
use wallet_service.Producer.Broker.{State, Message, launch, write_now}
use wallet_service.Producer.Kafka.{
  send_by, send_message, dispatch_by, tick_by, update_config, message_in,
}
use wallet_service.Producer.Kafka.Settings.{update_config-IsUpdated}
use wallet_service.Producer.Threads.{
  Turn, sends, ticks, ends, sets, closes, pick, write_picked, end_write, turn, schedule,
}

-- The turns that neither change the settings nor shut down.
abbrev pub IsTraffic : Turn → Type 0
IsTraffic (sends x) = Unit
IsTraffic ticks = Unit
IsTraffic (ends n) = Unit
IsTraffic (sets _ _ _ _) = ⊥
IsTraffic closes = ⊥

-- Out of the batch mode, with no ticker running.
abbrev IsParked : State → Type 0
IsParked s = ((s.send_mode =ₛ "batch") ≡ false) × (s.ticking ≡ false)

record Parks (s s' : State) : Type 0 where
  batch : s'.batch ≡ s.batch
  mode : s'.send_mode ≡ s.send_mode
  ticking : s'.ticking ≡ s.ticking

write_now-Parks : (ms : List Message) (s : State) → Parks s (write_now ms s).1
unfolding write_now
write_now-Parks ms s = ground arith

write_picked-Parks :
    (s : State) (r : Option (List Message × List (List Message))) → Parks s (write_picked r s)
unfolding end_write
write_picked-Parks s none = record { batch = refl; mode = refl; ticking = refl }
write_picked-Parks s (some (ms, rest)) =
    let p = write_now-Parks ms (record s { in_flight = rest }) in
    record { batch = p.batch; mode = p.mode; ticking = p.ticking }

send_message-Parks :
    (late : Bool) (o : Option Message) (s : State)
    → IsParked s
    → Parks s (send_message launch late o s).1
unfolding dispatch_by launch
send_message-Parks late none s parked = record { batch = refl; mode = refl; ticking = refl }
send_message-Parks late (some m) s parked = ground arith

turn-Parks : (t : Turn) (s : State) → IsTraffic t → IsParked s → Parks s (turn t s)
unfolding turn send_by tick_by
turn-Parks (sends x) s traffic parked = send_message-Parks x.late (message_in x s) s parked
turn-Parks ticks s traffic parked = ground arith
turn-Parks (ends n) s traffic parked = write_picked-Parks s (pick n s.in_flight)
turn-Parks (sets _ _ _ _) s traffic parked = absurd traffic
turn-Parks closes s traffic parked = absurd traffic

schedule-batch :
    (ts : List Turn) (s : State) → All IsTraffic ts → IsParked s → (schedule ts s).batch ≡ s.batch
unfolding schedule
schedule-batch [] s traffic parked = refl
schedule-batch (t ∷ ts) s traffic parked =
    let p = turn-Parks t s traffic.0 parked in
    schedule-batch ts (turn t s) traffic.1 (rw p.mode parked.0, rw p.ticking parked.1) ∙ p.batch

-- An update to a mode other than batch does not flush: the messages of the batch stay in it through
-- any sends, ticks and writes, until the settings change again or the producer is closed.
pub update_config-strands :
    (send_mode : String) (batch_size flush_ms : ℤ) (strategy : String) (s : State) (ts : List Turn)
    → (send_mode =ₛ "batch") ≡ false
    → All IsTraffic ts
    → (schedule ts (update_config send_mode batch_size flush_ms strategy s).1).batch ≡ s.batch
update_config-strands send_mode batch_size flush_ms strategy s ts other traffic =
    let s1 : State = (update_config send_mode batch_size flush_ms strategy s).1 in
    let u = update_config-IsUpdated send_mode batch_size flush_ms strategy s in
    schedule-batch ts s1 traffic (rw u.mode_set other, rw other at u.ticks) ∙ u.batch_kept
