-- ===== src/Producer/Loop.antt =====
-- runGenerator of pv-producer/cmd/app/main.go, with the requests to /control that are served between its
-- ticks. What is drawn in one tick is an input.
pub mod Controls
pub mod Ticks
pub mod Bursts
use wallet_service.Base.{
  ℕ, zero, suc, ◌+◌, ◌%◌, Bool, true, false, ltb, leb, ◌=ₛ◌, List, [], ◌∷◌, String, if◌then◌else◌,
}
use wallet_service.Producer.Event.{PageViewEvent}
use wallet_service.Producer.Generator.{
  Generator, Draws, generate, get_interval, below, five_percent,
}
use wallet_service.Producer.Broker.{State}
use wallet_service.Producer.Kafka.{send}
use wallet_service.Base.Result.{Result}
use wallet_service.Config.Producer.{Config}
use wallet_service.Producer.Control.{ControlRequest, Server, handle_control}

pub record Burst : Type 0 where
  pub active : Bool
  pub count : ℕ
  pub target : ℕ

-- `interval`: of the ticker, in milliseconds.
pub record App : Type 0 where
  pub cfg : Config
  pub generator : Generator
  pub producer : State
  pub burst : Burst
  pub interval : ℕ

-- What one event draws: for itself, for its corruption and its key, and whether an asynchronous send
-- takes longer than Send waits.
pub record EventDraws : Type 0 where
  pub draws : Draws
  pub corrupt_roll : ℕ
  pub key_draw : ℕ
  pub late : Bool

-- `event i` is for the i-th event of the tick.
pub record TickDraws : Type 0 where
  pub target_draw : ℕ
  pub event : ℕ → EventDraws

abbrev pub sent : EventDraws → PageViewEvent × Generator → App → App
sent e (ev, g) a = record a {
  generator = g;
  producer =
      (send
        (record {
          event = ev;
          corrupted = below e.corrupt_roll five_percent;
          key_draw = e.key_draw;
          late = e.late;
        })
        a.producer).1;
}

-- Generate and Send. An error is logged.
unfoldable pub emit : EventDraws → App → App
emit e a = sent e (generate e.draws a.generator) a

abbrev pub count_one : App → App
count_one a = record a { burst = record a.burst { count = suc a.burst.count } }

-- The rounds that are left of ten, while the target is not reached.
unfoldable pub emit_burst : ℕ → ℕ → TickDraws → App → App
emit_burst zero i t a = a
emit_burst (suc left) i t a =
    let rest = emit_burst left (suc i) t (count_one (emit (t.event i) a)) in
    if ltb a.burst.count a.burst.target then rest else a

unfoldable pub start_burst : TickDraws → App → App
start_burst t a = if a.burst.active then a else record a {
  burst = record { active = true; count = 0; target = 100 + t.target_draw % 900 };
}

-- The pause of 5 seconds after a burst comes before the next tick.
abbrev pub finish_burst : App → App
finish_burst a =
    if leb a.burst.target a.burst.count
    then record a { burst = record a.burst { active = false; count = 0 } }
    else a

abbrev pub reset_ticker : ℕ × Generator → App → App
reset_ticker (ms, g) a = record a { generator = g; interval = ms }

abbrev pub tick_burst : TickDraws → App → App
tick_burst t a = finish_burst (emit_burst 10 0 t (start_burst t a))

abbrev pub tick_single : TickDraws → App → App
tick_single t a = let a1 : App = emit (t.event 0) a in reset_ticker (get_interval a1.generator) a1

unfoldable pub tick : TickDraws → App → App
tick t a = if a.generator.mode =ₛ "burst" then tick_burst t a else tick_single t a

-- A request to /control works on the same generator and producer.
unfoldable pub serve_control : String → Result String ControlRequest → App → App
serve_control method body a =
    let s : Server =
      (handle_control method body
        (record { cfg = a.cfg; generator = a.generator; producer = a.producer })).1 in
    record a { generator = s.generator; producer = s.producer }

pub data AppTurn : Type 0 where
  ticked : TickDraws → AppTurn
  controlled : String → Result String ControlRequest → AppTurn

unfoldable pub app_turn : AppTurn → App → App
unfolding tick serve_control
app_turn (ticked t) a = tick t a
app_turn (controlled method body) a = serve_control method body a

-- Until the context is done.
unfoldable pub run_generator : List AppTurn → App → App
unfolding app_turn
run_generator [] a = a
run_generator (t ∷ ts) a = run_generator ts (app_turn t a)

abbrev pub start : Config → Generator → State → App
start cfg g p = reset_ticker (get_interval g) (record {
  cfg = cfg;
  generator = g;
  producer = p;
  burst = record { active = false; count = 0; target = 0 };
  interval = 0;
})
