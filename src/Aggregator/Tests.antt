-- ===== src/Aggregator/Tests.antt =====
-- Runs of the aggregator, and the theorems at them.
use wallet_service.Base.{
  ◌+◌, arith, String, ◌≡◌, refl, true, false, Option, none, List, [], ◌∷◌, ◌++◌,
}
use wallet_service.Base.Int.{pos}
use wallet_service.Base.Result.{ok, err}
use wallet_service.Base.Text.{is_empty}
use wallet_service.Sql.{refused, lost}
use wallet_service.Aggregator.Event.{PageViewEvent, Message, Ip, json_parse, parse_and_validate}
use wallet_service.Aggregator.Buffer.{BufferedMessage, new_buffer}
use wallet_service.Aggregator.Dlq.{Producer}
use wallet_service.Aggregator.Pipeline.{State, Metrics}
use wallet_service.Aggregator.Threads.{
  idle, about_to_flush, System, Turn, run_turn, loop_turn, closer_turn, got, fetch_failed, ticker,
  buffered, schedule,
}
use wallet_service.Aggregator.Threads.Accounted.{IsAccounted}
use wallet_service.Aggregator.Server.{serve}
use wallet_service.Aggregator.Server.Served.{IsCovered, schedule-IsCovered}
use wallet_service.Aggregator.Threads.NoLoss.{IsSafe, accepted-IsSafe}
use wallet_service.Aggregator.Threads.CommitSafe.{IsSound, schedule-IsSound}
use wallet_service.Aggregator.Threads.{flush, rows_of, messages_of}
use wallet_service.Aggregator.Threads.Draining.{holding, flush_drains}
use wallet_service.Aggregator.Threads.Overtaking.{at_head, waiting, dead_letter_overtakes}

abbrev view : PageViewEvent
view = record {
  event_id = "e";
  page_id = "p";
  user_id = "u";
  view_duration = pos 1200;
  timestamp = 63900000000000000000;
  user_agent = "";
  ip_address = "";
  region = "";
  is_bounce = false;
}

abbrev good : Message
good = record { value = "{}"; decoded = ok view; offset = 4; partition = 0 }

abbrev bad : Message
bad = record { value = "{"; decoded = err "unexpected end"; offset = 5; partition = 0 }

abbrev parse_ip : String → Option Ip
parse_ip _ = none

abbrev metrics : Metrics
metrics = record { consumed = 0; inserted_raw = 0; dlq_count = 0; ch_errors = 0; last_flush = 0 }

abbrev producer : Producer
producer = record { enabled = true; brokers = "kafka:9092" ∷ []; topic = "dlq" }

-- The first write is refused, and the second loses its answer.
abbrev state : State
state = record {
  buffer = new_buffer 2;
  metrics = metrics;
  page_views_raw = [];
  processing_errors = [];
  letters = [];
  committed = [];
  clock = 7;
  done = [];
  faults = refused ∷ lost ∷ [];
}

abbrev system : System
system = record { shared = state; run = idle; flush_loop = idle; closer = about_to_flush }

-- flushLoop flushes between two messages, and Close at the end.
abbrev turns : List Turn
turns =
    loop_turn ticker
    ∷ loop_turn ticker
    ∷ run_turn (got bad)
    ∷ loop_turn ticker
    ∷ run_turn fetch_failed
    ∷ closer_turn
    ∷ loop_turn ticker
    ∷ []

accepted-IsSafe_example :
    IsSafe
      (buffered parse_ip good view state)
      (schedule producer parse_ip (run_turn (got good) ∷ turns) system)
unfolding parse_and_validate is_empty
accepted-IsSafe_example = accepted-IsSafe producer parse_ip good view turns system refl refl

schedule-IsSound_example : IsSound (schedule producer parse_ip (run_turn (got good) ∷ turns) system)
schedule-IsSound_example =
    schedule-IsSound producer parse_ip (run_turn (got good) ∷ turns) system ((tt, tt), tt, tt, tt)

abbrev after_overtaking : System
after_overtaking =
    schedule producer parse_ip
      (run_turn (got good)
        ∷ run_turn (got bad)
        ∷ run_turn fetch_failed
        ∷ run_turn fetch_failed
        ∷ [])
      (at_head ("kafka:9092" ∷ []) "dlq" parse_ip (new_buffer 2) metrics [] [] [] [] 7)

dead_letter_overtakes_example :
    (after_overtaking.shared.committed ≡ bad ∷ [])
    × (after_overtaking.shared.page_views_raw ≡ [])
    × (after_overtaking.shared.buffer.messages
        ≡ []
          ++ waiting
              ("kafka:9092" ∷ [])
              "dlq"
              parse_ip
              (new_buffer 2)
              metrics
              []
              []
              []
              []
              7
              good
              view
              bad
              (json_parse "unexpected end")
            ∷ [])
unfolding parse_and_validate is_empty
dead_letter_overtakes_example =
    dead_letter_overtakes ("kafka:9092" ∷ []) "dlq" parse_ip (new_buffer 2) metrics [] [] [] [] 7
      good view bad (json_parse "unexpected end") fetch_failed refl refl refl

abbrev two : List BufferedMessage
two = buffered parse_ip good view state ∷ []

flush_drains_example :
    (flush producer (holding producer 2 false metrics [] [] [] [] 7 [])
      ≡ holding producer 2 false metrics [] [] [] [] 7 [])
    × (flush producer
          (holding producer 2 false metrics [] [] [] [] 7 (buffered parse_ip good view state ∷ two))
        ≡ record (holding producer 2 false metrics [] [] [] [] 7 []) {
          page_views_raw = rows_of (buffered parse_ip good view state ∷ two) ++ [];
          committed = messages_of (buffered parse_ip good view state ∷ two) ++ [];
          metrics = record metrics { inserted_raw = 0 + 2; last_flush = 7 };
        })
flush_drains_example =
    flush_drains producer 2 false metrics [] [] [] [] 7 (buffered parse_ip good view state) two

schedule-IsCovered_example :
    IsAccounted (schedule producer parse_ip (run_turn (got good) ∷ turns) system)
    × IsCovered
        (serve
          (λ _. "t")
          "/metrics"
          "GET"
          (schedule producer parse_ip (run_turn (got good) ∷ turns) system).shared)
        (schedule producer parse_ip (run_turn (got good) ∷ turns) system).shared
schedule-IsCovered_example =
    schedule-IsCovered producer parse_ip (λ _. "t") (run_turn (got good) ∷ turns) system "/metrics"
      "GET" (omega arith)
