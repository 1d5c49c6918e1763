-- ===== src/Producer/Tests.antt =====
-- Runs of the producer, and the theorems at them.
use wallet_service.Base.{
  ℕ, ◌+◌, ◌*◌, ◌≤◌, ◌≡◌, ◌≢◌, refl, true, false, none, List, [], ◌∷◌, arith, ◌=ₛ◌, if◌then◌else◌,
}
use wallet_service.Base.Int.{pos}
use wallet_service.Base.Text.{is_empty}
use wallet_service.Base.Result.{ok, err}
use wallet_service.Config.Producer.{Config}
use wallet_service.Aggregator.Event.{parse_and_validate, empty_page_id}
use wallet_service.Producer.Event.{PageViewEvent, encoded}
use wallet_service.Producer.Generator.{
  Generator, Draws, new_generator, generate_new, generate_page_id, is_error, is_bounce, random_ip,
}
use wallet_service.Producer.Generator.Copies.{generate_all, views, generate_all-views}
use wallet_service.Producer.Metrics.{Metrics, get_stats}
use wallet_service.Producer.Metrics.Window.{Summarises, record_all, record_all-Summarises}
use wallet_service.Producer.Metrics.Percentile.{p95-newest}
use wallet_service.Producer.Broker.{State, Message, Write, failed}
use wallet_service.Producer.Kafka.{
  Sending, first_state, message_of, message_in, send, flush, update_config, payload_of,
  get_partition_key,
}
use wallet_service.Producer.Kafka.Settings.{async_writer_hides_failure}
use wallet_service.Producer.Kafka.Flushes.{IsBounded, send-IsBounded}
use wallet_service.Producer.Threads.{Turn, sends, ticks, ends, closes, schedule}
use wallet_service.Producer.Threads.Places.{total, weigh}
use wallet_service.Producer.Threads.Conserved.{handed, schedule-conserved, failed_flush_is_final}
use wallet_service.Producer.Threads.Stranded.{update_config-strands}
use wallet_service.Producer.Delivered.{as_fetched, message_of-verdict}
use wallet_service.Producer.Loop.{
  App, AppTurn, ticked, controlled, TickDraws, EventDraws, run_generator,
}
use wallet_service.Producer.Loop.Bursts.{burst_ends}
use wallet_service.Producer.Control.{ControlRequest, Server, handle_control, sets_producer}
use wallet_service.Producer.Control.Settings.{IsControlled, handle_control-IsControlled}

abbrev draws : Draws
draws = record {
  duplicate_roll = 9007199254740991;
  event_uuid = "9b2e";
  page = 12;
  user_uuid = "0d9c1f44-aaaa";
  now = 63900000000000000000;
  agent = 1;
  address = (1, 255, 4096, 65535);
  region = 2;
  error_roll = 9007199254740991;
  error_type = 0;
  negative = 7;
  bounce_roll = 9007199254740991;
  duration = 1500;
}

-- No page, since the roll is below 5 percent.
abbrev spoiled : Draws
spoiled = record draws { error_roll = 0 }

-- Repeats the event before it.
abbrev again : Draws
again = record draws { duplicate_roll = 0; page = 3 }

generated_page : (generate_new draws).page_id ≡ "/about"
unfolding generate_new generate_page_id is_error is_bounce
generated_page = refl

generated_address : random_ip (1, 255, 4096, 65535) ≡ "2001:db8::1:ff:1000:ffff"
unfolding random_ip
generated_address = refl

abbrev maker : Generator
maker = new_generator "regular" (pos 5)

generate_all-views_example :
    ((generate_all (draws ∷ again ∷ spoiled ∷ []) maker).0
      ≡ views maker.duplicate_rate none (draws ∷ again ∷ spoiled ∷ []))
    × ((generate_all (draws ∷ again ∷ spoiled ∷ []) maker).1.event_counter ≡ 0 + 3)
generate_all-views_example = generate_all-views (draws ∷ again ∷ spoiled ∷ []) maker tt

record_all-Summarises_example :
    Summarises
      (3 ∷ 1 ∷ 2 ∷ [])
      (record_all (1 ∷ 2 ∷ []) (record { sent_count = 1; failed_count = 0; latencies = 3 ∷ [] }))
record_all-Summarises_example =
    record_all-Summarises (3 ∷ []) (1 ∷ 2 ∷ [])
      (record { sent_count = 1; failed_count = 0; latencies = 3 ∷ [] }) (refl, refl)

-- The newest of three latencies is the smallest.
abbrev three : Metrics
three = record { sent_count = 3; failed_count = 0; latencies = 900 ∷ 800 ∷ 1 ∷ [] }

p95-newest_example : (get_stats three).p95_latency ≡ 1
p95-newest_example = p95-newest three (900 ∷ 800 ∷ []) 1 refl (omega arith)

abbrev config : Config
config = record {
  kafka_brokers = "kafka:9092";
  kafka_topic = "page_views";
  kafka_dlq_topic = "page_views_dlq";
  http_port = "8082";
  default_mode = "regular";
  default_rps = pos 5;
  batch_size = pos 3;
  flush_interval_ms = pos 1000;
  send_mode = "batch";
  partition_strategy = "key";
}

abbrev view : PageViewEvent
view = record {
  event_id = "e";
  page_id = "/home";
  user_id = "u";
  view_duration = pos 1200;
  timestamp = 63900000000000000000;
  user_agent = "";
  ip_address = "";
  region = "EU";
  is_bounce = false;
}

abbrev sending : Sending
sending = record { event = view; corrupted = false; key_draw = 0; late = false }

abbrev message : Message
message = record { key = "/home"; value = encoded view; event_id = "e" }

abbrev idle : State
idle = first_state config

abbrev refusing : Write
refusing = record { outcome = failed []; latency = 9; again = [] }

-- It brings the second of two messages, three times.
abbrev halving : Write
halving = record { outcome = failed (false ∷ true ∷ []); latency = 9; again = 2 ∷ [] }

-- Two messages wait, and the next write fails.
abbrev full : State
full = record idle { batch = message ∷ message ∷ []; writes = refusing ∷ [] }

-- Started in the async mode.
abbrev asynchronously : Config
asynchronously = record config { send_mode = "async" }

abbrev asynchronous : State
asynchronous = record (first_state asynchronously) { writes = refusing ∷ [] }

abbrev now_sync : State
now_sync = (update_config "sync" (pos 3) (pos 1000) "key" asynchronous).1

send-IsBounded_example : IsBounded (send sending full).1
unfolding message_in
send-IsBounded_example = send-IsBounded sending full message refl refl

async_writer_hides_failure_example :
    ((send sending now_sync).0 ≡ true)
    × ((send sending now_sync).1.topic ≡ [])
    × ((send sending now_sync).1.missing ≡ message ∷ [])
    × ((send sending now_sync).1.metrics.failed_count ≡ 0)
unfolding message_in update_config
async_writer_hides_failure_example =
    async_writer_hides_failure asynchronously sending asynchronous message (pos 3) (pos 1000) "key"
      9 [] refl refl refl refl

-- Every message counts once.
abbrev each : Message → ℕ
each m = 1

abbrev turns : List Turn
turns = sends sending ∷ sends sending ∷ sends sending ∷ ticks ∷ ends 0 ∷ closes ∷ []

schedule-conserved_example :
    (total each (schedule turns full) ≡ total each full + weigh each (handed turns full))
    × (weigh each (schedule turns full).repeated + 9 * weigh each full.topic
        ≤ weigh each full.repeated + 9 * weigh each (schedule turns full).topic)
schedule-conserved_example = schedule-conserved each turns full

-- Two messages wait, and the next write brings only the second.
abbrev other : Message
other = record { key = "/cart"; value = encoded view; event_id = "f" }

abbrev half : State
half = record idle { batch = message ∷ other ∷ []; writes = halving ∷ [] }

-- Counts the messages of the one event.
abbrev of_event : Message → ℕ
of_event m = if m.event_id =ₛ "e" then 1 else 0

nothing_new : weigh of_event (handed (ticks ∷ ends 0 ∷ closes ∷ []) (flush half).1) ≡ 0
unfolding handed
nothing_new = refl

failed_flush_is_final_example :
    (weigh of_event (schedule (ticks ∷ ends 0 ∷ closes ∷ []) (flush half).1).topic ≡ 0)
    × (weigh of_event (schedule (ticks ∷ ends 0 ∷ closes ∷ []) (flush half).1).repeated ≡ 0)
failed_flush_is_final_example =
    failed_flush_is_final of_event half message (other ∷ []) 9 (false ∷ true ∷ []) (2 ∷ []) []
      (ticks ∷ ends 0 ∷ closes ∷ []) refl refl refl refl refl refl refl nothing_new

update_config-strands_example :
    (schedule
      (sends sending ∷ ticks ∷ [])
      (update_config "sync" (pos 3) (pos 1000) "key" full).1).batch
    ≡ full.batch
update_config-strands_example =
    update_config-strands "sync" (pos 3) (pos 1000) "key" full (sends sending ∷ ticks ∷ []) refl
      (tt, (tt, tt))

timed : spoiled.now ≢ 0
timed = omega arith

message_of-verdict_example :
    parse_and_validate (
      as_fetched "{}" 7 0
        (record { key = ""; value = encoded (generate_new spoiled); event_id = "9b2e" }))
    ≡ err empty_page_id
unfolding message_of payload_of get_partition_key generate_new is_error is_bounce is_empty
message_of-verdict_example =
    message_of-verdict spoiled refl timed "rr" "{}" false 0 7 0
      (record { key = ""; value = encoded (generate_new spoiled); event_id = "9b2e" }) refl

abbrev event_draws : EventDraws
event_draws = record { draws = draws; corrupt_roll = 9007199254740991; key_draw = 0; late = false }

-- A burst of 100 events.
abbrev tick_draws : TickDraws
tick_draws = record { target_draw = 0; event = λ i. event_draws }

abbrev app : App
app = record {
  cfg = config;
  generator = new_generator "burst" (pos 5);
  producer = idle;
  burst = record { active = false; count = 0; target = 0 };
  interval = 200;
}

-- A request that leaves the mode, and sets the size of a batch.
abbrev resize : ControlRequest
resize = record {
  mode = "";
  rps = pos 0;
  batch_size = pos 500;
  flush_ms = pos 0;
  strategy = "";
  send_mode = "";
}

abbrev app_turns : List AppTurn
app_turns = controlled "POST" (ok resize) ∷ ticked tick_draws ∷ []

burst_ends_example :
    ((run_generator (ticked tick_draws ∷ app_turns) app).burst.active ≡ true)
    × ((run_generator (ticked tick_draws ∷ app_turns) app).generator.event_counter ≡ 0 + 20)
    × ((run_generator (ticked tick_draws ∷ app_turns) app).interval ≡ 200)
unfolding is_empty
burst_ends_example = burst_ends tick_draws app_turns app refl refl (refl, (refl, tt)) (omega arith)

abbrev server : Server
server = record { cfg = config; generator = maker; producer = asynchronous }

handle_control-IsSet_example : IsControlled resize server (handle_control "POST" (ok resize) server)
unfolding sets_producer
handle_control-IsSet_example = handle_control-IsControlled resize server refl
