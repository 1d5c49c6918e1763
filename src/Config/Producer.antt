-- ===== src/Config/Producer.antt =====
-- pv-producer/internal/config/config.go
use wallet_service.Base.{String, List}
use wallet_service.Base.Int.{ℤ, pos}
use wallet_service.Base.Text.{or_default, broker_list}
use wallet_service.Config.{Env, parse_or, atoi}

pub record Config : Type 0 where
  pub kafka_brokers : String
  pub kafka_topic : String
  pub kafka_dlq_topic : String
  pub http_port : String
  pub default_mode : String
  pub default_rps : ℤ
  pub batch_size : ℤ
  pub flush_interval_ms : ℤ
  pub send_mode : String
  pub partition_strategy : String

-- getEnv
abbrev pub get_env : Env → String → String → String
unfolding or_default
get_env env key d = or_default (env key) d

-- parseInt
abbrev pub parse_int : String → ℤ → ℤ
unfolding parse_or atoi
parse_int s d = parse_or atoi s d

-- Load returns no error.
unfoldable pub load : Env → Config
unfolding get_env parse_int
load env = record {
  kafka_brokers = get_env env "KAFKA_BROKERS" "kafka:9092";
  kafka_topic = get_env env "KAFKA_TOPIC" "page_views";
  kafka_dlq_topic = get_env env "KAFKA_DLQ_TOPIC" "page_views_dlq";
  http_port = get_env env "HTTP_PORT" "8082";
  default_mode = get_env env "DEFAULT_MODE" "regular";
  default_rps = parse_int (get_env env "DEFAULT_RPS" "5") (pos 5);
  batch_size = parse_int (get_env env "BATCH_SIZE" "200") (pos 200);
  flush_interval_ms = parse_int (get_env env "FLUSH_MS" "1000") (pos 1000);
  send_mode = get_env env "SEND_MODE" "batch";
  partition_strategy = get_env env "PARTITION_STRATEGY" "key";
}

unfoldable pub kafka_broker_list : Config → List String
unfolding broker_list
kafka_broker_list c = broker_list c.kafka_brokers
