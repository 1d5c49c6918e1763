-- ===== src/Config/Aggregator.antt =====
-- pv-aggregator/internal/config/config.go
use wallet_service.Base.{String, ◌≢◌, refl, Bool, ◌=ₛ◌, Option, none, List, arith, if◌then◌else◌}
use wallet_service.Base.Int.{ℤ, pos}
use wallet_service.Base.Text.{is_empty, or_default, or_default-full, broker_list}
use wallet_service.Config.{Env, parse_or, atoi}

pub record Config : Type 0 where
  pub kafka_brokers : String
  pub kafka_topic : String
  pub kafka_dlq_topic : String
  pub kafka_group_id : String
  pub batch_size : ℤ
  pub flush_interval_ms : ℤ
  pub clickhouse_addr : String
  pub clickhouse_db : String
  pub dlq_enabled : Bool
  pub health_port : String

-- getEnv
abbrev pub get_env : Env → String → String → String
unfolding or_default
get_env env key d = or_default (env key) d

unfoldable pub load : Env → Option Config
unfolding is_empty get_env parse_or atoi
load env =
    let c : Config = record {
      kafka_brokers = get_env env "KAFKA_BROKERS" "kafka:9092";
      kafka_topic = get_env env "KAFKA_TOPIC" "page_views";
      kafka_dlq_topic = get_env env "KAFKA_DLQ_TOPIC" "page_views_dlq";
      kafka_group_id = get_env env "KAFKA_GROUP_ID" "pv-aggregator";
      batch_size = parse_or atoi (get_env env "BATCH_SIZE" "1000") (pos 1000);
      flush_interval_ms = parse_or atoi (get_env env "FLUSH_INTERVAL_MS" "2000") (pos 2000);
      clickhouse_addr = get_env env "CLICKHOUSE_ADDR" "clickhouse:9000";
      clickhouse_db = get_env env "CLICKHOUSE_DB" "default";
      dlq_enabled = get_env env "DLQ_ENABLED" "true" =ₛ "true";
      health_port = get_env env "HEALTH_PORT" "8083";
    } in
    if is_empty c.clickhouse_addr then Option.none else Option.some c

unfoldable pub kafka_broker_list : Config → List String
unfolding broker_list
kafka_broker_list c = broker_list c.kafka_brokers

-- The check of CLICKHOUSE_ADDR never fails, since the variable has a default: whatever the environment
-- holds, Load returns a configuration.
load_total : (env : Env) → load env ≢ none
unfolding load get_env
load_total env = ground (arith, or_default-full (env "CLICKHOUSE_ADDR") "clickhouse:9000" refl)
