-- ===== src/Config/Notification.antt =====
-- gw-notification/internal/config/config.go
use wallet_service.Base.{String, Bool, ◌||◌, ◌=ₛ◌, Option, List, if◌then◌else◌}
use wallet_service.Base.Text.{is_empty, or_default, broker_list}
use wallet_service.Config.{Env}

pub record Config : Type 0 where
  pub kafka_brokers : String
  pub kafka_topic : String
  pub kafka_group_id : String
  pub use_consumer_group : Bool
  pub mongo_uri : String
  pub mongo_db : String
  pub mongo_collection : String
  pub health_port : String

unfoldable pub load : Env → Option Config
unfolding is_empty or_default
load env =
    let c : Config = record {
      kafka_brokers = or_default (env "KAFKA_BROKERS") "kafka:9092";
      kafka_topic = or_default (env "KAFKA_TOPIC") "large_transactions";
      kafka_group_id = or_default (env "KAFKA_GROUP_ID") "notification-service";
      use_consumer_group =
          env "NOTIFICATION_USE_CONSUMER_GROUP" =ₛ "1"
          || env "NOTIFICATION_USE_CONSUMER_GROUP" =ₛ "true";
      mongo_uri = env "MONGO_URI";
      mongo_db = or_default (env "MONGO_DB") "notification";
      mongo_collection = or_default (env "MONGO_COLLECTION") "large_transactions";
      health_port = or_default (env "HEALTH_PORT") "8081";
    } in
    if is_empty c.mongo_uri then Option.none else Option.some c

unfoldable pub kafka_broker_list : Config → List String
unfolding broker_list
kafka_broker_list c = broker_list c.kafka_brokers
