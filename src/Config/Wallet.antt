-- ===== src/Config/Wallet.antt =====
-- gw-currency-wallet/internal/config.go
use wallet_service.Base.{ℕ, String, ◌≡◌, refl, false, ◌||◌, arith, if◌then◌else◌}
use wallet_service.Base.Int.{ℤ, pos}
use wallet_service.Base.Text.{is_empty, or_default, or_default-full}
use wallet_service.Base.Result.{Result, ok, err}
use wallet_service.Wallet.Money.{Float, whole}
use wallet_service.Config.{Env, Parsers, parse_or, atoi, dsn_of}

pub record Config : Type 0 where
  pub app_port : String
  pub jwt_secret : String
  pub db_host : String
  pub db_port : String
  pub db_user : String
  pub db_password : String
  pub db_name : String
  pub db_sslmode : String
  pub exchanger_addr : String
  pub exchanger_timeout : ℤ
  pub exchange_cache_ttl : ℤ
  pub kafka_brokers : String
  pub kafka_topic_large_tx : String
  pub large_transaction_threshold : Float
  pub kafka_producer_retries : ℤ
  pub kafka_producer_backoff_ms : ℤ
  pub kafka_producer_timeout_ms : ℤ

abbrev pub nanoseconds_per_second : ℕ
nanoseconds_per_second = 1000000000

-- The variables as they are read, before the checks.
unfoldable pub read : Parsers → Env → Config
unfolding parse_or atoi
read p env = record {
  app_port = env "APP_PORT";
  jwt_secret = env "JWT_SECRET";
  db_host = env "DB_HOST";
  db_port = env "DB_PORT";
  db_user = env "DB_USER";
  db_password = env "DB_PASSWORD";
  db_name = env "DB_NAME";
  db_sslmode = env "DB_SSLMODE";
  exchanger_addr = env "EXCHANGER_ADDR";
  exchanger_timeout = parse_or p.duration (env "EXCHANGER_TIMEOUT") (pos 2000000000);
  exchange_cache_ttl = parse_or p.duration (env "EXCHANGE_CACHE_TTL") (pos 10000000000);
  kafka_brokers = env "KAFKA_BROKERS";
  kafka_topic_large_tx = env "KAFKA_TOPIC_LARGE_TRANSACTIONS";
  large_transaction_threshold = parse_or p.float (env "LARGE_TRANSACTION_THRESHOLD") (whole 40000);
  kafka_producer_retries = parse_or atoi (env "KAFKA_PRODUCER_RETRIES") (pos 3);
  kafka_producer_backoff_ms = parse_or atoi (env "KAFKA_PRODUCER_BACKOFF_MS") (pos 200);
  kafka_producer_timeout_ms = parse_or atoi (env "KAFKA_PRODUCER_TIMEOUT_MS") (pos 2000);
}

pub data ConfigError : Type 0 where
  missing_jwt_secret missing_db_vars : ConfigError

-- The checks and the defaults, in the order of the code.
unfoldable pub checked : Config → Result ConfigError Config
unfolding is_empty or_default
checked c =
    let c1 = record c {
      kafka_topic_large_tx = or_default c.kafka_topic_large_tx "large_transactions";
      app_port = or_default c.app_port "8080";
    } in
    if is_empty c1.jwt_secret
    then err missing_jwt_secret
    else (if is_empty c1.db_host
          || is_empty c1.db_port
          || is_empty c1.db_user
          || is_empty c1.db_name
        then err missing_db_vars
        else ok (record c1 { db_sslmode = or_default c1.db_sslmode "disable" }))

unfoldable pub load_config : Parsers → Env → Result ConfigError Config
unfolding read checked
load_config p env = checked (read p env)

unfoldable pub postgres_dsn : Config → String
postgres_dsn c = dsn_of c.db_user c.db_password c.db_host c.db_port c.db_name c.db_sslmode

abbrev pub IsComplete : Config → Type 0
IsComplete c =
    (is_empty c.jwt_secret ≡ false)
    × (is_empty c.db_host ≡ false)
    × (is_empty c.db_port ≡ false)
    × (is_empty c.db_user ≡ false)
    × (is_empty c.db_name ≡ false)
    × (is_empty c.app_port ≡ false)
    × (is_empty c.kafka_topic_large_tx ≡ false)
    × (is_empty c.db_sslmode ≡ false)

checked-IsComplete : (c c' : Config) → checked c ≡ ok c' → IsComplete c'
unfolding checked
checked-IsComplete c c' h = ground (
  arith,
  or_default-full c.kafka_topic_large_tx "large_transactions" refl,
  or_default-full c.app_port "8080" refl,
  or_default-full c.db_sslmode "disable" refl,
)

-- Whatever the environment holds: a configuration that LoadConfig returns without an error has a
-- secret, a database host, port, user and name, a port to listen on, a topic and an SSL mode, none of
-- them empty. The password of the database may be empty.
pub load_config-IsComplete :
    (p : Parsers) (env : Env) (c : Config) → load_config p env ≡ ok c → IsComplete c
unfolding load_config
load_config-IsComplete p env c h = checked-IsComplete (read p env) c h
