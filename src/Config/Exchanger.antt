-- ===== src/Config/Exchanger.antt =====
-- gw-exchanger/internal/config/config.go
use wallet_service.Base.{String, ◌||◌, Option, if◌then◌else◌}
use wallet_service.Base.Text.{is_empty, or_default}
use wallet_service.Config.{Env, dsn_of}

pub record Config : Type 0 where
  pub db_host : String
  pub db_port : String
  pub db_user : String
  pub db_password : String
  pub db_name : String
  pub db_sslmode : String
  pub grpc_port : String

unfoldable pub load : Env → Option Config
unfolding is_empty or_default
load env =
    let c : Config = record {
      db_host = env "DB_HOST";
      db_port = or_default (env "DB_PORT") "5432";
      db_user = env "DB_USER";
      db_password = env "DB_PASSWORD";
      db_name = env "DB_NAME";
      db_sslmode = or_default (env "DB_SSLMODE") "disable";
      grpc_port = or_default (env "GRPC_PORT") "9090";
    } in
    if is_empty c.db_host || is_empty c.db_user || is_empty c.db_name
    then Option.none
    else Option.some c

unfoldable pub dsn : Config → String
dsn c = dsn_of c.db_user c.db_password c.db_host c.db_port c.db_name c.db_sslmode
