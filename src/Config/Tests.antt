-- ===== src/Config/Tests.antt =====
-- Runs of the configurations, and the theorems at them.
use wallet_service.Base.{refl, ◌=ₛ◌, ◌||◌, none, if◌then◌else◌}
use wallet_service.Base.Text.{is_empty, or_default}
use wallet_service.Config.{Env, Parsers}
use wallet_service.Config.Wallet as Wallet
use wallet_service.Config.Wallet.{IsComplete, load_config-IsComplete}

-- Every variable is "x", but for the numbers.
abbrev env : Env
env key =
    if key =ₛ "JWT_SECRET"
      || key =ₛ "DB_HOST"
      || key =ₛ "DB_PORT"
      || key =ₛ "DB_USER"
      || key =ₛ "DB_NAME"
    then "x"
    else ""

abbrev parsers : Parsers
parsers = record { duration = λ s. none; float = λ s. none }

abbrev loaded : Wallet.Config
loaded = record (Wallet.read parsers env) {
  kafka_topic_large_tx = "large_transactions";
  app_port = "8080";
  db_sslmode = "disable";
}

load_config-IsComplete_example : IsComplete loaded
unfolding Wallet.load_config or_default is_empty
load_config-IsComplete_example = load_config-IsComplete parsers env loaded refl
