-- ===== src/Wallet/Health.antt =====
-- HandleHealth of gw-currency-wallet/internal/handler.go
pub mod Status
use wallet_service.Base.{ℕ, Bool, true, false, Option, none, some, [], ◌∷◌, ◌=ₛ◌, if◌then◌else◌}
use wallet_service.Base.Result.{is_ok}
use wallet_service.Wallet.Client.{Client, get_all_rates}
use wallet_service.Wallet.Publisher.{Publisher}
use wallet_service.Wallet.Http.{
  HealthResponse, health, Response, Request, World, Handler, write_json, pure, ◌>>◌, require_method,
}

-- Each check that fails sets the status and its own field.
abbrev pub all_ok : HealthResponse
all_ok = record { status = "ok"; db = "ok"; exchanger = "ok"; kafka = "ok" }

abbrev pub check_db : Bool → HealthResponse → HealthResponse
check_db true h = h
check_db false h = record h { status = "degraded"; db = "error" }

abbrev pub check_exchanger : Bool → HealthResponse → HealthResponse
check_exchanger true h = h
check_exchanger false h = record h { status = "degraded"; exchanger = "error" }

abbrev pub check_kafka : Bool → HealthResponse → HealthResponse
check_kafka true h = h
check_kafka false h = record h { status = "degraded"; kafka = "error" }

-- GetAllRates, if there is a client.
abbrev pub probe : Option Client → World → Bool × World
probe none w = (true, w)
probe (some c) w = let (r, c') = get_all_rates c in (is_ok r, record w { client = some c' })

unfoldable pub probe_exchanger : World → Bool × World
unfolding get_all_rates is_ok
probe_exchanger w = probe w.client w

-- Publisher.Ping dials the first broker, if there is a publisher with one.
abbrev pub ping : Option Publisher → Bool → Bool
ping none dialled = true
ping (some p) dialled = elim p.brokers [ [] ↦ true | b ∷ bs ↦ dialled ]

unfoldable pub ping_kafka : Option Publisher → Bool → Bool
ping_kafka p dialled = ping p dialled

unfoldable pub status_of : HealthResponse → ℕ
status_of h = if h.status =ₛ "degraded" then 503 else 200

-- Whether the pool answers a ping, and whether the first Kafka broker can be dialled, are inputs.
unfoldable pub handle_health : Bool → Bool → Request → Handler Response
unfolding probe_exchanger ping_kafka status_of
handle_health db_up kafka_up r = do
  require_method "GET" r
  λ w.
      let (up, w') = probe_exchanger w in
      let h =
        check_kafka (ping_kafka w'.publisher kafka_up)
          (check_exchanger up (check_db db_up all_ok)) in
      pure (write_json (status_of h) (health h)) w'
