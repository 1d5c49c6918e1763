-- ===== src/Notification/Health.antt =====
-- gw-notification/internal/health/handler.go
use wallet_service.Base.{
  ℕ, String, ◌≡◌, refl, Bool, true, false, not, ◌||◌, ◌&&◌, ◌=ₛ◌, List, [], ◌∷◌, if◌then◌else◌,
}

pub record HealthResponse : Type 0 where
  pub status : String
  pub mongo : String
  pub kafka : String

abbrev pub all_ok : HealthResponse
all_ok = record { status = "ok"; mongo = "ok"; kafka = "ok" }

abbrev pub check_mongo : Bool → HealthResponse → HealthResponse
check_mongo true h = h
check_mongo false h = record h { status = "degraded"; mongo = "error" }

-- The first broker is dialled, if there is one.
abbrev pub check_kafka : List String → Bool → HealthResponse → HealthResponse
check_kafka [] dialled h = record h { kafka = "ok" }
check_kafka (b ∷ bs) true h = h
check_kafka (b ∷ bs) false h = record h { status = "degraded"; kafka = "error" }

pub data Reply : Type 0 where
  not_found : Reply
  health : ℕ → HealthResponse → Reply

-- Whether Mongo answers a ping (true without a client), and whether the first broker can be dialled,
-- are inputs.
unfoldable pub serve_http : List String → Bool → Bool → String → String → Reply
serve_http brokers mongo_up kafka_up method path =
    if not (method =ₛ "GET") || not (path =ₛ "/health")
    then not_found
    else (let h = check_kafka brokers kafka_up (check_mongo mongo_up all_ok) in
        health (if h.status =ₛ "degraded" then 503 else 200) h)

abbrev pub reaches_kafka : List String → Bool → Bool
reaches_kafka [] up = true
reaches_kafka (b ∷ bs) up = up

-- GET /health answers 200 when Mongo answers and the first Kafka broker, if one is configured, can be
-- dialled; else 503, with the failed parts marked "error" and the others "ok".
serve_http_lem :
    (brokers : List String) (mongo_up kafka_up : Bool)
    → serve_http brokers mongo_up kafka_up "GET" "/health"
      ≡ health (if mongo_up && reaches_kafka brokers kafka_up then 200 else 503) (record {
        status = if mongo_up && reaches_kafka brokers kafka_up then "ok" else "degraded";
        mongo = if mongo_up then "ok" else "error";
        kafka = if reaches_kafka brokers kafka_up then "ok" else "error";
      })
unfolding serve_http
serve_http_lem [] true kafka_up = refl
serve_http_lem [] false kafka_up = refl
serve_http_lem (b ∷ bs) true true = refl
serve_http_lem (b ∷ bs) true false = refl
serve_http_lem (b ∷ bs) false true = refl
serve_http_lem (b ∷ bs) false false = refl
