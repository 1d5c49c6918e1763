-- ===== src/Wallet/Health/Status.antt =====
-- The reply of HandleHealth, gw-currency-wallet/internal/handler.go.
use wallet_service.Base.{
  ℕ, ◌≡◌, refl, ap, ◌∙◌, Bool, true, false, ◌&&◌, Option, none, some, if◌then◌else◌,
}
use wallet_service.Wallet.Publisher.{Publisher}
use wallet_service.Wallet.Client.{Client}
use wallet_service.Wallet.Http.{health, Response, World, go, write_json, ◌>>=◌}
use wallet_service.Wallet.Health.{
  all_ok, check_db, check_exchanger, check_kafka, probe_exchanger, ping_kafka, status_of,
  handle_health, probe,
}

-- The reply for the outcomes of the three checks.
abbrev pub report : Bool → Bool → Bool → Response
report db exchanger kafka = write_json (if db && exchanger && kafka then 200 else 503) (
    health (record {
      status = if db && exchanger && kafka then "ok" else "degraded";
      db = if db then "ok" else "error";
      exchanger = if exchanger then "ok" else "error";
      kafka = if kafka then "ok" else "error";
    }))

-- The handler's reply, check by check.
abbrev replied : Bool → Bool → Bool → Response
unfolding status_of
replied db exchanger kafka =
    let h = check_kafka kafka (check_exchanger exchanger (check_db db all_ok)) in
    write_json (status_of h) (health h)

status_report : (db exchanger kafka : Bool) → replied db exchanger kafka ≡ report db exchanger kafka
unfolding status_of replied
status_report true true true = refl
status_report true true false = refl
status_report true false true = refl
status_report true false false = refl
status_report false true true = refl
status_report false true false = refl
status_report false false true = refl
status_report false false false = refl

publisher-probe : (c : Option Client) (w : World) → (probe c w).1.publisher ≡ w.publisher
publisher-probe none w = refl
publisher-probe (some c) w = refl

-- GET /health answers 200 with every part "ok" when the database answers, the exchanger's rates can be
-- had (or there is no client) and the first Kafka broker can be dialled (or there is no publisher);
-- else 503 and "degraded", with the parts that failed, and only those, marked "error".
handle_health_lem :
    (db_up kafka_up : Bool) (w : World) (user : Option ℕ)
    → handle_health db_up kafka_up (record { method = "GET"; user = user }) w ≡ (
      go (report db_up (probe_exchanger w).0 (ping_kafka w.publisher kafka_up)),
      (probe_exchanger w).1,
    )
unfolding handle_health ◌>>=◌ probe_exchanger replied
handle_health_lem db_up kafka_up w user =
    let q = probe_exchanger w in
    ap (λ (x : Option Publisher). (go (replied db_up q.0 (ping_kafka x kafka_up)), q.1))
      (publisher-probe w.client w)
    ∙ ap (λ (r : Response). (go r, q.1)) (status_report db_up q.0 (ping_kafka w.publisher kafka_up))
