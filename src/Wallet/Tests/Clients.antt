-- ===== src/Wallet/Tests/Clients.antt =====
-- Runs of the client and the publisher, and the theorems at them.
use wallet_service.Wallet.Tests.{usd}
use wallet_service.Base.{
  ℕ, ◌*◌, ◌^◌, ◌+◌, ◌≤◌, ◌≡◌, ◌⊎◌, true, false, Option, none, some, [], ◌∷◌, ◌++◌ as ◌++ₗ◌, arith,
}
use wallet_service.Base.Int.{pos, ltb_ℤ}
use wallet_service.Base.Dict.{Dict}
use wallet_service.Wallet.Money.{Float, whole}
use wallet_service.Wallet.Client.{Exchanger, Client}
use wallet_service.Wallet.Client.Refreshes.{look, locked, steps, answers, due, fetches-IsPaced}
use wallet_service.Wallet.Publisher.{
  Publisher, Broker, acknowledged, unacknowledged, copies, event_of, publish,
}
use wallet_service.Wallet.Publisher.Retries.{brought, publish-copies}

-- The exchanger's rates, and a client that holds them for 10 seconds.
abbrev pub listed : Dict Float
listed = ("USD_EUR", pos (9 * 10 ^ 339)) ∷ []

abbrev pub exchanger : Exchanger
exchanger = record { all_rates = some listed; one_rate = λ _ _. none }

abbrev pub client : Option ℕ → Client
client at = record {
  connected = true;
  cache_ttl = 10;
  cache_rates = listed;
  cache_at = at;
  now = 100;
  delays = 3 ∷ 2 ∷ [];
  calls = exchanger ∷ [];
}

fetches-IsPaced_example :
    ((steps (look ∷ look ∷ locked ∷ locked ∷ []) (client (some 90))).cache_ttl ≡ 10)
    × (answers (exchanger ∷ []) * 10 + due (client (some 90))
        ≤ answers (steps (look ∷ look ∷ locked ∷ locked ∷ []) (client (some 90))).calls * 10
          + (steps (look ∷ look ∷ locked ∷ locked ∷ []) (client (some 90))).now
          + 10)
fetches-IsPaced_example =
    fetches-IsPaced (look ∷ look ∷ locked ∷ locked ∷ []) (client (some 90)) (omega arith)

abbrev pub publisher : Publisher
publisher = record {
  brokers = "kafka:9092" ∷ [];
  topic = "large_transactions";
  threshold = whole 3;
  retries = 3;
  backoff_ms = 200;
  timeout_ms = 2000;
}

-- The first call fails; the second brings the event twice.
abbrev pub broker : Broker
broker = record {
  events = [];
  writes = unacknowledged 0 ∷ acknowledged 1 ∷ [];
  pauses = [];
  waited = [];
  uuid = λ _. "u";
  stamp = λ _. "t";
  drawn = 0;
}

publish-copies_example :
    (n : ℕ) × (n ≤ brought 3 (unacknowledged 0 ∷ acknowledged 1 ∷ []))
    × ((n ≡ 0) ⊎ (ltb_ℤ (whole 5) (whole 3) ≡ false))
    × ((publish (some publisher) 1 "deposit" usd (whole 5) broker).events
        ≡ [] ++ₗ copies n (event_of 1 "deposit" usd (whole 5) broker))
publish-copies_example = publish-copies publisher 1 "deposit" usd (whole 5) broker
