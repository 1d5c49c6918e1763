-- ===== src/Producer/Metrics.antt =====
-- The Metrics of pv-producer/internal/kafka/producer.go. Latencies are times between two looks at the
-- monotonic clock.
pub mod Window
pub mod Percentile
use wallet_service.Base.{
  ℕ, zero, suc, ◌+◌, ◌-◌, ◌*◌, ◌/◌, ltb, leb, length, List, [], ◌∷◌, ◌++◌, if◌then◌else◌,
}

pub record Metrics : Type 0 where
  pub sent_count : ℕ
  pub failed_count : ℕ
  pub latencies : List ℕ

abbrev pub new_metrics : Metrics
new_metrics = record { sent_count = 0; failed_count = 0; latencies = [] }

-- `xs[1:]`
abbrev pub tail : List ℕ → List ℕ
tail [] = []
tail (x ∷ xs) = xs

-- `xs[i]`, within the bounds.
abbrev pub get_or : List ℕ → ℕ → ℕ → ℕ
get_or [] i d = d
get_or (x ∷ xs) zero d = x
get_or (x ∷ xs) (suc i) d = get_or xs i d

-- The latencies are the last 1000.
unfoldable pub record_sent : ℕ → Metrics → Metrics
record_sent latency m = record m {
  sent_count = suc m.sent_count;
  latencies =
      if ltb (length m.latencies) 1000
      then m.latencies ++ latency ∷ []
      else tail m.latencies ++ latency ∷ [];
}

abbrev pub record_failed : Metrics → Metrics
record_failed m = record m { failed_count = suc m.failed_count }

abbrev pub sum : List ℕ → ℕ
sum [] = 0
sum (x ∷ xs) = x + sum xs

pub record Stats : Type 0 where
  pub sent : ℕ
  pub failed : ℕ
  pub avg_latency : ℕ
  pub p95_latency : ℕ

-- `int(float64(n) * 0.95)`, which is n * 95 / 100 for every n up to 1000, and no more than the last
-- index.
abbrev pub p95_index : ℕ → ℕ
p95_index n = let i = n * 95 / 100 in if leb n i then n - 1 else i

abbrev pub latency_stats : List ℕ → Stats → Stats
latency_stats [] stats = stats
latency_stats (x ∷ xs) stats = record stats {
  avg_latency = sum (x ∷ xs) / length (x ∷ xs);
  p95_latency = get_or (x ∷ xs) (p95_index (length (x ∷ xs))) 0;
}

unfoldable pub get_stats : Metrics → Stats
get_stats m =
    latency_stats m.latencies
      (record { sent = m.sent_count; failed = m.failed_count; avg_latency = 0; p95_latency = 0 })
