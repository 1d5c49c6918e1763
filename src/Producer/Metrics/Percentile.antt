-- ===== src/Producer/Metrics/Percentile.antt =====
-- GetStats of pv-producer/internal/kafka/producer.go.
use wallet_service.Base.{ℕ, ◌<◌, ◌≡◌, refl, length, length-append, List, [], ◌∷◌, ◌++◌, arith}
use wallet_service.Producer.Metrics.{Metrics, get_stats, p95_index, get_or}

get_or-last : (xs : List ℕ) (x d : ℕ) → get_or (xs ++ x ∷ []) (length xs) d ≡ x
get_or-last [] x d = refl
get_or-last (y ∷ xs) x d = get_or-last xs x d

-- With at most 20 latencies, the p95 that GetStats reports is the newest one, however small it is:
-- the copy that is called sorted is never sorted.
pub p95-newest :
    (m : Metrics) (xs : List ℕ) (x : ℕ)
    → m.latencies ≡ xs ++ x ∷ []
    → length xs < 20
    → (get_stats m).p95_latency ≡ x
unfolding get_stats
p95-newest m [] x e few = rw e (ground arith)
p95-newest m (y ∷ xs) x e few =
    let index : p95_index (length (y ∷ xs ++ x ∷ [])) ≡ length (y ∷ xs) =
      ground (arith, length-append xs (x ∷ [])) in
    rw (e, index) (get_or-last (y ∷ xs) x 0)
