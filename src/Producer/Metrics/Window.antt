-- ===== src/Producer/Metrics/Window.antt =====
-- RecordSent of pv-producer/internal/kafka/producer.go against the list of all latencies.
use mathlib.Core.List.{append-nil, append_assoc}
use native.Mathlib.Decide.{dec_lt}
use wallet_service.Base.{
  if◌then◌else◌, ℕ, zero, suc, ◌-◌, ◌≤◌, ◌<◌, ◌≡◌, refl, ltb, length, length-append, List, [], ◌∷◌,
  ◌++◌, arith,
}
use wallet_service.Producer.Metrics.{Metrics, record_sent, tail}

-- What the metrics stand for: every latency that was recorded, the oldest first.
abbrev pub drop : ℕ → List ℕ → List ℕ
drop zero xs = xs
drop (suc n) [] = []
drop (suc n) (x ∷ xs) = drop n xs

-- The last `n` of a list.
abbrev pub last : ℕ → List ℕ → List ℕ
last n xs = drop (length xs - n) xs

unfoldable pub record_all : List ℕ → Metrics → Metrics
record_all [] m = m
record_all (x ∷ xs) m = record_all xs (record_sent x m)

length-drop : (n : ℕ) (xs : List ℕ) → length (drop n xs) ≡ length xs - n
length-drop zero xs = omega arith
length-drop (suc n) [] = omega arith
length-drop (suc n) (x ∷ xs) = omega (arith, length-drop n xs)

drop-append : (n : ℕ) (xs ys : List ℕ) → n ≤ length xs → drop n (xs ++ ys) ≡ drop n xs ++ ys
drop-append zero xs ys h = refl
drop-append (suc n) [] ys h = absurd (omega arith)
drop-append (suc n) (x ∷ xs) ys h = drop-append n xs ys (omega arith)

tail-drop : (n : ℕ) (xs : List ℕ) → tail (drop n xs) ≡ drop (suc n) xs
tail-drop zero [] = refl
tail-drop zero (x ∷ xs) = refl
tail-drop (suc n) [] = refl
tail-drop (suc n) (x ∷ xs) = tail-drop n xs

last-short : (n : ℕ) (xs : List ℕ) → length xs ≤ n → last n xs ≡ xs
last-short n xs h = let none_left : length xs - n ≡ 0 = omega arith in rw none_left refl

last-append_long :
    (n : ℕ) (xs : List ℕ) (x : ℕ)
    → n ≤ length xs
    → 0 < n
    → last n (xs ++ x ∷ []) ≡ tail (last n xs) ++ x ∷ []
last-append_long n xs x long some_room =
    let k : ℕ = length xs - n in
    let shift : length (xs ++ x ∷ []) - n ≡ suc k = omega (arith, length-append xs (x ∷ [])) in
    rw (shift, drop-append (suc k) xs (x ∷ []) (omega arith), tail-drop k xs) refl

-- One more latency, beside a window of the last 1000.
next_window :
    (xs : List ℕ) (x : ℕ)
    → (if ltb (length (last 1000 xs)) 1000
        then last 1000 xs ++ x ∷ []
        else tail (last 1000 xs) ++ x ∷ [])
      ≡ last 1000 (xs ++ x ∷ [])
next_window xs x = elim (dec_lt (length xs) 1000) [
  | yes few ↦
      rw
        (
          last-short 1000 xs (omega arith),
          last-short 1000 (xs ++ x ∷ []) (omega (arith, length-append xs (x ∷ []))),
        )
        (ground arith)
  | no many ↦
      rw (last-append_long 1000 xs x (omega arith) (omega arith))
        (ground (arith, length-drop (length xs - 1000) xs))
]

-- The metrics after the latencies `xs`.
abbrev pub Summarises : List ℕ → Metrics → Type 0
Summarises xs m = (m.latencies ≡ last 1000 xs) × (m.sent_count ≡ length xs)

record_sent-Summarises :
    (x : ℕ) (xs : List ℕ) (m : Metrics)
    → Summarises xs m
    → Summarises (xs ++ x ∷ []) (record_sent x m)
unfolding record_sent
record_sent-Summarises x xs m (window, sent) =
    (rw window (next_window xs x), omega (arith, length-append xs (x ∷ []), sent))

-- The metrics refine the list of all latencies: after any latencies have been recorded, the count is
-- their number and the latencies kept are the last 1000 of them, in order.
pub record_all-Summarises :
    (before xs : List ℕ) (m : Metrics)
    → Summarises before m
    → Summarises (before ++ xs) (record_all xs m)
unfolding record_all
record_all-Summarises before [] m h = rw (append-nil before) h
record_all-Summarises before (x ∷ xs) m h = rw (← append_assoc before (x ∷ []) xs) (
    record_all-Summarises (before ++ x ∷ []) xs (record_sent x m)
      (record_sent-Summarises x before m h))
