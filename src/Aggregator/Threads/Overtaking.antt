-- ===== src/Aggregator/Threads/Overtaking.antt =====
-- The dead-letter path of Run, pv-aggregator/internal/kafka/consumer.go, and the buffer beside it.
use wallet_service.Base.{
  ℕ, suc, ◌||◌, String, ◌≡◌, refl, ap, ◌∙◌, true, false, Option, List, [], ◌∷◌, ◌++◌, leb, length,
  if◌then◌else◌,
}
use wallet_service.Base.Result.{ok, err}
use wallet_service.Aggregator.Event.{
  Message, PageViewEvent, PageViewRow, ValidationError, Ip, parse_and_validate,
}
use wallet_service.Aggregator.Buffer.{BufferedMessage, Buffer, add}
use wallet_service.Aggregator.Dlq.{Producer, Letter, send}
use wallet_service.Aggregator.Pipeline.{
  State, Metrics, ErrorRow, record_consumed, handle_error_with_retry, retry, handle_error,
  send_letter, insert_error, commit_messages, next_delivery, look_at_context,
}
use wallet_service.Aggregator.Threads.{
  idle, about_to_flush, dead_letter, advance, buffered, accept, add_to_buffer, take_message, Fetch,
  got, fetch, System, run_turn, run_from, turn, schedule, end_letter,
}

-- A state in which every round trip is answered and the context is not done.
abbrev pub calm :
    Buffer → Metrics → List PageViewRow → List ErrorRow → List Letter → List Message → ℕ → State
calm b k rows errors letters committed clock = record {
  buffer = b;
  metrics = k;
  page_views_raw = rows;
  processing_errors = errors;
  letters = letters;
  committed = committed;
  clock = clock;
  done = [];
  faults = [];
}

module _ (brokers : List String) (topic : String) (parse_ip : String → Option Ip) (b : Buffer)
    (k : Metrics) (rows : List PageViewRow) (errors : List ErrorRow) (letters : List Letter)
    (committed : List Message) (clock : ℕ) where
  abbrev pub producer : Producer
  producer = record { enabled = true; brokers = brokers; topic = topic }

  abbrev pub start : State
  start = calm b k rows errors letters committed clock

  abbrev pub at_head : System
  at_head = record { shared = start; run = idle; flush_loop = idle; closer = idle }

  module _ (x : Message) (ev : PageViewEvent) (z : Message) (e : ValidationError) where
    abbrev pub waiting : BufferedMessage
    waiting = buffered parse_ip x ev start

    -- Behind the first message, and behind the second.
    abbrev behind_first : State
    behind_first =
        calm (record b { messages = b.messages ++ waiting ∷ []; signal = b.signal || false })
          (record k { consumed = suc k.consumed }) rows errors letters committed clock

    take_first :
        parse_and_validate x ≡ ok ev
        → leb b.max_size (length (b.messages ++ waiting ∷ [])) ≡ false
        → take_message parse_ip x start ≡ (idle, behind_first)
    unfolding take_message accept add_to_buffer add
    take_first valid room =
        ap (λ r. accept parse_ip x r (record_consumed start)) valid
        ∙ ap
            (λ c. (
              if c then about_to_flush else idle,
              record (record_consumed start) {
                buffer = record b { messages = b.messages ++ waiting ∷ []; signal = b.signal || c };
              },
            ))
            room

    take_second :
        parse_and_validate z ≡ err e
        → take_message parse_ip z behind_first ≡ (dead_letter z e, record_consumed behind_first)
    unfolding take_message accept
    take_second bad = ap (λ r. accept parse_ip z r (record_consumed behind_first)) bad

    -- The two turns in which Run handles the dead letter.
    abbrev letter_turns : Fetch → System → System
    unfolding turn
    letter_turns f y = turn producer parse_ip (run_turn f) (turn producer parse_ip (run_turn f) y)

    abbrev second_taken : System
    second_taken = record at_head { shared = record_consumed behind_first; run = dead_letter z e }

    two_turns :
        (f : Fetch)
        → parse_and_validate x ≡ ok ev
        → leb b.max_size (length (b.messages ++ waiting ∷ [])) ≡ false
        → parse_and_validate z ≡ err e
        → schedule producer parse_ip
            (run_turn (got x) ∷ run_turn (got z) ∷ run_turn f ∷ run_turn f ∷ [])
            at_head
          ≡ letter_turns f second_taken
    unfolding schedule turn run_from fetch letter_turns
    two_turns f valid room bad =
        ap
          (λ q. letter_turns f (
            turn producer parse_ip (run_turn (got z)) (record at_head { shared = q.1; run = q.0 })))
          (take_first valid room)
        ∙ ap (λ q. letter_turns f (record at_head { shared = q.1; run = q.0 })) (take_second bad)

    letter_ends :
        (f : Fetch)
        → ((letter_turns f second_taken).shared.committed ≡ z ∷ committed)
          × ((letter_turns f second_taken).shared.page_views_raw ≡ rows)
          × ((letter_turns f second_taken).shared.buffer.messages ≡ b.messages ++ waiting ∷ [])
    unfolding letter_turns turn run_from advance end_letter handle_error_with_retry retry
        handle_error send_letter insert_error commit_messages next_delivery look_at_context send
    letter_ends f = (refl, refl, refl)

    -- With every round trip answered: Run fetches a valid message that does not fill the buffer, then
    -- an invalid one, and takes its two turns on the dead-letter path. Then the second message is
    -- committed, while the first is in the buffer and page_views_raw is as it was.
    pub dead_letter_overtakes :
        (f : Fetch)
        → parse_and_validate x ≡ ok ev
        → leb b.max_size (length (b.messages ++ waiting ∷ [])) ≡ false
        → parse_and_validate z ≡ err e
        → let y =
            schedule producer parse_ip
              (run_turn (got x) ∷ run_turn (got z) ∷ run_turn f ∷ run_turn f ∷ [])
              at_head in
          (y.shared.committed ≡ z ∷ committed)
          × (y.shared.page_views_raw ≡ rows)
          × (y.shared.buffer.messages ≡ b.messages ++ waiting ∷ [])
    dead_letter_overtakes f valid room bad =
        let e = two_turns f valid room bad in
        let (c, r, m) = letter_ends f in
        (
          ap (λ y. y.shared.committed) e ∙ c,
          ap (λ y. y.shared.page_views_raw) e ∙ r,
          ap (λ y. y.shared.buffer.messages) e ∙ m,
        )
