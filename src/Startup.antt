-- ===== src/Startup.antt =====
-- connectWithRetry of gw-exchanger/cmd/app/main.go, and connectPGXPoolWithRetry of
-- gw-currency-wallet/cmd/app/main.go, which is the same but for the errors' texts. How each attempt goes is
-- an input, and times are in milliseconds.
pub mod Attempts
mod Tests
use wallet_service.Base.{
  ℕ, zero, suc, ◌+◌, ◌*◌, Bool, true, false, ◌&&◌, ltb, Option, none, some, if◌then◌else◌,
}

-- Whether a pool is made and answers the ping, and how long both take.
pub record Attempt : Type 0 where
  pub connected : Bool
  pub connect_ms : ℕ
  pub pinged : Bool
  pub ping_ms : ℕ

-- A pool of the n-th attempt, the deadline after n attempts, or a connection string that is none.
pub data Connection : Type 0 where
  opened : ℕ → Connection
  deadline_exceeded : ℕ → Connection
  bad_dsn : Connection

abbrev pub succeeds : Attempt → Bool
succeeds a = a.connected && a.pinged

-- What a failed attempt takes, with the pause of 2 seconds.
abbrev pub spent : Attempt → ℕ
spent a = if a.connected then a.connect_ms + a.ping_ms + 2000 else a.connect_ms + 2000

-- The loop from the n-th attempt on. `none` means that the fuel ran out.
unfoldable pub connect_loop : ℕ → (ℕ → Attempt) → ℕ → ℕ → ℕ → Option Connection
connect_loop zero attempts deadline now n = none
connect_loop (suc fuel) attempts deadline now n =
    let rest = connect_loop fuel attempts deadline (now + spent (attempts n)) (suc n) in
    if ltb now deadline
    then (if succeeds (attempts n) then some (opened n) else rest)
    else some (deadline_exceeded n)

-- Every attempt that fails takes 2 seconds or more, so there is room for half as many as the timeout has
-- seconds.
abbrev pub rounds : ℕ → ℕ
rounds timeout_seconds = timeout_seconds + 1

unfoldable pub connect_with_retry : Bool → ℕ → (ℕ → Attempt) → ℕ → Option Connection
unfolding connect_loop
connect_with_retry false timeout_seconds attempts now = some bad_dsn
connect_with_retry true timeout_seconds attempts now =
    connect_loop (rounds timeout_seconds) attempts (now + timeout_seconds * 1000) now 0
