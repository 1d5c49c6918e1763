-- ===== src/Startup/Tests.antt =====
-- Connecting at the third attempt.
use wallet_service.Base.{ℕ, suc, zero, true, false, some, ◌≡◌, refl}
use wallet_service.Startup.{Attempt, opened, connect_with_retry}
use wallet_service.Startup.Attempts.{Ends, connect_with_retry-Ends}

abbrev tries : ℕ → Attempt
tries zero = record { connected = false; connect_ms = 5000; pinged = false; ping_ms = 0 }
tries (suc zero) = record { connected = true; connect_ms = 10; pinged = false; ping_ms = 3000 }
tries (suc (suc n)) = record { connected = true; connect_ms = 10; pinged = true; ping_ms = 5 }

connects : connect_with_retry true 30 tries 1000 ≡ some (opened 2)
unfolding connect_with_retry
connects = refl

connect_with_retry-Ends_example : Ends tries 0 15 (connect_with_retry true 30 tries 1000)
connect_with_retry-Ends_example = connect_with_retry-Ends 30 tries 1000
