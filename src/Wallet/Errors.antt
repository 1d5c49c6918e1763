-- ===== src/Wallet/Errors.antt =====
-- gw-currency-wallet/internal/errors.go. An error that a handler does not tell from others
-- (`fmt.Errorf("…: %w", err)` around a driver's error) is `internal`.
pub data Err : Type 0 where
  not_found insufficient_funds invalid_operation invalid_amount : Err
  user_exists auth_failed invalid_currency internal : Err

pub Err-discrete : Discrete Err
Err-discrete = hlevel
