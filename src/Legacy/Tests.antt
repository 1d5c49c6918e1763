-- ===== src/Legacy/Tests.antt =====
-- Runs of the integer wallet, and the theorems at them.
use wallet_service.Base.{ℕ, ◌+◌, ◌-◌, ◌≤◌, ◌≡◌, refl, some, [], ◌∷◌, arith}
use wallet_service.Sql.{Conn, run_sql}
use wallet_service.Legacy.{
  Table, max_int64, balance_of, deposit, withdraw, update_add, update_subtract, set_balance,
}
use wallet_service.Legacy.Amounts.{Left, deposit-Left, withdraw-Left}

abbrev conn : Conn Table
conn = record {
  tables = record { id = 1; balance = 0 } ∷ record { id = 2; balance = 10000 } ∷ [];
  faults = [];
}

deposit-Left_example :
    ((a : ℕ) × (balance_of 2 conn.tables ≡ some a) × (10500 ≡ a + 500) × (10500 ≤ max_int64))
    × Left 2 1 10500 conn.tables (deposit 2 500 conn).1.tables
unfolding deposit run_sql update_add balance_of set_balance
deposit-Left_example = deposit-Left 2 1 500 10500 conn (λ e. omega arith) refl

withdraw-Left_example :
    ((a : ℕ) × (balance_of 2 conn.tables ≡ some a) × (500 ≤ a) × (9500 ≡ a - 500))
    × Left 2 1 9500 conn.tables (withdraw 2 500 conn).1.tables
unfolding withdraw run_sql update_subtract balance_of set_balance
withdraw-Left_example = withdraw-Left 2 1 500 9500 conn (λ e. omega arith) refl
