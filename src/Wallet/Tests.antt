-- ===== src/Wallet/Tests.antt =====
-- Runs of the repository on a small database, and the theorems at them.
mod Clients
mod Service
mod Exchanging
use Prim.Native.String.{◌++◌}
use wallet_service.Base.{
  eq_iff, ℕ, suc, ◌+◌, ◌*◌, ◌/◌, ◌^◌, ◌≤◌, ◌<◌, ◌-◌, String, ◌≡◌, ◌≢◌, refl, ◌⊎◌, inl, inr, Bool,
  true, false, Option, none, some, List, [], ◌∷◌, ◌++◌ as ◌++ₗ◌, arith, All, ◌=ₛ◌, eq_iff, ◌==◌,
  ◌&&◌, if◌then◌else◌,
}
use wallet_service.Base.Int.{ℤ, pos, negsuc, ◌+ℤ◌, ◌-ℤ◌, ◌≤ℤ◌, ◌<ℤ◌, pos_part, ltb_ℤ}
use wallet_service.Base.Dict.{Dict}
use wallet_service.Base.Result.{Result, ok, err}
use wallet_service.Sql.{
  Conn, Delivery, answered, refused, lost, run_sql, next_delivery, run_in_tx, commit,
}
use wallet_service.Wallet.Errors.{Err, insufficient_funds}
use wallet_service.Wallet.Money.{Float, Cents, FloatOps, units, store, whole}
use wallet_service.Wallet.Db.{
  User, WalletRow, BalanceRow, Tables, balance_of, update_debit, update_credit, credited, debited,
  update_balance, matches, covers, is_currency, select_wallet, find_wallet, select_user, find_user,
}
use wallet_service.Wallet.Db.Updates.{left_by}
use wallet_service.Wallet.Repo.{
  deposit, withdraw, exchange, get_user_by_username, get_wallet_id_by_user_id,
}
use wallet_service.Wallet.Repo.Transfers.{Ends, exchange-Ends}
use wallet_service.Wallet.Repo.Amounts.{
  NonNegative, deposit_lem, withdraw_lem, exchange-NonNegative,
}
use wallet_service.Wallet.Ledger.{Ledger, Operation, deposits, withdraws, exchanges, perform_all}
use wallet_service.Wallet.Ledger.Refines.{Realises, perform_all-Realises}
use wallet_service.Wallet.Client.{
  Exchanger, Client, is_fresh, next_call, read_clock, get_all_rates, locked_part,
  get_rate_with_source,
}
use wallet_service.Wallet.Client.Signs.{HasSoundRates, RateSound, get_rate_with_source-Sound}
use wallet_service.Wallet.Publisher.{Publisher, Broker, LargeTransactionEvent, event_of, publish}
use wallet_service.Wallet.Auth.{
  Crypto, Claims, default_expire, authenticate, check_password, new_token,
}
use wallet_service.Base.Text.{is_empty}
use wallet_service.Wallet.Http.{
  World, Response, Request, Outcome, go, write_json, amount_of, token, query, announce, ◌>>=◌,
}
use wallet_service.Wallet.Balance.{
  AmountCurrencyRequest, allowed, check_amount, handle_deposit, handle_withdraw, deposit_error,
  withdraw_error,
}
use wallet_service.Wallet.Accounts.{LoginRequest, handle_login}
use wallet_service.Wallet.Outcomes.{Done, handle_deposit-Done, handle_withdraw-Done}
use wallet_service.Wallet.Sessions.{HasTokens, login_authenticates}
use wallet_service.Wallet.Routes.{Call, serve_all}
use wallet_service.Wallet.Safety.{IsSound}
use wallet_service.Wallet.Safety.Money.{KeepsSign}
use wallet_service.Wallet.Safety.Service.{serve_all-IsSound}

-- Exact operations, but that products and quotients of negative numbers are cut off at 0.
abbrev pub ops : FloatOps
ops = record {
  scan = units;
  mul = λ a b. pos (pos_part a * pos_part b / 10 ^ 340);
  quo = λ a b. pos (pos_part a * 10 ^ 340 / pos_part b);
  round = λ a. pos (pos_part a / 10 ^ 340 * 10 ^ 340);
}

pub ops-KeepsSign : KeepsSign ops
ops-KeepsSign = record {
  mul = λ a b ha hb. omega arith;
  quo = λ a b ha hb. omega arith;
  round = λ a ha. omega arith;
}

abbrev pub usd : String
usd = "USD"

abbrev pub eur : String
eur = "EUR"

-- alice has a wallet with 100.00 dollars and no euros.
abbrev pub tables : Tables
tables = record {
  users = record { id = 1; username = "alice"; email = "a@b"; password_hash = "h" } ∷ [];
  wallets = record { id = 7; user_id = 1 } ∷ [];
  balances =
      record { wallet_id = 7; currency = "USD"; amount = pos 10000 }
      ∷ record { wallet_id = 7; currency = "EUR"; amount = pos 0 }
      ∷ [];
  next_user = 2;
  next_wallet = 8;
}

abbrev pub conn : Conn Tables
conn = record { tables = tables; faults = [] }

deposit_lem_example :
    (a : Cents) × (v : Cents) × (balance_of 7 usd conn.tables.balances ≡ some a)
    × (store (units a +ℤ whole 5) ≡ some v)
    × (balance_of 7 usd (deposit ops 7 usd (whole 5) conn).1.tables.balances ≡ some v)
    × (units (pos 10500) ≡ ops.scan v)
unfolding deposit run_sql update_credit update_balance matches credited store ◌+ℤ◌ units
deposit_lem_example = deposit_lem ops 7 usd (whole 5) conn (units (pos 10500)) refl

withdraw_lem_example :
    (a : Cents) × (v : Cents) × (balance_of 7 usd conn.tables.balances ≡ some a)
    × (whole 60 ≤ℤ units a)
    × (store (units a -ℤ whole 60) ≡ some v)
    × (balance_of 7 usd (withdraw ops 7 usd (whole 60) conn).1.tables.balances ≡ some v)
    × (units (pos 4000) ≡ ops.scan v)
unfolding withdraw run_sql update_debit update_balance matches covers units debited store ◌-ℤ◌
withdraw_lem_example = withdraw_lem ops 7 usd (whole 60) conn (units (pos 4000)) refl

exchange-Ends_example :
    Ends 7 usd eur
      (whole 30)
      (whole 27)
      ops
      tables
      (exchange ops 7 usd eur (whole 30) (whole 27) conn)
exchange-Ends_example =
    exchange-Ends 7 usd eur (whole 30) (whole 27) ops conn (λ e. ground (arith, eq_iff usd eur))

exchange-NonNegative_example :
    NonNegative (exchange ops 7 usd eur (whole 30) (whole 27) conn).1.tables
exchange-NonNegative_example =
    exchange-NonNegative ops 7 usd eur (whole 30) (whole 27) conn (omega arith)
      (omega arith, (omega arith, tt))

-- The table of `conn`, as a ledger.
abbrev book : Ledger
book w cur = balance_of w cur conn.tables.balances

abbrev operations : List Operation
operations =
    deposits 7 usd (whole 5)
    ∷ exchanges 7 usd eur (whole 10) (whole 9)
    ∷ withdraws 7 eur (whole 500)
    ∷ []

-- The second operation loses an answer.
abbrev shaky : Conn Tables
shaky = record conn { faults = answered ∷ answered ∷ answered ∷ answered ∷ lost ∷ [] }

perform_all-Realises_example :
    Realises operations
      (perform_all ops operations shaky).0
      book
      (perform_all ops operations shaky).1
perform_all-Realises_example = perform_all-Realises ops operations shaky book (λ w cur. refl)
