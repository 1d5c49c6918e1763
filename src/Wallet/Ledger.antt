-- ===== src/Wallet/Ledger.antt =====
-- What AuthRepo of gw-currency-wallet/internal/repo_auth.go promises of the balances: a ledger, which is a
-- function from a wallet and a currency to an amount, and what each operation does to it.
pub mod Statements
pub mod Refines
use wallet_service.Base.{
  ℕ, String, Bool, true, false, ◌&&◌, ◌==◌, ◌=ₛ◌, Option, none, some, List, [], ◌∷◌, if◌then◌else◌,
}
use wallet_service.Base.Int.{◌+ℤ◌, ◌-ℤ◌, leb_ℤ}
use wallet_service.Base.Result.{Result, ok, err}
use wallet_service.Sql.{Conn}
use wallet_service.Wallet.Errors.{Err, not_found, insufficient_funds, internal}
use wallet_service.Wallet.Money.{Float, Cents, FloatOps, units, store}
use wallet_service.Wallet.Db.{Tables, balance_of}
use wallet_service.Wallet.Repo.{deposit, withdraw, exchange}

abbrev pub Ledger : Type 0
Ledger = ℕ → String → Option Cents

abbrev pub at : ℕ → String → ℕ → String → Bool
at w cur w' cur' = w' == w && cur' =ₛ cur

unfoldable pub set_balance : ℕ → String → Option Cents → Ledger → Ledger
set_balance w cur amount l w' cur' = if at w cur w' cur' then amount else l w' cur'

-- How a call ends: well, or with an error.
abbrev pub Answer : Type 0
Answer = Option Err

-- An amount that the column can hold replaces the old one.
abbrev pub stored_or : Cents → Option Cents → Option Cents × Answer
stored_or a none = (some a, some internal)
stored_or a (some v) = (some v, none)

unfoldable pub after_deposit : Float → Option Cents → Option Cents × Answer
after_deposit x none = (none, some not_found)
after_deposit x (some a) = stored_or a (store (units a +ℤ x))

unfoldable pub after_withdrawal : Float → Option Cents → Option Cents × Answer
after_withdrawal x none = (none, some insufficient_funds)
after_withdrawal x (some a) =
    if leb_ℤ x (units a)
    then stored_or a (store (units a -ℤ x))
    else (some a, some insufficient_funds)

-- The second half of an exchange. A currency that the wallet lacks is no error, and there is nothing
-- to set.
abbrev pub credit_ledger : Ledger → ℕ → String → Ledger → Option Cents × Answer → Ledger × Answer
credit_ledger before w to l (amount, none) = (set_balance w to amount l, none)
credit_ledger before w to l (amount, some not_found) = (set_balance w to amount l, none)
credit_ledger before w to l (amount, some e) = (before, some e)

abbrev pub debit_ledger :
    ℕ → String → String → Float → Ledger → Option Cents × Answer → Ledger × Answer
debit_ledger w from to credit l (amount, some e) = (l, some e)
debit_ledger w from to credit l (amount, none) =
    let l1 : Ledger = set_balance w from amount l in
    credit_ledger l w to l1 (after_deposit credit (l1 w to))

pub data Operation : Type 0 where
  deposits withdraws : ℕ → String → Float → Operation
  exchanges : ℕ → String → String → Float → Float → Operation

abbrev pub set_answer : ℕ → String → Ledger → Option Cents × Answer → Ledger × Answer
set_answer w cur l (amount, answer) = (set_balance w cur amount l, answer)

-- The operations on a ledger.
unfoldable pub specified : Operation → Ledger → Ledger × Answer
specified (deposits w cur x) l = set_answer w cur l (after_deposit x (l w cur))
specified (withdraws w cur x) l = set_answer w cur l (after_withdrawal x (l w cur))
specified (exchanges w from to debit credit) l =
    debit_ledger w from to credit l (after_withdrawal debit (l w from))

-- The same operations by AuthRepo, over a connection.
abbrev pub answer_of : {A : Type 0} → Result Err A × Conn Tables → Answer × Conn Tables
answer_of (ok _, c) = (none, c)
answer_of (err e, c) = (some e, c)

module _ (ops : FloatOps) where
  unfoldable pub perform : Operation → Conn Tables → Answer × Conn Tables
  perform (deposits w cur x) c = answer_of (deposit ops w cur x c)
  perform (withdraws w cur x) c = answer_of (withdraw ops w cur x c)
  perform (exchanges w from to debit credit) c = answer_of (exchange ops w from to debit credit c)

  unfoldable pub perform_all : List Operation → Conn Tables → List Answer × Conn Tables
  perform_all [] c = ([], c)
  perform_all (o ∷ os) c =
      let (a, c1) = perform o c in let (answers, c2) = perform_all os c1 in (a ∷ answers, c2)
