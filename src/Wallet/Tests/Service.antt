-- ===== src/Wallet/Tests/Service.antt =====
-- Runs of the handlers, and the theorems at them.
use wallet_service.Wallet.Tests.Clients.{client, publisher, broker}
use wallet_service.Wallet.Tests.{ops, ops-KeepsSign, conn}
use Prim.Native.String.{◌++◌}
use wallet_service.Base.{
  String, ◌≡◌, refl, true, Option, none, some, List, [], ◌∷◌, arith, ◌=ₛ◌, ◌==◌, ◌&&◌,
  if◌then◌else◌,
}
use wallet_service.Base.Int.{pos, ◌+ℤ◌, ◌-ℤ◌}
use wallet_service.Base.Result.{ok}
use wallet_service.Sql.{run_sql}
use wallet_service.Wallet.Money.{units, store, whole}
use wallet_service.Wallet.Db.{
  User, update_debit, update_credit, credited, debited, update_balance, matches, covers,
  is_currency, select_wallet, find_wallet, select_user, find_user,
}
use wallet_service.Wallet.Repo.{deposit, withdraw, get_user_by_username, get_wallet_id_by_user_id}
use wallet_service.Wallet.Auth.{Crypto, Claims, authenticate, check_password, new_token}
use wallet_service.Base.Text.{is_empty}
use wallet_service.Wallet.Http.{
  World, Response, Request, Outcome, write_json, amount_of, token, query, announce, ◌>>=◌,
}
use wallet_service.Wallet.Balance.{
  AmountCurrencyRequest, allowed, check_amount, handle_deposit, handle_withdraw, deposit_error,
  withdraw_error,
}
use wallet_service.Wallet.Accounts.{RegisterRequest, handle_register}
use wallet_service.Wallet.Registration.{Registered, handle_register-Registered}
use wallet_service.Wallet.Auth.{hash_password}
use wallet_service.Wallet.Repo.{create_user, create_wallet_for_user, create_balances_for_wallet}
use wallet_service.Wallet.Db.{
  insert_user, taken, insert_wallet, has_user, insert_balance, has_wallet, balance_of,
}
use wallet_service.Wallet.Http.{message}
use wallet_service.Wallet.Accounts.{LoginRequest, handle_login}
use wallet_service.Wallet.Outcomes.{Done, handle_deposit-Done, handle_withdraw-Done}
use wallet_service.Wallet.Sessions.{HasTokens, login_authenticates}
use wallet_service.Wallet.Routes.{Call, serve_all}
use wallet_service.Wallet.Safety.{IsSound}
use wallet_service.Wallet.Safety.Service.{serve_all-IsSound}

abbrev pub world : World
world = record {
  conn = conn;
  client = some (client none);
  publisher = some publisher;
  broker = broker;
}

abbrev pub by_alice : Request
by_alice = record { method = "POST"; user = some 1 }

abbrev five_dollars : AmountCurrencyRequest
five_dollars = record { amount = whole 5; currency = "USD" }

abbrev deposited : Outcome Response × World
deposited = handle_deposit ops by_alice (some five_dollars) world

handle_deposit-Done_example :
    Done
      (deposit ops)
      deposit_error
      "deposit"
      by_alice
      (some five_dollars)
      world
      (write_json 200 (amount_of "USD" (units (pos 10500))))
      deposited.1
unfolding handle_deposit check_amount allowed is_currency query announce ◌>>=◌
    get_wallet_id_by_user_id select_wallet find_wallet deposit run_sql update_credit update_balance
    matches credited store ◌+ℤ◌ units
handle_deposit-Done_example =
    handle_deposit-Done ops by_alice (some five_dollars) world
      (write_json 200 (amount_of "USD" (units (pos 10500)))) deposited.1 refl

abbrev withdrawn : Outcome Response × World
withdrawn = handle_withdraw ops by_alice (some five_dollars) world

handle_withdraw-Done_example :
    Done
      (withdraw ops)
      withdraw_error
      "withdraw"
      by_alice
      (some five_dollars)
      world
      (write_json 200 (amount_of "USD" (units (pos 9500))))
      withdrawn.1
unfolding handle_withdraw check_amount allowed is_currency query announce ◌>>=◌
    get_wallet_id_by_user_id select_wallet find_wallet withdraw run_sql update_debit update_balance
    matches covers units debited store ◌-ℤ◌
handle_withdraw-Done_example =
    handle_withdraw-Done ops by_alice (some five_dollars) world
      (write_json 200 (amount_of "USD" (units (pos 9500)))) withdrawn.1 refl

abbrev claims : Claims
claims = record { user_id = 1; issued_at = 101; expires_at = 86500 }

-- It signs one set of claims.
abbrev crypto : Crypto
crypto = record {
  generate = λ p. some p;
  matches_hash = λ h p. h =ₛ p;
  sign = λ secret c.
      if c.user_id == 1 && c.issued_at == 101 && c.expires_at == 86500 then some "t" else none;
  parse = λ secret t now. some claims;
}

crypto-HasTokens : HasTokens crypto
crypto-HasTokens secret t c now signed before = ground arith

abbrev login : Request
login = record { method = "POST"; user = none }

abbrev by_name : Option LoginRequest
by_name = some (record { username = "alice"; password = "h" })

login_authenticates_example :
    (req : LoginRequest) × (user : User) × (t : String) × (by_name ≡ some req)
    × ((get_user_by_username req.username conn).0 ≡ ok user)
    × (check_password crypto req.password user.password_hash ≡ true)
    × (write_json 200 (token "t") ≡ write_json 200 (token t))
    × (world ≡ record world { conn = (get_user_by_username req.username conn).1 })
    × (authenticate crypto "s" 500 ("Bearer " ++ t) ≡ some user.id)
unfolding handle_login query ◌>>=◌ get_user_by_username select_user find_user run_sql check_password
    new_token is_empty
login_authenticates_example =
    login_authenticates crypto crypto-HasTokens "s" 100 101 login by_name world
      (write_json 200 (token "t")) world 500 (omega arith) refl

-- A deposit, an exchange and a withdrawal.
abbrev call : String → String → Call
call path method = record {
  path = path;
  method = method;
  authorization = "Bearer t";
  register_body = none;
  login_body = by_name;
  amount_body = some five_dollars;
  exchange_body = some (record { from_currency = "USD"; to_currency = "EUR"; amount = whole 5 });
  now = 100;
  later = 101;
  db_up = true;
  kafka_up = true;
}

abbrev calls : List Call
calls =
    call "/api/v1/wallet/deposit" "POST"
    ∷ call "/api/v1/exchange" "POST"
    ∷ call "/api/v1/wallet/withdraw" "POST"
    ∷ []

serve_all-IsSound_example : IsSound (serve_all ops crypto "s" calls world)
serve_all-IsSound_example = serve_all-IsSound ops crypto "s" ops-KeepsSign calls world (record {
  money = (omega arith, (omega arith, tt));
  rates = record { cached = (omega arith, tt); coming = ((omega arith, tt), tt) };
})

abbrev bob : Option RegisterRequest
bob = some (record { username = "bob"; email = "b@b"; password = "p" })

-- It marks what it has hashed.
abbrev hashing : Crypto
hashing = record crypto { generate = λ p. some ("#" ++ p) }

abbrev registered : Outcome Response × World
registered = handle_register hashing login bob world

handle_register-Registered_example :
    Registered hashing bob world (write_json 201 (message "registered")) registered.1
unfolding handle_register hash_password query ◌>>=◌ create_user insert_user taken
    create_wallet_for_user insert_wallet has_user find_wallet create_balances_for_wallet
    insert_balance has_wallet balance_of is_currency run_sql is_empty matches
handle_register-Registered_example =
    handle_register-Registered hashing login bob world (write_json 201 (message "registered"))
      registered.1 refl
