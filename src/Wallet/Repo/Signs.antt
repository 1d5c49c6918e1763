-- ===== src/Wallet/Repo/Signs.antt =====
-- The signs of the stored amounts under the methods of repo_auth.go that move no money.
use wallet_service.Base.{
  ℕ, String, ◌≡◌, sym, subst, All, refl, Bool, true, false, Option, none, some, List, [], ◌∷◌,
  arith,
}
use wallet_service.Base.Int.{pos, ◌≤ℤ◌}
use wallet_service.Sql.{Sql, row, no_rows, failed, Conn, run_sql}
use wallet_service.Sql.Laws.{run_sql_keeps}
use wallet_service.Wallet.Money.{FloatOps, Cents}
use wallet_service.Wallet.Db.{
  Tables, insert_user, select_user, insert_wallet, select_wallet, insert_balance, insert_balance_if,
}
use wallet_service.Wallet.Repo.Amounts.{NonNegative}
use wallet_service.Wallet.Repo.{
  Action, go_on, create_user, get_user_by_username, create_wallet_for_user, create_balances,
  create_balances_for_wallet, supported_currencies, get_wallet_id_by_user_id, get_balances,
  select_balances,
}

-- The method keeps the amounts at zero or above.
pub record KeepsMoney {A : Type 0} (action : Action A) : Type 0 where
  pub at : (c : Conn Tables) → NonNegative c.tables → NonNegative (action c).1.tables

-- A statement that leaves the balances alone keeps them.
by_balances :
    {A : Type 0} (stmt : Tables → Sql A × Tables) (c : Conn Tables)
    → (stmt c.tables).1.balances ≡ c.tables.balances
    → NonNegative c.tables
    → NonNegative (run_sql stmt c).1.tables
by_balances stmt c same inv =
    run_sql_keeps stmt c NonNegative inv (subst (All (λ r. pos 0 ≤ℤ r.amount)) (sym same) inv)

balances-insert_user : (u e h : String) (t : Tables) → (insert_user u e h t).1.balances ≡ t.balances
unfolding insert_user
balances-insert_user u e h t = ground arith

balances-insert_wallet : (u : ℕ) (t : Tables) → (insert_wallet u t).1.balances ≡ t.balances
unfolding insert_wallet
balances-insert_wallet u t = ground arith

balances-select_user : (u : String) (t : Tables) → (select_user u t).1.balances ≡ t.balances
unfolding select_user
balances-select_user u t = ground arith

balances-select_wallet : (u : ℕ) (t : Tables) → (select_wallet u t).1.balances ≡ t.balances
unfolding select_wallet
balances-select_wallet u t = ground arith

pub create_user-KeepsMoney : (u e h : String) → KeepsMoney (create_user u e h)
unfolding create_user
create_user-KeepsMoney u e h = record {
  at = λ c inv. by_balances (insert_user u e h) c (balances-insert_user u e h c.tables) inv;
}

pub get_user_by_username-KeepsMoney : (u : String) → KeepsMoney (get_user_by_username u)
unfolding get_user_by_username
get_user_by_username-KeepsMoney u = record {
  at = λ c inv. by_balances (select_user u) c (balances-select_user u c.tables) inv;
}

pub create_wallet_for_user-KeepsMoney : (u : ℕ) → KeepsMoney (create_wallet_for_user u)
unfolding create_wallet_for_user
create_wallet_for_user-KeepsMoney u = record {
  at = λ c inv. by_balances (insert_wallet u) c (balances-insert_wallet u c.tables) inv;
}

pub get_wallet_id_by_user_id-KeepsMoney : (u : ℕ) → KeepsMoney (get_wallet_id_by_user_id u)
unfolding get_wallet_id_by_user_id
get_wallet_id_by_user_id-KeepsMoney u = record {
  at = λ c inv. by_balances (select_wallet u) c (balances-select_wallet u c.tables) inv;
}

pub get_balances-KeepsMoney : (ops : FloatOps) (w : ℕ) → KeepsMoney (get_balances ops w)
unfolding get_balances select_balances
get_balances-KeepsMoney ops w = record {
  at = λ c inv. by_balances (select_balances ops w) c refl inv;
}

insert_balance_if-NonNegative :
    (b : Bool) (o : Option Cents) (w : ℕ) (cur : String) (t : Tables)
    → NonNegative t
    → NonNegative (insert_balance_if b o w cur t).1
insert_balance_if-NonNegative true none w cur t inv = (omega arith, inv)
insert_balance_if-NonNegative true (some a) w cur t inv = inv
insert_balance_if-NonNegative false o w cur t inv = inv

insert_balance-NonNegative :
    (w : ℕ) (cur : String) (t : Tables) → NonNegative t → NonNegative (insert_balance w cur t).1
unfolding insert_balance
insert_balance-NonNegative w cur t inv = insert_balance_if-NonNegative _ _ w cur t inv

go_on-NonNegative :
    (q : Sql Unit × Conn Tables) (rest : Action Unit)
    → NonNegative q.1.tables
    → KeepsMoney rest
    → NonNegative (go_on q rest).1.tables
go_on-NonNegative (row _, c) rest inv keeps = keeps.at c inv
go_on-NonNegative (no_rows, c) rest inv keeps = inv
go_on-NonNegative (failed _, c) rest inv keeps = inv

create_balances-KeepsMoney : (curs : List String) (w : ℕ) → KeepsMoney (create_balances curs w)
unfolding create_balances
create_balances-KeepsMoney [] w = record { at = λ c inv. inv }
create_balances-KeepsMoney (cur ∷ rest) w = record {
  at = λ c inv.
      go_on-NonNegative (run_sql (insert_balance w cur) c) _
        (run_sql_keeps (insert_balance w cur) c NonNegative inv
          (insert_balance-NonNegative w cur c.tables inv))
        (create_balances-KeepsMoney rest w);
}

pub create_balances_for_wallet-KeepsMoney : (w : ℕ) → KeepsMoney (create_balances_for_wallet w)
unfolding create_balances_for_wallet
create_balances_for_wallet-KeepsMoney w = create_balances-KeepsMoney supported_currencies w
