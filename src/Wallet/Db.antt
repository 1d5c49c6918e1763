-- ===== src/Wallet/Db.antt =====
-- The tables of migrations/002 to 004, and the SQL statements of
-- gw-currency-wallet/internal/repo_auth.go as functions on them. BIGSERIAL ids are naturals.
pub mod Updates
use wallet_service.Base.{
  ℕ, zero, suc, ◌≡◌, String, Bool, true, false, ◌&&◌, ◌||◌, ◌==◌, ◌=ₛ◌, Option, none, some, List,
  [], ◌∷◌, ◌++◌, if◌then◌else◌,
}
use wallet_service.Base.Int.{ℤ, pos, ◌+ℤ◌, ◌-ℤ◌, ◌≤ℤ◌, leb_ℤ}
use wallet_service.Sql.{Sql, row, no_rows, failed, unique_violation, other_failure}
use wallet_service.Wallet.Money.{Float, Cents, units, store}

pub record User : Type 0 where
  pub id : ℕ
  pub username : String
  pub email : String
  pub password_hash : String

pub record WalletRow : Type 0 where
  pub id : ℕ
  pub user_id : ℕ

pub record BalanceRow : Type 0 where
  pub wallet_id : ℕ
  pub currency : String
  pub amount : Cents

pub record Tables : Type 0 where
  pub users : List User
  pub wallets : List WalletRow
  pub balances : List BalanceRow
  pub next_user : ℕ
  pub next_wallet : ℕ

-- CONSTRAINT chk_currency
unfoldable pub is_currency : String → Bool
is_currency c = c =ₛ "USD" || c =ₛ "RUB" || c =ₛ "EUR"

unfoldable pub taken : String → String → List User → Bool
taken u e [] = false
taken u e (x ∷ xs) = x.username =ₛ u || x.email =ₛ e || taken u e xs

-- INSERT INTO users … RETURNING id. The sequence moves on even if the row is refused.
unfoldable pub insert_user : String → String → String → Tables → Sql ℕ × Tables
insert_user u e h t =
    if taken u e t.users
    then (failed unique_violation, record t { next_user = suc t.next_user })
    else (
      row t.next_user,
      record t {
        users = record { id = t.next_user; username = u; email = e; password_hash = h } ∷ t.users;
        next_user = suc t.next_user;
      },
    )

unfoldable pub find_user : String → List User → Option User
find_user u [] = none
find_user u (x ∷ xs) = if x.username =ₛ u then some x else find_user u xs

abbrev pub to_sql {ℓ} : {A : Type 0} {T : Type ℓ} → Option A → T → Sql A × T
to_sql none t = (no_rows, t)
to_sql (some a) t = (row a, t)

-- SELECT id, email, password_hash FROM users WHERE username = $1
unfoldable pub select_user : String → Tables → Sql User × Tables
select_user u t = to_sql (find_user u t.users) t

unfoldable pub find_wallet : ℕ → List WalletRow → Option ℕ
find_wallet u [] = none
find_wallet u (x ∷ xs) = if x.user_id == u then some x.id else find_wallet u xs

unfoldable pub has_user : ℕ → List User → Bool
has_user u [] = false
has_user u (x ∷ xs) = x.id == u || has_user u xs

abbrev pub insert_wallet_if : Bool → Option ℕ → ℕ → Tables → Sql ℕ × Tables
insert_wallet_if true none u t = (
  row t.next_wallet,
  record t {
    wallets = record { id = t.next_wallet; user_id = u } ∷ t.wallets;
    next_wallet = suc t.next_wallet;
  },
)
insert_wallet_if true (some w) u t =
    (failed unique_violation, record t { next_wallet = suc t.next_wallet })
insert_wallet_if false o u t = (failed other_failure, record t { next_wallet = suc t.next_wallet })

-- INSERT INTO wallets … RETURNING id: `user_id` is UNIQUE and references users(id).
unfoldable pub insert_wallet : ℕ → Tables → Sql ℕ × Tables
insert_wallet u t = insert_wallet_if (has_user u t.users) (find_wallet u t.wallets) u t

-- SELECT id FROM wallets WHERE user_id = $1
unfoldable pub select_wallet : ℕ → Tables → Sql ℕ × Tables
select_wallet u t = to_sql (find_wallet u t.wallets) t

unfoldable pub matches : ℕ → String → ℕ → String → Bool
matches w c w' c' = w' == w && c' =ₛ c

-- What the table holds for a wallet and a currency, its primary key.
unfoldable pub balance_of : ℕ → String → List BalanceRow → Option Cents
balance_of w c [] = none
balance_of w c (r ∷ rs) =
    if matches w c r.wallet_id r.currency then some r.amount else balance_of w c rs

unfoldable pub has_wallet : ℕ → List WalletRow → Bool
has_wallet w [] = false
has_wallet w (x ∷ xs) = x.id == w || has_wallet w xs

abbrev pub insert_balance_if : Bool → Option Cents → ℕ → String → Tables → Sql Unit × Tables
insert_balance_if true none w c t = (
  row tt,
  record t { balances = record { wallet_id = w; currency = c; amount = pos 0 } ∷ t.balances },
)
insert_balance_if true (some a) w c t = (failed unique_violation, t)
insert_balance_if false o w c t = (failed other_failure, t)

-- INSERT INTO balances (wallet_id, currency, amount) VALUES ($1, $2, 0)
unfoldable pub insert_balance : ℕ → String → Tables → Sql Unit × Tables
insert_balance w c t =
    insert_balance_if (has_wallet w t.wallets && is_currency c) (balance_of w c t.balances) w c t

-- SELECT currency, amount FROM balances WHERE wallet_id = $1
unfoldable pub rows_of : ℕ → List BalanceRow → List (String × Cents)
rows_of w [] = []
rows_of w (r ∷ rs) =
    let rest = rows_of w rs in if r.wallet_id == w then (r.currency, r.amount) ∷ rest else rest

abbrev pub assign : Option Cents → BalanceRow → List BalanceRow → Sql Cents × List BalanceRow
assign none r rs = (failed other_failure, r ∷ rs)
assign (some v) r rs = (row v, record r { amount = v } ∷ rs)

-- UPDATE balances SET amount = … WHERE wallet_id = $2 AND currency = $3 AND … RETURNING amount.
-- The key is the primary key, so no row behind the first match can match. An amount that does not
-- fit the column fails the statement.
unfoldable pub update_balance :
    ℕ
    → String
    → (Cents → Bool)
    → (Cents → Option Cents)
    → List BalanceRow
    → Sql Cents × List BalanceRow
update_balance w c test f [] = (no_rows, [])
update_balance w c test f (r ∷ rs) =
    let (s, rest) = update_balance w c test f rs in
    if matches w c r.wallet_id r.currency
    then (if test r.amount then assign (f r.amount) r rs else (no_rows, r ∷ rs))
    else (s, r ∷ rest)

abbrev pub with_balances : Tables → Sql Cents × List BalanceRow → Sql Cents × Tables
with_balances t (s, bs) = (s, record t { balances = bs })

unfoldable pub credited : Float → Cents → Option Cents
credited x a = store (units a +ℤ x)

unfoldable pub debited : Float → Cents → Option Cents
debited x a = store (units a -ℤ x)

-- amount >= $1
unfoldable pub covers : Float → Cents → Bool
covers x a = leb_ℤ x (units a)

-- SET amount = amount + $1
unfoldable pub update_credit : ℕ → String → Float → Tables → Sql Cents × Tables
update_credit w c x t = with_balances t (update_balance w c (λ _. true) (credited x) t.balances)

-- SET amount = amount - $1 … AND amount >= $1
unfoldable pub update_debit : ℕ → String → Float → Tables → Sql Cents × Tables
update_debit w c x t = with_balances t (update_balance w c (covers x) (debited x) t.balances)
