-- ===== src/Wallet/Exchange/Parts.antt =====
-- The parts of HandleExchange in gw-currency-wallet/internal/handler_exchange.go: what each did when it
-- did not reply.
use wallet_service.Base.{
  ℕ, String, ◌≡◌, refl, sym, ap, ◌∙◌, true, false, not, ◌&&◌, Option, none, some, arith, ◌=ₛ◌,
}
use wallet_service.Base.Int.{pos, leb_ℤ, ◌<ℤ◌, leb_ℤ→<ℤ}
use wallet_service.Base.Result.{ok, err}
use wallet_service.Sql.{Conn, run_sql}
use wallet_service.Wallet.Db.{Tables, select_wallet}
use wallet_service.Wallet.Repo.{get_wallet_id_by_user_id}
use wallet_service.Wallet.Client.{Client, Reply}
use wallet_service.Wallet.Http.{Response, World, Outcome, go, write_error, answer, reply_if}
use wallet_service.Wallet.Http.Laws.{bind_go, reply_if_go}
use wallet_service.Wallet.Balance.{allowed}
use wallet_service.Wallet.Outcomes.{go_value, go_world}
use wallet_service.Wallet.Exchange.{ExchangeRequest, answered_by, call_client, ask, check_exchange}

module _ {A : Type 0} (call : Client → Reply A × Client) (no_client failed : Response) where
  answered_go :
      (q : Reply A × Client) (w : World) {found : A × String} {w' : World}
      → answered_by failed w q ≡ (go found, w')
      → (q.0 ≡ ok found) × (w' ≡ record w { client = some q.1 })
  answered_go (ok a, c) w h = (ap ok (go_value h), sym (go_world h))
  answered_go (err e, c) w h = cc (ap (λ (p : Outcome (A × String) × World). p.0) h)

  called_go :
      (o : Option Client) (w : World) {found : A × String} {w' : World}
      → call_client call (answer no_client) failed o w ≡ (go found, w')
      → (c : Client) × (o ≡ some c)
        × ((call c).0 ≡ ok found)
        × (w' ≡ record w { client = some (call c).1 })
  called_go none w h = cc (ap (λ (p : Outcome (A × String) × World). p.0) h)
  called_go (some c) w h = let (found, world) = answered_go (call c) w h in (c, refl, found, world)

  pub ask_go :
      (w : World) {found : A × String} {w' : World}
      → ask call (answer no_client) failed w ≡ (go found, w')
      → (c : Client) × (w.client ≡ some c)
        × ((call c).0 ≡ ok found)
        × (w' ≡ record w { client = some (call c).1 })
  unfolding ask
  ask_go w h = called_go w.client w h

pub check_exchange_go :
    (req : ExchangeRequest) (w : World) {w' : World}
    → check_exchange req w ≡ (go tt, w')
    → (pos 0 <ℤ req.amount)
      × (req.from_currency =ₛ req.to_currency ≡ false)
      × (allowed req.from_currency && allowed req.to_currency ≡ true)
      × (w ≡ w')
unfolding check_exchange
check_exchange_go req w h =
    let (_, w1, a, h1) =
      bind_go (reply_if (leb_ℤ req.amount (pos 0)) (write_error 400 "invalid amount")) _ w h in
    let (positive, same1) =
      reply_if_go (leb_ℤ req.amount (pos 0)) (write_error 400 "invalid amount") w a in
    let (_, w2, b, h2) =
      bind_go
        (reply_if (req.from_currency =ₛ req.to_currency)
          (write_error 400 "from_currency and to_currency must differ"))
        _ w1 h1 in
    let (differ, same2) =
      reply_if_go (req.from_currency =ₛ req.to_currency)
        (write_error 400 "from_currency and to_currency must differ") w1 b in
    let (allow, same3) =
      reply_if_go (not (allowed req.from_currency && allowed req.to_currency))
        (write_error 400 "invalid currency") w2 h2 in
    (leb_ℤ→<ℤ req.amount (pos 0) positive, differ, ground arith, same1 ∙ same2 ∙ same3)

pub wallet_id_reads :
    (user : ℕ) (c : Conn Tables) → (get_wallet_id_by_user_id user c).1.tables ≡ c.tables
unfolding get_wallet_id_by_user_id run_sql select_wallet
wallet_id_reads user c = ground arith
