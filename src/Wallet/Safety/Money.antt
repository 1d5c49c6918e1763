-- ===== src/Wallet/Safety/Money.antt =====
-- The invariant of the wallet service over the handlers that move money.
use wallet_service.Base.{ℕ, String, ◌≡◌, false, not, Option, none, some, arith}
use wallet_service.Base.Result.{ok, err}
use wallet_service.Base.Int.{pos, ◌≤ℤ◌, leb_ℤ}
use wallet_service.Wallet.Money.{Float, FloatOps}
use wallet_service.Wallet.Client.{Client, Reply, get_rate_with_source}
use wallet_service.Wallet.Client.Signs.{HasSoundRates, get_rate_with_source-Sound}
use wallet_service.Wallet.Repo.Amounts.{
  deposit-NonNegative, withdraw-NonNegative, exchange-NonNegative,
}
use wallet_service.Wallet.Repo.Signs.{KeepsMoney, get_wallet_id_by_user_id-KeepsMoney}
use wallet_service.Wallet.Repo.{deposit, withdraw, exchange}
use wallet_service.Wallet.Http.{World, Response, Request, Handler, answer, ◌>>=◌}
use wallet_service.Wallet.Http.Laws.{
  Keeps, Any, Ensures, Keeps-answer, Keeps-reply_if, Keeps-bind, Keeps-mono,
}
use wallet_service.Wallet.Balance.{
  AmountCurrencyRequest, allowed, check_amount, handle_deposit, handle_withdraw,
}
use wallet_service.Wallet.Exchange.{
  ExchangeRequest, check_exchange, answered_by, call_client, ask, exchanged_amount, handle_exchange,
}
use wallet_service.Wallet.Safety.{IsSound, SoundClient, steps}

-- The signs that the float operations keep.
pub record KeepsSign (ops : FloatOps) : Type 0 where
  pub mul : (a b : Float) → pos 0 ≤ℤ a → pos 0 ≤ℤ b → pos 0 ≤ℤ ops.mul a b
  pub quo : (a b : Float) → pos 0 ≤ℤ a → pos 0 ≤ℤ b → pos 0 ≤ℤ ops.quo a b
  pub round : (a : Float) → pos 0 ≤ℤ a → pos 0 ≤ℤ ops.round a

positive : (x : Float) → leb_ℤ x (pos 0) ≡ false → pos 0 ≤ℤ x
positive x h = ground arith

check_amount-Keeps :
    (req : AmountCurrencyRequest) → Keeps IsSound (λ _. pos 0 ≤ℤ req.amount) (check_amount req)
unfolding check_amount
check_amount-Keeps req =
    Keeps-bind IsSound (λ _. leb_ℤ req.amount (pos 0) ≡ false) (λ _. pos 0 ≤ℤ req.amount) _ _
      (Keeps-reply_if IsSound _ _)
      (λ _ e.
        Keeps-mono IsSound (λ _. not (allowed req.currency) ≡ false) (λ _. pos 0 ≤ℤ req.amount)
          (λ _ _. positive req.amount e) _ (Keeps-reply_if IsSound _ _))

check_exchange-Keeps :
    (req : ExchangeRequest) → Keeps IsSound (λ _. pos 0 ≤ℤ req.amount) (check_exchange req)
unfolding check_exchange
check_exchange-Keeps req =
    Keeps-bind IsSound (λ _. leb_ℤ req.amount (pos 0) ≡ false) (λ _. pos 0 ≤ℤ req.amount) _ _
      (Keeps-reply_if IsSound _ _)
      (λ _ e. Keeps-mono IsSound Any _ (λ _ _. positive req.amount e) _ (search steps))

step-check_amount :
    (req : AmountCurrencyRequest) (f : Unit → Handler Response)
    → (pos 0 ≤ℤ req.amount → Keeps IsSound Any (f tt))
    → Keeps IsSound Any (check_amount req >>= f)
step-check_amount req f k =
    Keeps-bind IsSound _ Any (check_amount req) f (check_amount-Keeps req) (λ _ h. k h)

step-check_exchange :
    (req : ExchangeRequest) (f : Unit → Handler Response)
    → (pos 0 ≤ℤ req.amount → Keeps IsSound Any (f tt))
    → Keeps IsSound Any (check_exchange req >>= f)
step-check_exchange req f k =
    Keeps-bind IsSound _ Any (check_exchange req) f (check_exchange-Keeps req) (λ _ h. k h)

-- A call of the client hands on what its calls are sure to give.
module _ {A : Type 0} (Good : A → Type 0) where
  abbrev pub GoodReply : Reply A × Client → Type 0
  GoodReply (ok (a, s), c) = Good a × HasSoundRates c
  GoodReply (err e, c) = HasSoundRates c

  answered_by-Ensures :
      (r : Response) (w : World) (q : Reply A × Client)
      → IsSound w
      → GoodReply q
      → Ensures IsSound (λ p. Good p.0) (answered_by r w q)
  answered_by-Ensures r w (ok (a, s), c) h (good, rates) =
      (record { money = h.money; rates = rates }, good)
  answered_by-Ensures r w (err e, c) h rates = record { money = h.money; rates = rates }

  call_client-Ensures :
      (call : Client → Reply A × Client) (missing : Handler (A × String)) (r : Response)
      (o : Option Client) (w : World)
      → ((c : Client) → HasSoundRates c → GoodReply (call c))
      → Keeps IsSound (λ p. Good p.0) missing
      → SoundClient o
      → IsSound w
      → Ensures IsSound (λ p. Good p.0) (call_client call missing r o w)
  call_client-Ensures call missing r none w good km so h = km.at w h
  call_client-Ensures call missing r (some c) w good km so h =
      answered_by-Ensures r w (call c) h (good c so)

  pub ask-Keeps :
      (call : Client → Reply A × Client) (missing : Handler (A × String)) (r : Response)
      → ((c : Client) → HasSoundRates c → GoodReply (call c))
      → Keeps IsSound (λ p. Good p.0) missing
      → Keeps IsSound (λ p. Good p.0) (ask call missing r)
  unfolding ask
  ask-Keeps call missing r good km = record {
    at = λ w h. call_client-Ensures call missing r w.client w good km h.rates h;
  }

deposit-KeepsMoney :
    (ops : FloatOps) (w : ℕ) (cur : String) (x : Float)
    → pos 0 ≤ℤ x
    → KeepsMoney (deposit ops w cur x)
deposit-KeepsMoney ops w cur x h = record { at = λ c inv. deposit-NonNegative ops w cur x c h inv }

withdraw-KeepsMoney :
    (ops : FloatOps) (w : ℕ) (cur : String) (x : Float) → KeepsMoney (withdraw ops w cur x)
withdraw-KeepsMoney ops w cur x = record { at = λ c inv. withdraw-NonNegative ops w cur x c inv }

exchange-KeepsMoney :
    (ops : FloatOps) (w : ℕ) (from to : String) (debit credit : Float)
    → pos 0 ≤ℤ credit
    → KeepsMoney (exchange ops w from to debit credit)
exchange-KeepsMoney ops w from to debit credit h = record {
  at = λ c inv. exchange-NonNegative ops w from to debit credit c h inv;
}

module _ (ops : FloatOps) (r : Request) where
  pub handle_deposit-IsSound :
      (body : Option AmountCurrencyRequest) → Keeps IsSound Any (handle_deposit ops r body)
  unfolding handle_deposit
  handle_deposit-IsSound body =
      search (steps, step-check_amount, get_wallet_id_by_user_id-KeepsMoney, deposit-KeepsMoney)
        depth 12

  pub handle_withdraw-IsSound :
      (body : Option AmountCurrencyRequest) → Keeps IsSound Any (handle_withdraw ops r body)
  unfolding handle_withdraw
  handle_withdraw-IsSound body =
      search (steps, step-check_amount, get_wallet_id_by_user_id-KeepsMoney, withdraw-KeepsMoney)
        depth 12

  exchanged_amount_nonneg :
      (law : KeepsSign ops) (amount rate : Float)
      → pos 0 ≤ℤ amount
      → pos 0 ≤ℤ rate
      → pos 0 ≤ℤ exchanged_amount ops amount rate
  unfolding exchanged_amount
  exchanged_amount_nonneg law amount rate ha hr =
      law.quo _ _ (law.round _ (law.mul _ _ (law.mul _ _ ha hr) (omega arith))) (omega arith)

  step-ask_rate :
      (from to : String) (no_client unavailable : Response) (f : Float × String → Handler Response)
      → ((p : Float × String) → pos 0 ≤ℤ p.0 → Keeps IsSound Any (f p))
      → Keeps IsSound Any (ask (get_rate_with_source from to) (answer no_client) unavailable >>= f)
  step-ask_rate from to no_client unavailable f k =
      Keeps-bind IsSound (λ p. pos 0 ≤ℤ p.0) Any _ f
        (ask-Keeps (λ x. pos 0 ≤ℤ x) (get_rate_with_source from to) (answer no_client) unavailable
          (λ c h. get_rate_with_source-Sound from to c h) (Keeps-answer IsSound _ no_client))
        k

  pub handle_exchange-IsSound :
      (law : KeepsSign ops) (body : Option ExchangeRequest)
      → Keeps IsSound Any (handle_exchange ops r body)
  unfolding handle_exchange
  handle_exchange-IsSound law body =
      search
        (
          steps,
          step-check_exchange,
          step-ask_rate,
          get_wallet_id_by_user_id-KeepsMoney,
          exchange-KeepsMoney,
          exchanged_amount_nonneg law,
        )
        depth 14
