-- ===== src/Wallet/Safety.antt =====
-- An invariant of the wallet service over its handlers: the rules, and HandleBalance.
pub mod Money
pub mod Service
use wallet_service.Base.{
  ℕ, String, ◌≡◌, refl, Bool, true, false, not, ◌||◌, ◌&&◌, ◌=ₛ◌, Option, none, some, List, [], ◌∷◌,
  arith, if◌then◌else◌,
}
use wallet_service.Base.Result.{ok, err}
use wallet_service.Base.Int.{pos, ◌≤ℤ◌, leb_ℤ}
use wallet_service.Wallet.Money.{Float, FloatOps, whole}
use wallet_service.Wallet.Client.{Client, Reply, get_all_rates, get_rate_with_source}
use wallet_service.Wallet.Client.Signs.{
  HasSoundRates, get_all_rates-Sound, get_rate_with_source-Sound,
}
use wallet_service.Wallet.Repo.Amounts.{
  NonNegative, deposit-NonNegative, withdraw-NonNegative, exchange-NonNegative,
}
use wallet_service.Wallet.Repo.Signs.{
  KeepsMoney, create_user-KeepsMoney, get_user_by_username-KeepsMoney,
  create_wallet_for_user-KeepsMoney, create_balances_for_wallet-KeepsMoney,
  get_wallet_id_by_user_id-KeepsMoney, get_balances-KeepsMoney,
}
use wallet_service.Wallet.Repo.{
  Action, create_user, get_user_by_username, create_wallet_for_user, create_balances_for_wallet,
  get_wallet_id_by_user_id, get_balances, deposit, withdraw, exchange,
}
use wallet_service.Wallet.Http.{
  World, Response, Request, Outcome, go, reply, Handler, pure, answer, ◌>>=◌, ◌>>◌, reply_if, need,
  query, announce, require_method, require_user,
}
use wallet_service.Wallet.Http.Laws.{
  Keeps, Any, Ensures, Keeps-pure, Keeps-answer, Keeps-need, Keeps-reply_if, Keeps-bind,
  Keeps-query, Keeps-announce, Keeps-mono,
}
use wallet_service.Wallet.Errors.{Err}
use wallet_service.Wallet.Balance.{
  AmountCurrencyRequest, handle_balance, handle_deposit, handle_withdraw, check_amount,
}

abbrev pub SoundClient : Option Client → Type 0
SoundClient none = Unit
SoundClient (some c) = HasSoundRates c

-- No balance is negative, and neither is a rate that the client holds or will be answered.
pub record IsSound (w : World) : Type 0 where
  pub money : NonNegative w.conn.tables
  pub rates : SoundClient w.client

pub last-reply_if : (b : Bool) (r : Response) → Keeps IsSound Any (reply_if b r)
last-reply_if b r =
    Keeps-mono IsSound (λ _. b ≡ false) Any (λ _ _. tt) (reply_if b r) (Keeps-reply_if IsSound b r)

-- The steps of a handler, and what each hands to the rest of it.
module _ {B : Type 0} (Q : B → Type 0) where
  pub step-pure : (b : B) → Q b → Keeps IsSound Q (pure b)
  step-pure b q = Keeps-pure IsSound Q b q

  pub step-need :
      {A : Type 0} (o : Option A) (r : Response) (f : A → Handler B)
      → ((a : A) → Keeps IsSound Q (f a))
      → Keeps IsSound Q (need o r >>= f)
  step-need o r f k = Keeps-bind IsSound Any Q (need o r) f (Keeps-need IsSound o r) (λ a _. k a)

  pub step-reply_if :
      (b : Bool) (r : Response) (f : Unit → Handler B)
      → (b ≡ false → Keeps IsSound Q (f tt))
      → Keeps IsSound Q (reply_if b r >>= f)
  step-reply_if b r f k =
      Keeps-bind IsSound (λ _. b ≡ false) Q (reply_if b r) f (Keeps-reply_if IsSound b r)
        (λ _ e. k e)

  pub step-query :
      {A : Type 0} (action : Action A) (g : Err → Response) (f : A → Handler B)
      → KeepsMoney action
      → ((a : A) → Keeps IsSound Q (f a))
      → Keeps IsSound Q (query action g >>= f)
  step-query action g f keep k =
      Keeps-bind IsSound Any Q (query action g) f
        (Keeps-query IsSound action g
          (λ w h. record { money = keep.at w.conn h.money; rates = h.rates }))
        (λ a _. k a)

  pub step-announce :
      (user : ℕ) (kind currency : String) (amount : Float) (f : Unit → Handler B)
      → Keeps IsSound Q (f tt)
      → Keeps IsSound Q (announce user kind currency amount >>= f)
  step-announce user kind currency amount f k =
      Keeps-bind IsSound Any Q (announce user kind currency amount) f
        (Keeps-announce IsSound user kind currency amount
          (λ w b h. record { money = h.money; rates = h.rates }))
        (λ _ _. k)

-- `search` builds the derivation for a handler from these.
pub ruleset steps =
    (step-pure, step-need, step-reply_if, step-query, step-announce, last-reply_if, tt)

pub handle_balance-IsSound :
    (ops : FloatOps) (r : Request) → Keeps IsSound Any (handle_balance ops r)
unfolding handle_balance
handle_balance-IsSound ops r =
    search (steps, get_wallet_id_by_user_id-KeepsMoney, get_balances-KeepsMoney) depth 9
