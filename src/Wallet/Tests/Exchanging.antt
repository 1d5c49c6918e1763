-- ===== src/Wallet/Tests/Exchanging.antt =====
-- A run of HandleExchange, and the theorem at it.
use wallet_service.Base.{refl, some}
use wallet_service.Base.Int.{◌+ℤ◌, ◌-ℤ◌}
use wallet_service.Base.Dict.{lookup}
use wallet_service.Sql.{next_delivery, run_in_tx, run_sql, commit}
use wallet_service.Wallet.Money.{whole, units, store}
use wallet_service.Wallet.Db.{
  update_debit, update_credit, credited, debited, update_balance, matches, covers, is_currency,
  select_wallet, find_wallet,
}
use wallet_service.Wallet.Repo.{get_wallet_id_by_user_id, exchange, get_balances}
use wallet_service.Wallet.Client.{
  get_rate_with_source, get_all_rates, locked_part, is_fresh, next_call, read_clock,
}
use wallet_service.Wallet.Http.{Outcome, Response, World, response_of, query, announce, ◌>>=◌}
use wallet_service.Wallet.Balance.{allowed}
use wallet_service.Wallet.Exchange.{
  ExchangeRequest, ask, check_exchange, exchanged_amount, handle_exchange,
}
use wallet_service.Wallet.Exchange.Done.{Done, handle_exchange-Done}
use wallet_service.Wallet.Tests.{ops, usd, eur}
use wallet_service.Wallet.Tests.Service.{world, by_alice}

abbrev thirty_dollars : ExchangeRequest
thirty_dollars = record { from_currency = usd; to_currency = eur; amount = whole 30 }

abbrev run : Outcome Response × World
run = handle_exchange ops by_alice (some thirty_dollars) world

handle_exchange-Done_example :
    Done ops by_alice (some thirty_dollars) world (response_of run).0 run.1
unfolding handle_exchange check_exchange allowed is_currency query announce ◌>>=◌ ask
    get_wallet_id_by_user_id select_wallet find_wallet run_sql get_rate_with_source get_all_rates
    locked_part is_fresh next_call read_clock lookup exchange exchanged_amount next_delivery
    run_in_tx update_debit update_credit update_balance matches credited debited covers units store
    ◌+ℤ◌ ◌-ℤ◌ commit get_balances
handle_exchange-Done_example =
    handle_exchange-Done ops by_alice (some thirty_dollars) world (response_of run).0 run.1 refl
