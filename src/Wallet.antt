-- ===== src/Wallet.antt =====
-- gw-currency-wallet: the wallet service.
pub mod Errors
pub mod Money
pub mod Db
pub mod Repo
pub mod Ledger
pub mod Client
pub mod Publisher
pub mod Http
pub mod Auth
pub mod Balance
pub mod Accounts
pub mod Exchange
pub mod Health
pub mod Routes
pub mod Safety
pub mod Outcomes
pub mod Sessions
pub mod Registration
mod Tests
