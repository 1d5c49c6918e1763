-- ===== src/Notification.antt =====
-- gw-notification: it stores the wallet's events of large transactions.
pub mod Store
pub mod Consumer
pub mod Delivery
pub mod Collected
pub mod Health
mod Tests
