-- ===== src/Billing.antt =====
-- Money: app/services/billing_service.py, app/services/subscription_service.py,
-- app/services/payout_service.py and app/services/commission_service.py.
pub mod Prices
pub mod Quotes
pub mod Calendar
pub mod Periods
pub mod Payments
pub mod Captures
pub mod Extensions
pub mod Orders
pub mod Activation
pub mod Refunds
pub mod Refunded
pub mod Wallets
pub mod Balance
pub mod Approvals
mod Purchase
mod Tests
