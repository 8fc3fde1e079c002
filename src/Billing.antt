-- ===== src/Billing.antt =====
-- The billing service (internal/billing).
pub mod Amount
pub mod Types
pub mod Periods
pub mod Webhook
pub mod Quota
pub mod Checkout
pub mod Subscriptions
pub mod OneCurrent
