-- ===== src/Billing.antt =====
-- internal/hosted/billing: the credits of a tenant and what a review may spend.
pub mod Gate
pub mod Ledger
pub mod Stripe
