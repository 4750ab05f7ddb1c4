-- ===== src/Billing.antt =====
-- Subscriptions of the tenants: apps/api/src/billing.
pub mod Tenants
pub mod Status
pub mod Plan
pub mod Month
pub mod Payments
pub mod Enforcement
pub mod Answers
mod Tests
