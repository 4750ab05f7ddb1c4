-- ===== src/Customers.antt =====
-- Customers' current accounts: apps/api/src/customers.
pub mod Account
pub mod Payments
