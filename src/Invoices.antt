-- ===== src/Invoices.antt =====
-- Vouchers: apps/api/src/invoices/invoices.service.ts.
pub mod CreditNote
