-- ===== src/Afip.antt =====
-- What the tax authority is told about a sale: apps/api/src/afip.
pub mod InvoiceTypes
pub mod FeCaeAmounts
