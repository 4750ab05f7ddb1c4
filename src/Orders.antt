-- ===== src/Orders.antt =====
-- Sales: apps/api/src/orders/orders.service.ts.
pub mod Pricing
pub mod Lines
pub mod Create
pub mod Cancel
pub mod Roundtrip
pub mod Tests
