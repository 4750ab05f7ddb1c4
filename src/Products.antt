-- ===== src/Products.antt =====
-- Prices of products: apps/api/src/products.
pub mod BundlePricing
pub mod BulkPrice
pub mod Catalogue
pub mod Creation
mod Tests
