-- ===== src/Schema.antt =====
-- The rows and enums of packages/database/prisma/schema.prisma that the services read and write, as
-- one tenant's transaction sees them (row level security hides every other tenant's rows).
--
-- Money is in hundred-thousandths of a peso, the product of a price in cents and a quantity in
-- thousandths; prices are in cents. Quantities on hand are in millionths of a unit, since a bundle's
-- requirement is the product of two quantities in thousandths. Percentages are in hundredths of a
-- percent point (a `Decimal(5, 2)`), VAT rates in thousandths.
pub mod Enums
unfoldable pub use Enums.*
use punto_de_venta_local_con.Base.{
  ℕ, ◌+◌, ◌/◌, ◌*◌, ◌≤◌, ◌≡◌, arith, Bool, true, false, Option, none, List, String, same_id, ◌&&◌,
  ◌==◌,
}
use punto_de_venta_local_con.Base.Int.{ℤ, pos}

pub record Store : Type 0 where
  pub id : ℕ

pub record Product : Type 0 where
  pub id : ℕ
  pub sku : String
  pub barcode : Option String
  pub name : String
  pub product_type : ProductType
  pub cost_price : ℕ
  pub price : ℕ
  pub vat_condition : VatCondition
  pub track_stock : Bool
  pub is_active : Bool
  pub bundle_pricing_mode : BundlePricingMode
  pub bundle_discount_percent : Option ℕ
  pub category_id : Option ℕ

pub record Category : Type 0 where
  pub id : ℕ

pub record ProductVariant : Type 0 where
  pub id : ℕ
  pub product_id : ℕ
  pub sku : String
  pub barcode : Option String
  pub attributes : List String
  pub price : Option ℕ
  pub cost_price : Option ℕ

pub record BundleItem : Type 0 where
  pub id : ℕ
  pub bundle_product_id : ℕ
  pub component_product_id : ℕ
  pub component_variant_id : Option ℕ
  pub quantity : ℕ

pub record StockLevel : Type 0 where
  pub store_id : ℕ
  pub product_id : Option ℕ
  pub variant_id : Option ℕ
  pub quantity : ℤ
  pub min_alert_stock : Option ℕ

pub record Customer : Type 0 where
  pub id : ℕ
  pub name : String
  pub account_balance : ℤ
  pub credit_limit : Option ℤ

pub record AccountMovement : Type 0 where
  pub customer_id : ℕ
  pub store_id : Option ℕ
  pub movement_type : AccountMovementType
  pub amount : ℤ
  pub balance_after : ℤ
  pub order_id : Option ℕ
  pub cash_shift_id : Option ℕ
  pub payment_method : Option PaymentMethod
  pub user_id : ℕ
  pub idempotency_key : Option ℕ

pub record CashRegister : Type 0 where
  pub id : ℕ
  pub store_id : ℕ
  pub status : CashRegisterStatus

pub record CashShift : Type 0 where
  pub id : ℕ
  pub store_id : ℕ
  pub cash_register_id : ℕ
  pub user_id : ℕ
  pub initial_amount : ℕ
  pub actual_cash : Option ℕ
  pub expected_cash : Option ℤ
  pub difference : Option ℤ
  pub status : CashShiftStatus
  pub closed_at : Option ℕ

pub record CashMovement : Type 0 where
  pub cash_shift_id : ℕ
  pub user_id : ℕ
  pub movement_type : CashMovementType
  pub amount : ℕ

pub record Payment : Type 0 where
  pub method : PaymentMethod
  pub amount : ℕ
  pub reference : Option String

pub record OrderItemBundleComponent : Type 0 where
  pub component_product_id : ℕ
  pub component_variant_id : Option ℕ
  pub component_name : String
  pub quantity : ℕ

-- A `Decimal(12, 2)` column takes the nearest cent, and of two the greater.
abbrev pub stored_money : ℕ → ℕ
stored_money amount = (amount + 500) / 1_000 * 1_000

pub stored_money_bounds :
    (amount : ℕ) → (stored_money amount ≤ amount + 500) × (amount ≤ stored_money amount + 500)
stored_money_bounds amount = (omega arith, omega arith)

pub record OrderItem : Type 0 where
  pub product_id : ℕ
  pub variant_id : Option ℕ
  pub product_type : ProductType
  pub product_name : String
  pub sku : String
  pub quantity : ℕ
  pub unit_price : ℕ
  pub unit_cost : ℕ
  pub vat_condition : VatCondition
  pub tax_rate : ℕ
  pub discount_amount : ℕ
  pub subtotal : ℕ
  pub total : ℕ
  pub bundle_components : List OrderItemBundleComponent

pub record Order : Type 0 where
  pub id : ℕ
  pub store_id : ℕ
  pub cash_shift_id : Option ℕ
  pub customer_id : Option ℕ
  pub user_id : ℕ
  pub order_number : ℕ
  pub status : OrderStatus
  pub subtotal : ℕ
  pub discount_amount : ℕ
  pub tax_amount : ℕ
  pub total : ℕ
  pub notes : Option String
  pub items : List OrderItem
  pub payments : List Payment

pub record QuoteItem : Type 0 where
  pub product_id : ℕ
  pub variant_id : Option ℕ
  pub product_type : ProductType
  pub product_name : String
  pub sku : String
  pub quantity : ℕ
  pub unit_price : ℕ
  pub vat_condition : VatCondition
  pub tax_rate : ℕ
  pub discount_amount : ℕ
  pub subtotal : ℕ
  pub total : ℕ

-- `valid_until` is a date's `getTime()`, in milliseconds.
pub record Quote : Type 0 where
  pub id : ℕ
  pub store_id : ℕ
  pub user_id : ℕ
  pub customer_id : Option ℕ
  pub quote_number : ℕ
  pub status : QuoteStatus
  pub valid_until : ℕ
  pub subtotal : ℕ
  pub discount_amount : ℕ
  pub tax_amount : ℕ
  pub total : ℕ
  pub notes : Option String
  pub items : List QuoteItem
  pub order_id : Option ℕ

pub record Supplier : Type 0 where
  pub id : ℕ

pub record PurchaseItem : Type 0 where
  pub product_id : ℕ
  pub variant_id : Option ℕ
  pub product_name : String
  pub sku : String
  pub quantity : ℕ
  pub unit_cost : ℕ
  pub subtotal : ℕ

pub record Purchase : Type 0 where
  pub id : ℕ
  pub store_id : ℕ
  pub supplier_id : ℕ
  pub user_id : ℕ
  pub purchase_number : ℕ
  pub invoice_number : Option String
  pub total : ℕ
  pub notes : Option String
  pub items : List PurchaseItem

pub record DiscountPolicy : Type 0 where
  pub role : UserRole
  pub max_percent : ℕ

pub record FiscalConfig : Type 0 where
  pub store_id : ℕ
  pub pto_vta : ℕ

pub record Invoice : Type 0 where
  pub id : ℕ
  pub store_id : ℕ
  pub order_id : ℕ
  pub customer_id : Option ℕ
  pub related_invoice_id : Option ℕ
  pub invoice_type : InvoiceType
  pub pto_vta : ℕ
  pub cbte_nro : Option ℕ
  pub cae : Option ℕ
  pub status : InvoiceStatus

-- `action`, `entityType` and the ids of an `AuditLog` row; its metadata is a free-form JSON value.
pub record AuditLog : Type 0 where
  pub store_id : Option ℕ
  pub user_id : ℕ
  pub action : AuditAction
  pub entity_id : ℕ

pub record Database : Type 0 where
  pub stores : List Store
  pub categories : List Category
  pub products : List Product
  pub variants : List ProductVariant
  pub bundle_items : List BundleItem
  pub stock_levels : List StockLevel
  pub customers : List Customer
  pub account_movements : List AccountMovement
  pub cash_registers : List CashRegister
  pub cash_shifts : List CashShift
  pub cash_movements : List CashMovement
  pub orders : List Order
  pub quotes : List Quote
  pub suppliers : List Supplier
  pub purchases : List Purchase
  pub discount_policies : List DiscountPolicy
  pub invoices : List Invoice
  pub fiscal_configs : List FiscalConfig
  pub audit_logs : List AuditLog
  -- the id that the next created row takes
  pub next_id : ℕ

-- Who makes the request: apps/api/src/common/types/auth-user.ts.
pub record AuthUser : Type 0 where
  pub user_id : ℕ
  pub role : UserRole
