-- ===== src/Orders/Tests.antt =====
-- A shop with two products and a bundle, and a sale of it, for the examples of apps/api/src/orders.
pub mod Sale
pub mod Cancelled
pub mod Drawer
use punto_de_venta_local_con.Base.{ℕ, ◌≡◌, refl, Option, none, some, List, [], ◌∷◌, true, false}
use punto_de_venta_local_con.Base.Int.{pos}
use punto_de_venta_local_con.Base.Outcome.{Result, ok, err}
use punto_de_venta_local_con.Schema.{
  BundlePricingMode, Database, Product, StockLevel, ProductType, iva_21, iva_10_5, CashShiftStatus,
  UserRole, AuthUser, PaymentMethod, Order, completed,
}
use punto_de_venta_local_con.Orders.Lines.{ItemDto}
use punto_de_venta_local_con.Orders.Create.{CreateOrderDto, Created, attempt_create}

abbrev soda : Product
soda = record {
  id = 10;
  sku = "SODA";
  barcode = none;
  name = "Soda";
  product_type = ProductType.simple;
  cost_price = 600;
  price = 1000;
  vat_condition = iva_21;
  track_stock = true;
  is_active = true;
  bundle_pricing_mode = BundlePricingMode.manual;
  bundle_discount_percent = none;
  category_id = none;
}

abbrev bread : Product
bread = record soda { id = 11; sku = "BREAD"; name = "Bread"; vat_condition = iva_10_5 }

abbrev pack : Product
pack = record soda {
  id = 12;
  sku = "PACK";
  barcode = none;
  name = "Pack";
  product_type = ProductType.bundle;
  price = 5000;
  track_stock = false;
}

-- Ten units.
abbrev level : ℕ → StockLevel
level product = record {
  store_id = 1;
  product_id = some product;
  variant_id = none;
  quantity = pos 10_000_000;
  min_alert_stock = none;
}

abbrev pub shop : Database
shop = record {
  stores = record { id = 1 } ∷ [];
  categories = [];
  products = soda ∷ bread ∷ pack ∷ [];
  variants = [];
  bundle_items =
      record {
        id = 80;
        bundle_product_id = 12;
        component_product_id = 11;
        component_variant_id = none;
        quantity = 2000;
      }
      ∷ [];
  stock_levels = level 10 ∷ level 11 ∷ [];
  customers =
      record { id = 7; name = "Ana"; account_balance = pos 0; credit_limit = some (pos 9_000_000) }
      ∷ [];
  account_movements = [];
  cash_registers = [];
  cash_shifts =
      record {
        id = 5;
        store_id = 1;
        cash_register_id = 3;
        user_id = 9;
        initial_amount = 0;
        actual_cash = none;
        expected_cash = none;
        difference = none;
        status = CashShiftStatus.opened;
        closed_at = none;
      }
      ∷ [];
  cash_movements = [];
  orders = [];
  quotes = [];
  suppliers = [];
  purchases = [];
  discount_policies = [];
  invoices = [];
  fiscal_configs = record { store_id = 1; pto_vta = 1 } ∷ [];
  audit_logs = [];
  next_id = 100;
}

abbrev pub seller : AuthUser
seller = record { user_id = 9; role = UserRole.manager }

-- Two sodas with a peso off and a pack, partly on credit.
abbrev pub basket : CreateOrderDto
basket = record {
  store_id = 1;
  cash_shift_id = some 5;
  customer_id = some 7;
  items =
      record { product_id = 10; variant_id = none; quantity = 2000; discount_amount = some 100_000 }
      ∷ record { product_id = 12; variant_id = none; quantity = 1000; discount_amount = none }
      ∷ [];
  payments =
      record { method = PaymentMethod.cash; amount = 4_000_000; reference = none }
      ∷ record { method = PaymentMethod.current_account; amount = 2_900_000; reference = none }
      ∷ [];
  notes = none;
  quote_id = none;
}

-- What a call returned, and a default for one that failed.
abbrev pub value_or {ℓ} : {A : Type ℓ} → A → Result A → A
value_or default (ok a) = a
value_or default (err e) = default

-- An order of another transaction, with the first number.
abbrev pub rival : Order
rival = record {
  id = 90;
  store_id = 1;
  cash_shift_id = none;
  customer_id = none;
  user_id = 8;
  order_number = 1;
  status = completed;
  subtotal = 0;
  discount_amount = 0;
  tax_amount = 0;
  total = 0;
  notes = none;
  items = [];
  payments = [];
}

abbrev unsold : Created
unsold = record { order = rival; sync = []; database = shop }

abbrev pub sold : Created
unfolding attempt_create
sold = value_or unsold (attempt_create [] seller basket shop)
