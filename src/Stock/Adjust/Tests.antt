-- ===== src/Stock/Adjust/Tests.antt =====
-- Examples of adjustments, one of which loses a sale that commits while it runs.
use punto_de_venta_local_con.Base.{
  ℕ, ◌≤◌, ◌≡◌, refl, true, none, some, List, [], ◌∷◌, if◌then◌else◌, arith,
}
use punto_de_venta_local_con.Base.Int.{pos, ◌+ℤ◌}
use punto_de_venta_local_con.Base.Outcome.{ok}
use punto_de_venta_local_con.Schema.{
  BundlePricingMode, Database, Product, ProductType, iva_21, StockLevel, AuthUser, UserRole,
  AuditAction,
}
use punto_de_venta_local_con.Stock.{is_row_of, find_stock_level}
use punto_de_venta_local_con.Stock.View.{on_hand, rows_at, same_target}
use punto_de_venta_local_con.Stock.Adjust.{AdjustStockDto, adjust_target, adjust}
use punto_de_venta_local_con.Stock.Adjust.Effect.{adjust_effect}

abbrev level : ℕ → StockLevel
level n = record {
  store_id = 1;
  product_id = some 10;
  variant_id = none;
  quantity = pos n;
  min_alert_stock = none;
}

abbrev soda : Product
soda = record {
  id = 10;
  sku = "SODA";
  barcode = none;
  name = "Soda";
  product_type = ProductType.simple;
  cost_price = 600;
  price = 1000;
  vat_condition = iva_21;
  track_stock = true;
  is_active = true;
  bundle_pricing_mode = BundlePricingMode.manual;
  bundle_discount_percent = none;
  category_id = none;
}

abbrev store : Database
store = record {
  stores = record { id = 1 } ∷ [];
  categories = [];
  products = soda ∷ [];
  variants = [];
  bundle_items = [];
  stock_levels = level 10 ∷ [];
  customers = [];
  account_movements = [];
  cash_registers = [];
  cash_shifts = [];
  cash_movements = [];
  orders = [];
  quotes = [];
  suppliers = [];
  purchases = [];
  discount_policies = [];
  invoices = [];
  fiscal_configs = [];
  audit_logs = [];
  next_id = 1;
}

abbrev manager : AuthUser
manager = record { user_id = 4; role = UserRole.manager }

-- Five more.
abbrev five_more : AdjustStockDto
five_more = record {
  store_id = 1;
  product_id = some 10;
  variant_id = none;
  delta = some (pos 5);
  absolute_quantity = none;
  min_alert_stock = none;
}

-- A sale of three commits in the middle.
abbrev sale : List StockLevel → List StockLevel
sale levels = level 7 ∷ []

abbrev adjusted : Database
adjusted = record store {
  stock_levels = level 15 ∷ [];
  audit_logs =
      record { store_id = some 1; user_id = 4; action = AuditAction.stock_adjust; entity_id = 10 }
      ∷ [];
}

store_rows : rows_at (adjust_target five_more) store.stock_levels ≤ 1
unfolding rows_at is_row_of
store_rows = omega arith

sale_rows :
    rows_at (adjust_target five_more) (sale store.stock_levels)
    ≡ rows_at (adjust_target five_more) store.stock_levels
unfolding rows_at is_row_of
sale_rows = refl

level-adjusted : adjust sale manager five_more store ≡ ok adjusted
unfolding adjust find_stock_level is_row_of ◌+ℤ◌
level-adjusted = refl

adjust_effect_example :
    let t = adjust_target five_more in
    on_hand t adjusted.stock_levels
    ≡ (if same_target t t then on_hand t store.stock_levels +ℤ pos 5 else on_hand t (level 7 ∷ []))
adjust_effect_example =
    adjust_effect sale manager five_more store {db' = adjusted} store_rows sale_rows level-adjusted
      (adjust_target five_more)
