-- ===== src/Stock/Available.antt =====
-- apps/api/src/stock/stock-calculation.ts: how much of a product a store can sell.
pub mod Bound
pub mod Exact
mod Tests
use punto_de_venta_local_con.Base.{
  ℕ, ◌*◌, ◌/◌, Bool, true, false, Option, none, some, List, [], ◌∷◌, if◌then◌else◌,
}
use punto_de_venta_local_con.Base.Int.{ℤ, pos, negsuc, pos_part, leb_ℤ}
use punto_de_venta_local_con.Schema.{Database, Product, StockLevel, is_bundle}
use punto_de_venta_local_con.Stock.{StockTarget, find_stock_level}
use punto_de_venta_local_con.Orders.Lines.{Component, bundle_components, stock_target}

-- `StockResult`; the quantity is in millionths.
pub record StockResult : Type 0 where
  pub quantity : ℤ
  pub is_unlimited : Bool

-- `level ? Number(level.quantity) : 0`
unfoldable pub quantity_at : StockTarget → List StockLevel → ℤ
quantity_at t levels = elim (find_stock_level t levels) [
  | none ↦ pos 0
  | some level ↦ level.quantity
]

-- `Math.floor` of a quotient.
unfoldable pub floor_div : ℤ → ℕ → ℤ
floor_div (pos n) d = pos (n / d)
floor_div (negsuc n) d = negsuc (n / d)

abbrev pub min_ℤ : ℤ → ℤ → ℤ
min_ℤ a b = if leb_ℤ a b then a else b

-- How many bundles the stock of a component is enough for.
unfoldable pub possible_bundles : ℕ → List StockLevel → Component → ℤ
unfolding quantity_at floor_div
possible_bundles store levels c =
    floor_div
      (quantity_at (stock_target store c.item.component_product_id c.item.component_variant_id)
        levels)
      (c.item.quantity * 1000)

abbrev pub lower : Option ℤ → ℤ → Option ℤ
lower none possible = some possible
lower (some least) possible = some (min_ℤ least possible)

-- The loop over the components, with `minAvailable`.
unfoldable pub min_available : ℕ → List StockLevel → List Component → Option ℤ → Option ℤ
unfolding possible_bundles
min_available store levels [] least = least
min_available store levels (c ∷ cs) least =
    min_available store levels cs
      (if c.product.track_stock then lower least (possible_bundles store levels c) else least)

-- `Math.max(0, minAvailable)` bundles.
abbrev pub bundle_result : Option ℤ → StockResult
bundle_result none = record { quantity = pos 0; is_unlimited = true }
bundle_result (some least) = record {
  quantity = pos (pos_part least * 1_000_000);
  is_unlimited = false;
}

-- `getBundleAvailableStock`
unfoldable pub get_bundle_available_stock : ℕ → List StockLevel → List Component → StockResult
unfolding min_available
get_bundle_available_stock store levels [] = record { quantity = pos 0; is_unlimited = false }
get_bundle_available_stock store levels (c ∷ cs) =
    bundle_result (min_available store levels (c ∷ cs) none)

-- `getAvailableStock`
unfoldable pub get_available_stock : Database → ℕ → Product → Option ℕ → StockResult
unfolding get_bundle_available_stock quantity_at
get_available_stock db store product variant =
    if is_bundle product.product_type
    then get_bundle_available_stock store db.stock_levels (bundle_components db product.id)
    else if product.track_stock
    then record {
      quantity = quantity_at (stock_target store product.id variant) db.stock_levels;
      is_unlimited = false;
    }
    else record { quantity = pos 0; is_unlimited = true }
