-- ===== src/Stock.antt =====
-- apps/api/src/stock/stock-mutations.ts: the rows of `StockLevel` and the two ways to move them.
pub mod View
pub mod Moves
pub mod Guarded
pub mod Batches
pub mod Adjust
pub mod Available
mod Tests
use punto_de_venta_local_con.Base.{
  ℕ, Bool, Option, none, some, List, [], ◌∷◌, ◌++◌, ◌&&◌, ◌==◌, if◌then◌else◌, same_id, is_some,
}
use punto_de_venta_local_con.Base.Int.{pos, ◌+ℤ◌, ◌-ℤ◌, leb_ℤ}
use punto_de_venta_local_con.Base.Lists.{find, filter, length, update_where, update_found}
use punto_de_venta_local_con.Base.Outcome.{Result, ok, err, bad_request, stock_insufficient}
use punto_de_venta_local_con.Schema.{StockLevel}

-- A simple product by `product_id`, or one of its variants by `variant_id`.
pub record StockTarget : Type 0 where
  pub store_id : ℕ
  pub product_id : Option ℕ
  pub variant_id : Option ℕ

-- `target.variantId ? null : target.productId`
abbrev pub row_product : StockTarget → Option ℕ
row_product t = if is_some t.variant_id then none else t.product_id

-- The `where` of `findStockLevel`, and the first three conditions of the guarded `UPDATE`.
unfoldable pub is_row_of : StockTarget → StockLevel → Bool
is_row_of t l =
    l.store_id == t.store_id
    && same_id l.product_id (row_product t)
    && same_id l.variant_id t.variant_id

unfoldable pub find_stock_level : StockTarget → List StockLevel → Option StockLevel
find_stock_level t levels = find (is_row_of t) levels

abbrev pub add_quantity : ℕ → StockLevel → StockLevel
add_quantity q l = record l { quantity = l.quantity +ℤ pos q }

abbrev pub new_level : StockTarget → ℕ → StockLevel
new_level t q = record {
  store_id = t.store_id;
  product_id = row_product t;
  variant_id = t.variant_id;
  quantity = pos q;
  min_alert_stock = none;
}

unfoldable pub increment_stock : StockTarget → ℕ → List StockLevel → List StockLevel
unfolding find_stock_level
increment_stock t q levels = elim (find_stock_level t levels) [
  | some existing ↦ update_found (is_row_of t) (add_quantity q) levels
  | none ↦ levels ++ new_level t q ∷ []
]

-- The rows that the guarded `UPDATE` selects: those of the target that hold enough.
unfoldable pub has_enough : StockTarget → ℕ → StockLevel → Bool
has_enough t q l = is_row_of t l && leb_ℤ (pos q) l.quantity

abbrev pub take_quantity : ℕ → StockLevel → StockLevel
take_quantity q l = record l { quantity = l.quantity -ℤ pos q }

unfoldable pub decrement_stock_guarded :
    StockTarget → ℕ → List StockLevel → Result (List StockLevel)
decrement_stock_guarded t q levels =
    let affected = length (filter (has_enough t q) levels) in
    if affected == 0
    then err (bad_request stock_insufficient)
    else ok (update_where (has_enough t q) (take_quantity q) levels)
