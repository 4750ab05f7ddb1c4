-- ===== src/Stock/Adjust.antt =====
-- apps/api/src/stock/stock.service.ts: `adjust`, a change of a stock level by hand.
pub mod Effect
mod Tests
use punto_de_venta_local_con.Base.{
  ℕ, Bool, true, false, not, Option, none, some, List, [], ◌∷◌, ◌++◌, ◌==◌, ◌&&◌, ◌||◌,
  if◌then◌else◌, is_some, or_else, ⊤,
}
use punto_de_venta_local_con.Base.Int.{ℤ, pos, ◌+ℤ◌}
use punto_de_venta_local_con.Base.Lists.{find, update_found}
use punto_de_venta_local_con.Base.Outcome.{
  Result, ok, err, not_found, bad_request, target_shape, quantity_shape, store_missing,
  variant_missing, product_missing, bundle_has_no_stock, ◌>>=◌, ◌>>◌, throw_if, or_throw,
}
use punto_de_venta_local_con.Schema.{Database, StockLevel, AuthUser, AuditAction, is_bundle}
use punto_de_venta_local_con.Stock.{StockTarget, row_product, is_row_of, find_stock_level}

-- `AdjustStockDto`; quantities are in millionths.
pub record AdjustStockDto : Type 0 where
  pub store_id : ℕ
  pub product_id : Option ℕ
  pub variant_id : Option ℕ
  pub delta : Option ℤ
  pub absolute_quantity : Option ℤ
  pub min_alert_stock : Option ℕ

abbrev pub same_bool : Bool → Bool → Bool
same_bool true b = b
same_bool false b = not b

abbrev pub has_quantity_change : AdjustStockDto → Bool
has_quantity_change dto = is_some dto.delta || is_some dto.absolute_quantity

abbrev pub only_setting_alert : AdjustStockDto → Bool
only_setting_alert dto = not (has_quantity_change dto) && is_some dto.min_alert_stock

-- `assertShape`: one of product and variant, and one of difference and quantity unless only the alert
-- is set.
unfoldable pub assert_shape : AdjustStockDto → Result ⊤
assert_shape dto = do
  throw_if (same_bool (is_some dto.product_id) (is_some dto.variant_id)) (bad_request target_shape)
  throw_if
      (same_bool (is_some dto.delta) (is_some dto.absolute_quantity)
        && not (only_setting_alert dto))
      (bad_request quantity_shape)

-- `resolveTarget`, without its label.
unfoldable pub resolve_target : Database → AdjustStockDto → Result ⊤
resolve_target db dto = elim dto.variant_id [
  | some id ↦ do
    variant ← or_throw (find (λ v. v.id == id) db.variants) (not_found variant_missing)
    ok tt
  | none ↦ do
    product ←
        or_throw (find (λ p. p.id == or_else dto.product_id 0) db.products)
          (not_found product_missing)
    throw_if (is_bundle product.product_type) (bad_request bundle_has_no_stock)
]

abbrev pub adjust_target : AdjustStockDto → StockTarget
adjust_target dto = record {
  store_id = dto.store_id;
  product_id = dto.product_id;
  variant_id = dto.variant_id;
}

-- `Number(existing?.quantity ?? 0)`
abbrev pub quantity_of : Option StockLevel → ℤ
quantity_of none = pos 0
quantity_of (some existing) = existing.quantity

unfoldable pub next_quantity : Option StockLevel → AdjustStockDto → ℤ
next_quantity existing dto =
    if has_quantity_change dto
    then or_else dto.absolute_quantity (quantity_of existing +ℤ or_else dto.delta (pos 0))
    else quantity_of existing

abbrev pub set_level : AdjustStockDto → ℤ → StockLevel → StockLevel
set_level dto quantity l = record l {
  quantity = quantity;
  min_alert_stock = if is_some dto.min_alert_stock then dto.min_alert_stock else l.min_alert_stock;
}

abbrev pub created_level : AdjustStockDto → ℤ → StockLevel
created_level dto quantity = record {
  store_id = dto.store_id;
  product_id = row_product (adjust_target dto);
  variant_id = dto.variant_id;
  quantity = quantity;
  min_alert_stock = dto.min_alert_stock;
}

-- The update of the row that was found, or the insert of a new one.
unfoldable pub write_level : Option StockLevel → AdjustStockDto → List StockLevel → List StockLevel
unfolding next_quantity
write_level (some existing) dto levels =
    update_found (is_row_of (adjust_target dto)) (set_level dto (next_quantity (some existing) dto))
      levels
write_level none dto levels = levels ++ created_level dto (next_quantity none dto) ∷ []

-- `adjust`; `others` is what other transactions commit to the levels between the read of the row and
-- the write. The audited row is named by its variant or product.
unfoldable pub adjust :
    (List StockLevel → List StockLevel) → AuthUser → AdjustStockDto → Database → Result Database
unfolding assert_shape resolve_target write_level
adjust others actor dto db = do
  assert_shape dto
  store ← or_throw (find (λ s. s.id == dto.store_id) db.stores) (not_found store_missing)
  resolve_target db dto
  let existing = find_stock_level (adjust_target dto) db.stock_levels
  ok (record db {
    stock_levels = write_level existing dto (others db.stock_levels);
    audit_logs =
        record {
          store_id = some dto.store_id;
          user_id = actor.user_id;
          action = AuditAction.stock_adjust;
          entity_id = or_else dto.variant_id (or_else dto.product_id 0);
        }
        ∷ db.audit_logs;
  })
