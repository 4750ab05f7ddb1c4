-- ===== src/Stock/Adjust/Effect.antt =====
-- What an adjustment does to the quantities on hand, also to those that change while it runs.
use punto_de_venta_local_con.Base.{
  ◌≤◌, ◌≡◌, refl, ap, ◌∙◌, Option, none, some, List, [], ◌∷◌, ◌==◌, if◌then◌else◌, is_some, or_else,
  arith,
}
use punto_de_venta_local_con.Base.Int.{ℤ, pos, ◌+ℤ◌, int_laws}
use punto_de_venta_local_con.Base.Lists.{find, update_found}
use punto_de_venta_local_con.Base.Outcome.{
  ok, not_found, store_missing, or_throw, >>=-eq-ok, >>-eq-ok, ok-injective,
}
use punto_de_venta_local_con.Schema.{Database, StockLevel, AuthUser}
use punto_de_venta_local_con.Stock.{StockTarget, is_row_of, find_stock_level}
use punto_de_venta_local_con.Stock.View.{
  on_hand, rows_at, same_target, is_row_of-eq-same_target, is_row_of-eq-same_target',
  on_hand_no_rows, on_hand-append,
}
use punto_de_venta_local_con.Stock.Guarded.{on_hand_same}
use punto_de_venta_local_con.Stock.Adjust.{
  AdjustStockDto, adjust_target, quantity_of, next_quantity, set_level, created_level, write_level,
  assert_shape, resolve_target, adjust,
}

is_row_of-set_level :
    (u : StockTarget) (dto : AdjustStockDto) (q : ℤ) (l : StockLevel)
    → is_row_of u (set_level dto q l) ≡ is_row_of u l
unfolding is_row_of
is_row_of-set_level u dto q l = refl

is_row_of-created_level :
    (u : StockTarget) (dto : AdjustStockDto) (q : ℤ)
    → is_row_of u (created_level dto q) ≡ same_target (adjust_target dto) u
unfolding is_row_of same_target
is_row_of-created_level u dto q = ground arith

found-quantity :
    (t : StockTarget) (levels : List StockLevel)
    → rows_at t levels ≤ 1
    → quantity_of (find_stock_level t levels) ≡ on_hand t levels
unfolding find_stock_level on_hand rows_at
found-quantity t [] h = refl
found-quantity t (l ∷ levels) h =
    grind (int_laws, found-quantity t levels, on_hand_no_rows t levels)

found_rows :
    (t : StockTarget) (levels : List StockLevel)
    → rows_at t levels ≤ 1
    → rows_at t levels ≡ (if is_some (find_stock_level t levels) then 1 else 0)
unfolding find_stock_level rows_at
found_rows t [] h = refl
found_rows t (l ∷ levels) h = ground (arith, found_rows t levels)

on_hand-set :
    (t u : StockTarget) (dto : AdjustStockDto) (q : ℤ) (levels : List StockLevel)
    → rows_at t levels ≡ 1
    → on_hand u (update_found (is_row_of t) (set_level dto q) levels)
      ≡ (if same_target t u then q else on_hand u levels)
unfolding on_hand rows_at
on_hand-set t u dto q [] h = absurd (omega arith)
on_hand-set t u dto q (l ∷ levels) h = grind (
  int_laws,
  is_row_of-set_level u dto q l,
  is_row_of-eq-same_target t u l,
  is_row_of-eq-same_target' t u l,
  on_hand_no_rows t levels,
  on_hand_same t u levels,
  on_hand-set t u dto q levels,
)

next_quantity-on_hand :
    (existing : Option StockLevel) (dto : AdjustStockDto) (q : ℤ)
    → quantity_of existing ≡ q
    → next_quantity existing dto
      ≡ elim dto.absolute_quantity [ some a ↦ a | none ↦ q +ℤ or_else dto.delta (pos 0) ]
unfolding next_quantity
next_quantity-on_hand existing dto q h = grind int_laws

-- The row that is written holds the new quantity, whether it is found or created.
on_hand-write_level :
    (u : StockTarget) (existing : Option StockLevel) (dto : AdjustStockDto)
    (levels : List StockLevel)
    → rows_at (adjust_target dto) levels ≡ (if is_some existing then 1 else 0)
    → on_hand u (write_level existing dto levels)
      ≡ (if same_target (adjust_target dto) u then next_quantity existing dto else on_hand u levels)
unfolding write_level on_hand
on_hand-write_level u (some existing) dto levels h =
    on_hand-set (adjust_target dto) u dto (next_quantity (some existing) dto) levels h
on_hand-write_level u none dto levels h =
    rw (on_hand-append u levels (created_level dto (next_quantity none dto) ∷ [])) (
      grind (
        int_laws,
        is_row_of-created_level u dto (next_quantity none dto),
        on_hand_no_rows (adjust_target dto) levels h,
        on_hand_same (adjust_target dto) u levels,
      ))

-- Where the target has at most one row, and as many rows when it is written as when it was read, an
-- adjustment that goes through puts the quantity asked for, or what was read plus the difference,
-- on hand at its target, whatever other transactions have made of the level between the read and
-- the write; every other target has what they have left there.
pub adjust_effect :
    (others : List StockLevel → List StockLevel) (actor : AuthUser) (dto : AdjustStockDto)
    (db : Database) {db' : Database}
    → rows_at (adjust_target dto) db.stock_levels ≤ 1
    → rows_at (adjust_target dto) (others db.stock_levels)
      ≡ rows_at (adjust_target dto) db.stock_levels
    → adjust others actor dto db ≡ ok db'
    → (u : StockTarget)
    → on_hand u db'.stock_levels ≡ (
        if same_target (adjust_target dto) u
        then elim dto.absolute_quantity [
          | some quantity ↦ quantity
          | none ↦ on_hand (adjust_target dto) db.stock_levels +ℤ or_else dto.delta (pos 0)
        ]
        else on_hand u (others db.stock_levels))
unfolding adjust
adjust_effect others actor dto db {db'} h kept e u =
    let t = adjust_target dto in
    let existing = find_stock_level t db.stock_levels in
    let (_, e₁) = >>-eq-ok (assert_shape dto) _ e in
    let (_, _, e₂) =
      >>=-eq-ok (or_throw (find (λ s. s.id == dto.store_id) db.stores) (not_found store_missing)) _
        e₁ in
    let (_, e₃) = >>-eq-ok (resolve_target db dto) _ e₂ in
    let written : write_level existing dto (others db.stock_levels) ≡ db'.stock_levels =
      ap (λ (d : Database). d.stock_levels) (ok-injective e₃) in
    let rows = kept ∙ found_rows t db.stock_levels h in
    let next =
      next_quantity-on_hand existing dto (on_hand t db.stock_levels)
        (found-quantity t db.stock_levels h) in
    rw (← written, on_hand-write_level u existing dto (others db.stock_levels) rows, next) refl
