-- ===== src/Stock/View.antt =====
-- The abstract view of the stock table: how much is on hand at each target, and in how many rows.
use punto_de_venta_local_con.Base.{
  ℕ, ◌+◌, ◌≤◌, ◌≡◌, refl, Bool, true, List, [], ◌∷◌, ◌++◌, ◌&&◌, ◌==◌, if◌then◌else◌, same_id,
  same_id→eq, same_id_symm, arith,
}
use punto_de_venta_local_con.Base.Int.{ℤ, pos, ◌+ℤ◌, int_laws}
use punto_de_venta_local_con.Schema.{StockLevel}
use punto_de_venta_local_con.Stock.{StockTarget, row_product, is_row_of, new_level}

-- The sum over the target's rows: with one row, its quantity; with none, zero.
unfoldable pub on_hand : StockTarget → List StockLevel → ℤ
on_hand t [] = pos 0
on_hand t (l ∷ levels) = (if is_row_of t l then l.quantity else pos 0) +ℤ on_hand t levels

unfoldable pub rows_at : StockTarget → List StockLevel → ℕ
rows_at t [] = 0
rows_at t (l ∷ levels) = (if is_row_of t l then 1 else 0) + rows_at t levels

-- Every target has at most one row.
abbrev pub IsKeyed : List StockLevel → Type 0
IsKeyed levels = (t : StockTarget) → rows_at t levels ≤ 1

-- Two targets address the same row.
unfoldable pub same_target : StockTarget → StockTarget → Bool
same_target t u =
    t.store_id == u.store_id
    && same_id (row_product t) (row_product u)
    && same_id t.variant_id u.variant_id

-- A row of one target is a row of another exactly if the two are the same.
pub is_row_of-eq-same_target :
    (t u : StockTarget) (l : StockLevel) → is_row_of t l ≡ true → is_row_of u l ≡ same_target t u
unfolding is_row_of same_target
is_row_of-eq-same_target t u l h =
    ground (arith, same_id→eq l.product_id (row_product t), same_id→eq l.variant_id t.variant_id)

pub is_row_of-eq-same_target' :
    (t u : StockTarget) (l : StockLevel) → is_row_of u l ≡ true → is_row_of t l ≡ same_target t u
unfolding is_row_of same_target
is_row_of-eq-same_target' t u l h = ground (
  arith,
  same_id→eq l.product_id (row_product u),
  same_id→eq l.variant_id u.variant_id,
  same_id_symm (row_product u) (row_product t),
  same_id_symm u.variant_id t.variant_id,
)

pub is_row_of-new_level :
    (t u : StockTarget) (q : ℕ) → is_row_of u (new_level t q) ≡ same_target t u
unfolding is_row_of same_target
is_row_of-new_level t u q = ground arith

module _ (u : StockTarget) where
  pub on_hand-append :
      (xs ys : List StockLevel) → on_hand u (xs ++ ys) ≡ on_hand u xs +ℤ on_hand u ys
  unfolding on_hand
  on_hand-append [] ys = omega int_laws
  on_hand-append (x ∷ xs) ys = rw (on_hand-append xs ys) (omega int_laws)

  -- A target with no row has nothing on hand.
  pub on_hand_no_rows : (levels : List StockLevel) → rows_at u levels ≡ 0 → on_hand u levels ≡ pos 0
  unfolding on_hand rows_at
  on_hand_no_rows [] h = refl
  on_hand_no_rows (l ∷ levels) h = grind (int_laws, on_hand_no_rows levels)
