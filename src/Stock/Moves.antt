-- ===== src/Stock/Moves.antt =====
-- What `increment_stock` and `decrement_stock_guarded` do to the quantities on hand.
use punto_de_venta_local_con.Base.{
  ℕ, ◌≤◌, ◌<◌, ◌≡◌, refl, List, [], ◌∷◌, ◌==◌, if◌then◌else◌, arith, max,
}
use punto_de_venta_local_con.Base.Int.{pos, ◌+ℤ◌, ◌≤ℤ◌, int_laws}
use punto_de_venta_local_con.Base.Lists.{filter, length, update_where}
use punto_de_venta_local_con.Base.Outcome.{ok, err, bad_request, stock_insufficient}
use punto_de_venta_local_con.Schema.{StockLevel}
use punto_de_venta_local_con.Stock.{
  StockTarget, is_row_of, increment_stock, decrement_stock_guarded, new_level, add_quantity,
  take_quantity, has_enough,
}
use punto_de_venta_local_con.Stock.View.{
  on_hand, rows_at, same_target, is_row_of-eq-same_target, is_row_of-eq-same_target',
  is_row_of-new_level, on_hand_no_rows,
}

-- `increment_stock` as one pass over the rows.
increment_stock-cons :
    (t : StockTarget) (q : ℕ) (l : StockLevel) (levels : List StockLevel)
    → increment_stock t q (l ∷ levels)
      ≡ (if is_row_of t l then add_quantity q l ∷ levels else l ∷ increment_stock t q levels)
unfolding increment_stock
increment_stock-cons t q l levels = ground arith

increment_stock-nil : (t : StockTarget) (q : ℕ) → increment_stock t q [] ≡ new_level t q ∷ []
unfolding increment_stock
increment_stock-nil t q = refl

is_row_of-add_quantity :
    (u : StockTarget) (q : ℕ) (l : StockLevel) → is_row_of u (add_quantity q l) ≡ is_row_of u l
unfolding is_row_of
is_row_of-add_quantity u q l = refl

is_row_of-take_quantity :
    (u : StockTarget) (q : ℕ) (l : StockLevel) → is_row_of u (take_quantity q l) ≡ is_row_of u l
unfolding is_row_of
is_row_of-take_quantity u q l = refl

-- The amount that a movement of `q` at `t` moves at `u`.
abbrev pub share : StockTarget → ℕ → StockTarget → ℕ
share t q u = if same_target t u then q else 0

-- An increment adds its quantity at its target, in whatever row or new row, and nothing elsewhere.
pub on_hand-increment_stock :
    (t u : StockTarget) (q : ℕ) (levels : List StockLevel)
    → on_hand u (increment_stock t q levels) ≡ on_hand u levels +ℤ pos (share t q u)
unfolding on_hand
on_hand-increment_stock t u q [] =
    rw (increment_stock-nil t q) (grind (int_laws, is_row_of-new_level t u q))
on_hand-increment_stock t u q (l ∷ levels) = rw (increment_stock-cons t q l levels) (
    grind (
      int_laws,
      is_row_of-add_quantity u q l,
      is_row_of-eq-same_target t u l,
      on_hand-increment_stock t u q levels,
    ))

-- An increment gives its target a row if it had none, and no other row.
pub rows_at-increment_stock :
    (t u : StockTarget) (q : ℕ) (levels : List StockLevel)
    → rows_at u (increment_stock t q levels)
      ≡ (if same_target t u then max 1 (rows_at u levels) else rows_at u levels)
unfolding rows_at
rows_at-increment_stock t u q [] =
    rw (increment_stock-nil t q) (grind (arith, is_row_of-new_level t u q))
rows_at-increment_stock t u q (l ∷ levels) = rw (increment_stock-cons t q l levels) (
    grind (
      arith,
      is_row_of-add_quantity u q l,
      is_row_of-eq-same_target t u l,
      is_row_of-eq-same_target' t u l,
      rows_at-increment_stock t u q levels,
    ))

-- `decrement_stock_guarded` as one pass over the rows.
unfoldable pub taken : StockTarget → ℕ → List StockLevel → List StockLevel
taken t q levels = update_where (has_enough t q) (take_quantity q) levels

unfoldable pub affected : StockTarget → ℕ → List StockLevel → ℕ
affected t q levels = length (filter (has_enough t q) levels)

pub decrement_stock_guarded_lem :
    (t : StockTarget) (q : ℕ) (levels : List StockLevel)
    → decrement_stock_guarded t q levels ≡ (
        if affected t q levels == 0
        then err (bad_request stock_insufficient)
        else ok (taken t q levels))
unfolding decrement_stock_guarded affected taken
decrement_stock_guarded_lem t q levels = refl

-- No row is added or lost by an update.
pub rows_at-taken :
    (t u : StockTarget) (q : ℕ) (levels : List StockLevel)
    → rows_at u (taken t q levels) ≡ rows_at u levels
unfolding taken rows_at
rows_at-taken t u q [] = refl
rows_at-taken t u q (l ∷ levels) =
    ground (arith, is_row_of-take_quantity u q l, rows_at-taken t u q levels)

-- Without a row the update finds nothing.
affected_no_rows :
    (t : StockTarget) (q : ℕ) (levels : List StockLevel)
    → rows_at t levels ≡ 0
    → affected t q levels ≡ 0
unfolding affected rows_at has_enough
affected_no_rows t q [] h = refl
affected_no_rows t q (l ∷ levels) h = ground (arith, affected_no_rows t q levels)

on_hand-taken_no_rows :
    (t u : StockTarget) (q : ℕ) (levels : List StockLevel)
    → rows_at t levels ≡ 0
    → on_hand u (taken t q levels) ≡ on_hand u levels
unfolding on_hand taken rows_at has_enough
on_hand-taken_no_rows t u q [] h = refl
on_hand-taken_no_rows t u q (l ∷ levels) h = ground (arith, on_hand-taken_no_rows t u q levels)

-- With one row at most, the update finds it exactly if it holds the quantity.
pub affected_short :
    (t : StockTarget) (q : ℕ) (levels : List StockLevel)
    → rows_at t levels ≤ 1
    → affected t q levels ≡ 0
    → 0 < q
    → ¬ (pos q ≤ℤ on_hand t levels)
unfolding affected rows_at has_enough on_hand
affected_short t q [] h e p = omega arith
affected_short t q (l ∷ levels) h e p =
    grind (int_laws, affected_short t q levels, on_hand_no_rows t levels)

pub affected_enough :
    (t : StockTarget) (q : ℕ) (levels : List StockLevel)
    → rows_at t levels ≤ 1
    → 0 < affected t q levels
    → pos q ≤ℤ on_hand t levels
unfolding affected rows_at has_enough on_hand
affected_enough t q [] h p = absurd (omega arith)
affected_enough t q (l ∷ levels) h p =
    grind
      (int_laws, affected_enough t q levels, affected_no_rows t q levels, on_hand_no_rows t levels)

pub on_hand-taken :
    (t u : StockTarget) (q : ℕ) (levels : List StockLevel)
    → rows_at t levels ≤ 1
    → 0 < affected t q levels
    → on_hand u (taken t q levels) +ℤ pos (share t q u) ≡ on_hand u levels
unfolding affected rows_at has_enough on_hand taken
on_hand-taken t u q [] h p = absurd (omega arith)
on_hand-taken t u q (l ∷ levels) h p = grind (
  int_laws,
  is_row_of-take_quantity u q l,
  is_row_of-eq-same_target t u l,
  is_row_of-eq-same_target' t u l,
  on_hand-taken t u q levels,
  on_hand-taken_no_rows t u q levels,
  affected_no_rows t q levels,
)
