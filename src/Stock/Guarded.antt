-- ===== src/Stock/Guarded.antt =====
-- The guarded decrement against the quantities on hand, alone and in a sequence.
use punto_de_venta_local_con.Base.{ℕ, ◌≤◌, ◌<◌, ◌≡◌, ◌↔◌, refl, true, List, [], ◌∷◌, arith}
use punto_de_venta_local_con.Base.Int.{pos, ◌+ℤ◌, ◌≤ℤ◌}
use punto_de_venta_local_con.Base.Outcome.{ok, err, bad_request, stock_insufficient}
use punto_de_venta_local_con.Schema.{StockLevel}
use punto_de_venta_local_con.Stock.{StockTarget, decrement_stock_guarded}
use punto_de_venta_local_con.Stock.View.{
  on_hand, rows_at, IsKeyed, same_target, is_row_of-eq-same_target, is_row_of-eq-same_target',
}
use punto_de_venta_local_con.Stock.Moves.{
  share, affected, taken, decrement_stock_guarded_lem, affected_short, affected_enough,
  on_hand-taken, rows_at-taken,
}

-- Where the target has at most one row, a positive quantity is refused exactly if less than that is
-- on hand.
pub decrement_refused_iff :
    (t : StockTarget) (q : ℕ) (levels : List StockLevel)
    → rows_at t levels ≤ 1
    → 0 < q
    → (decrement_stock_guarded t q levels ≡ err (bad_request stock_insufficient))
      ↔ (¬ (pos q ≤ℤ on_hand t levels))
decrement_refused_iff t q levels h p = rw (decrement_stock_guarded_lem t q levels) (
  λ e. affected_short t q levels h (ground arith) p,
  λ short. ground (arith, affected_enough t q levels h),
)

-- Where the target has at most one row, a decrement that goes through had the quantity on hand,
-- takes it away at its target, leaves every other target alone, and adds or drops no row.
pub decrement_effect :
    (t : StockTarget) (q : ℕ) (levels : List StockLevel) {levels' : List StockLevel}
    → rows_at t levels ≤ 1
    → decrement_stock_guarded t q levels ≡ ok levels'
    → (pos q ≤ℤ on_hand t levels)
      × ((u : StockTarget) → on_hand u levels' +ℤ pos (share t q u) ≡ on_hand u levels)
      × ((u : StockTarget) → rows_at u levels' ≡ rows_at u levels)
decrement_effect t q levels {levels'} h e =
    let through = rw (decrement_stock_guarded_lem t q levels) at e in
    let found : 0 < affected t q levels = ground arith in
    let same : taken t q levels ≡ levels' = ground arith in
    (
      affected_enough t q levels h found,
      λ u. rw (← same) (on_hand-taken t u q levels h found),
      λ u. rw (← same) (rows_at-taken t u q levels),
    )

-- Two targets of one row have the same quantity on hand.
pub on_hand_same :
    (t u : StockTarget) (levels : List StockLevel)
    → same_target t u ≡ true
    → on_hand u levels ≡ on_hand t levels
unfolding on_hand
on_hand_same t u [] h = refl
on_hand_same t u (l ∷ levels) h = ground (
  arith,
  on_hand_same t u levels h,
  is_row_of-eq-same_target t u l,
  is_row_of-eq-same_target' t u l,
)

-- A decrement keeps one row for each target at most.
pub decrement-IsKeyed :
    (t : StockTarget) (q : ℕ) (levels : List StockLevel) {levels' : List StockLevel}
    → IsKeyed levels
    → decrement_stock_guarded t q levels ≡ ok levels'
    → IsKeyed levels'
decrement-IsKeyed t q levels k e u = omega (arith, (decrement_effect t q levels (k t) e).2 u, k u)
