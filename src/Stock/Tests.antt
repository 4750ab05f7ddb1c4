-- ===== src/Stock/Tests.antt =====
-- Examples of the movements of stock.
use punto_de_venta_local_con.Base.{ℕ, ◌≤◌, ◌≡◌, refl, none, some, [], ◌∷◌, arith}
use punto_de_venta_local_con.Base.Int.{pos, ◌-ℤ◌}
use punto_de_venta_local_con.Base.Outcome.{ok}
use punto_de_venta_local_con.Schema.{StockLevel}
use punto_de_venta_local_con.Stock.{StockTarget, is_row_of, has_enough, decrement_stock_guarded}
use punto_de_venta_local_con.Stock.View.{rows_at}

abbrev shirt : StockTarget
shirt = record { store_id = 1; product_id = some 10; variant_id = some 4 }

abbrev level : ℕ → StockLevel
level n = record {
  store_id = 1;
  product_id = none;
  variant_id = some 4;
  quantity = pos n;
  min_alert_stock = none;
}

shirt_rows : rows_at shirt (level 5 ∷ []) ≤ 1
unfolding rows_at is_row_of
shirt_rows = omega arith

shirt_taken : decrement_stock_guarded shirt 3 (level 5 ∷ []) ≡ ok (level 2 ∷ [])
unfolding decrement_stock_guarded has_enough is_row_of ◌-ℤ◌
shirt_taken = refl
