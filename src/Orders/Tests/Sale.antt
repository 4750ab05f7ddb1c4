-- ===== src/Orders/Tests/Sale.antt =====
-- Examples of sales.
use punto_de_venta_local_con.Base.{
  ℕ, ◌+◌, ◌≤◌, ◌≡◌, ◌*◌, ◌⊎◌, refl, Option, none, some, List, [], ◌∷◌, true, arith, ◌==◌, same_id,
  if◌then◌else◌,
}
use punto_de_venta_local_con.Base.Int.{pos, ◌+ℤ◌, ◌-ℤ◌, ◌≤ℤ◌}
use punto_de_venta_local_con.Base.Lists.{any, length, sum_of, All}
use punto_de_venta_local_con.Base.Outcome.{ok, map_result}
use punto_de_venta_local_con.Schema.{Order, OrderItem, is_cash}
use punto_de_venta_local_con.Discounts.{find_limit_for}
use punto_de_venta_local_con.Customers.Account.{apply_account_movement, update_balance, may_move}
use punto_de_venta_local_con.Customers.Account.Balance.{balance_of, rows_of}
use punto_de_venta_local_con.Customers.Account.Ledger.{IsReconciled, ledger_sum}
use punto_de_venta_local_con.Stock.{StockTarget, is_row_of, has_enough, decrement_stock_guarded}
use punto_de_venta_local_con.Stock.View.{on_hand, IsKeyed, rows_at}
use punto_de_venta_local_con.Stock.Batches.{moved}
use punto_de_venta_local_con.Orders.Pricing.{within_limit, amount_epsilon}
use punto_de_venta_local_con.Orders.Lines.{Cart, start, resolve_items}
use punto_de_venta_local_con.Orders.Lines.Moves.{HasUniqueIds, product_rows, order_moves}
use punto_de_venta_local_con.Orders.Lines.Totals.{IsPriced}
use punto_de_venta_local_con.Orders.Create.{
  check_shift, total_paid, current_account_total, max_order_number, attempt_create, create,
}
use punto_de_venta_local_con.Orders.Create.Stored.{StoresAll, IsNear}
use punto_de_venta_local_con.Orders.Create.Sale.{sale_stock, sale_not_oversold, sale_amounts}
use punto_de_venta_local_con.Orders.Create.Credit.{sale_account}
use punto_de_venta_local_con.Orders.Create.Retry.{IsOutcome, create-IsOutcome}
use punto_de_venta_local_con.Orders.Tests.{shop, seller, basket, sold, rival, value_or}

pub shop-HasUniqueIds : HasUniqueIds shop
unfolding product_rows
shop-HasUniqueIds id = ground arith

pub shop-IsKeyed : IsKeyed shop.stock_levels
unfolding rows_at is_row_of
shop-IsKeyed t = ground arith

pub basket-sold : attempt_create [] seller basket shop ≡ ok sold
unfolding attempt_create sold resolve_items within_limit find_limit_for decrement_stock_guarded
    is_row_of has_enough ◌-ℤ◌ ◌+ℤ◌ apply_account_movement update_balance may_move max_order_number
basket-sold = refl

-- The seller's limit, and the cart of the basket.
abbrev limit : Option ℕ
unfolding find_limit_for
limit = find_limit_for [] seller.role

abbrev unfilled : Cart
unfilled = start []

abbrev cart : Cart
unfolding resolve_items limit
cart = value_or unfilled (resolve_items shop 1 limit basket.items (start shop.stock_levels))

cart-resolved : resolve_items shop 1 limit basket.items (start shop.stock_levels) ≡ ok cart
unfolding cart limit resolve_items within_limit find_limit_for decrement_stock_guarded is_row_of
    has_enough ◌-ℤ◌ ◌+ℤ◌
cart-resolved = refl

abbrev bread_target : StockTarget
bread_target = record { store_id = 1; product_id = some 11; variant_id = none }

sale_stock_example :
    on_hand bread_target sold.database.stock_levels
      +ℤ pos (moved (order_moves shop 1 sold.order.items) bread_target)
    ≡ on_hand bread_target shop.stock_levels
sale_stock_example =
    sale_stock [] seller basket shop {created = sold} shop-HasUniqueIds basket-sold shop-IsKeyed
      bread_target

shop_bread : pos 0 ≤ℤ on_hand bread_target shop.stock_levels
unfolding on_hand is_row_of ◌+ℤ◌
shop_bread = omega arith

sale_not_oversold_example : pos 0 ≤ℤ on_hand bread_target sold.database.stock_levels
sale_not_oversold_example =
    sale_not_oversold [] seller basket shop {created = sold} shop-HasUniqueIds basket-sold
      shop-IsKeyed bread_target shop_bread

sale_amounts_example :
    let o = sold.order in
    let drift = (length o.items + 1) * 500 in
    (rows : List OrderItem) × StoresAll o.items rows
    × All (IsPriced limit) rows
    × IsNear o.subtotal (sum_of (λ i. i.subtotal) rows)
    × IsNear o.discount_amount (sum_of (λ i. i.discount_amount) rows)
    × IsNear o.total (sum_of (λ i. i.total) rows)
    × (sum_of (λ i. i.discount_amount) rows + sum_of (λ i. i.total) rows
        ≡ sum_of (λ i. i.subtotal) rows)
    × (o.total ≤ sum_of (λ i. i.total) o.items + drift)
    × (sum_of (λ i. i.total) o.items ≤ o.total + drift)
    × (o.subtotal ≤ sum_of (λ i. i.subtotal) o.items + drift)
    × (sum_of (λ i. i.subtotal) o.items ≤ o.subtotal + drift)
    × (o.tax_amount ≤ o.total)
    × (o.total ≤ total_paid basket.payments + amount_epsilon + 500)
    × ((total_paid basket.payments ≤ o.total + amount_epsilon + 500)
        ⊎ (any (λ p. is_cash p.method) basket.payments ≡ true))
unfolding limit find_limit_for
sale_amounts_example =
    sale_amounts [] seller basket shop {created = sold} shop-HasUniqueIds basket-sold

basket_shift : check_shift shop seller basket ≡ ok tt
unfolding check_shift
basket_shift = refl

shop-IsReconciled : IsReconciled shop
unfolding balance_of rows_of ledger_sum ◌+ℤ◌
shop-IsReconciled = record { keyed = λ id. ground arith; summed = λ id. ground arith }

sale_account_example :
    IsReconciled sold.database
    × ((customer : ℕ)
        → balance_of customer sold.database.customers
          ≡ balance_of customer shop.customers
            +ℤ pos (
                if same_id (some 7) (some customer)
                then current_account_total basket.payments
                else 0))
sale_account_example =
    sale_account [] seller basket shop {created = sold} shop-IsReconciled basket-sold

-- The first attempt loses its number to another transaction, and the second goes through.
abbrev rivals : ℕ → List Order
rivals left = if left == 2 then rival ∷ [] else []

create-IsOutcome_example : IsOutcome rivals seller basket shop (create rivals seller basket shop)
create-IsOutcome_example = create-IsOutcome rivals seller basket shop

second_attempt_numbers :
    let r = create rivals seller basket shop in map_result (λ c. c.order.order_number) r.0 ≡ ok 2
unfolding create attempt_create resolve_items within_limit find_limit_for decrement_stock_guarded
    is_row_of has_enough ◌-ℤ◌ ◌+ℤ◌ apply_account_movement update_balance may_move max_order_number
second_attempt_numbers = refl
