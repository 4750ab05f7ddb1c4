-- ===== src/Orders/Tests/Drawer.antt =====
-- The cash of a sale and of its cancellation in the drawer of the shift.
use punto_de_venta_local_con.Base.{ℕ, ◌+◌, ◌≤◌, ◌≡◌, some, ◌==◌, same_id, if◌then◌else◌, arith}
use punto_de_venta_local_con.Base.Lists.{find}
use punto_de_venta_local_con.Schema.{Order}
use punto_de_venta_local_con.CashShifts.{net_cash, cash_sales_total}
use punto_de_venta_local_con.CashShifts.Sales.{order_rows, cancel_cash}
use punto_de_venta_local_con.Stock.{is_row_of, has_enough, decrement_stock_guarded}
use punto_de_venta_local_con.Base.Int.{◌-ℤ◌, ◌+ℤ◌}
use punto_de_venta_local_con.Discounts.{find_limit_for}
use punto_de_venta_local_con.Customers.Account.{apply_account_movement, update_balance, may_move}
use punto_de_venta_local_con.Orders.Pricing.{within_limit}
use punto_de_venta_local_con.Orders.Lines.{resolve_items}
use punto_de_venta_local_con.Orders.Create.{attempt_create, max_order_number}
use punto_de_venta_local_con.Orders.Tests.{seller, sold}
use punto_de_venta_local_con.Orders.Tests.Cancelled.{returned, sold-returned}

sold_rows : order_rows 100 sold.database.orders ≤ 1
unfolding order_rows sold attempt_create resolve_items within_limit find_limit_for
    decrement_stock_guarded is_row_of has_enough ◌-ℤ◌ ◌+ℤ◌ apply_account_movement update_balance
    may_move max_order_number
sold_rows = omega arith

cancel_cash_example :
    (order : Order) × (find (λ o. o.id == 100) sold.database.orders ≡ some order)
    × ((shift : ℕ)
        → cash_sales_total shift returned.orders
            + (if same_id order.cash_shift_id (some shift) then net_cash order else 0)
          ≡ cash_sales_total shift sold.database.orders)
cancel_cash_example = cancel_cash seller 100 sold.database {db' = returned} sold_rows sold-returned
