-- ===== src/CashShifts/Sales.antt =====
-- The sales of a shift against the cash that its drawer should hold.
use punto_de_venta_local_con.Base.{
  ℕ, ◌+◌, ◌≤◌, ◌≡◌, refl, some, List, [], ◌∷◌, ◌==◌, if◌then◌else◌, same_id, arith,
}
use punto_de_venta_local_con.Base.Lists.{find, update_where}
use punto_de_venta_local_con.Base.Outcome.{ok}
use punto_de_venta_local_con.Schema.{Database, Order, AuthUser}
use punto_de_venta_local_con.Orders.Cancel.{finish_cancel, mark_cancelled}
use punto_de_venta_local_con.Orders.Cancel.Return.{finish_cancel_stock}
use punto_de_venta_local_con.CashShifts.{is_sale_of, net_cash, cash_sales_total}

-- How many rows an order id has.
unfoldable pub order_rows : ℕ → List Order → ℕ
order_rows id [] = 0
order_rows id (o ∷ orders) = (if o.id == id then 1 else 0) + order_rows id orders

no_rows_marked :
    (id shift : ℕ) (orders : List Order)
    → order_rows id orders ≡ 0
    → cash_sales_total shift (update_where (λ o. o.id == id) mark_cancelled orders)
      ≡ cash_sales_total shift orders
unfolding order_rows cash_sales_total
no_rows_marked id shift [] h = refl
no_rows_marked id shift (o ∷ orders) h = ground (arith, no_rows_marked id shift orders)

marked_cash :
    (id shift : ℕ) (orders : List Order) {order : Order}
    → order_rows id orders ≤ 1
    → find (λ o. o.id == id) orders ≡ some order
    → cash_sales_total shift (update_where (λ o. o.id == id) mark_cancelled orders)
        + (if is_sale_of shift order then net_cash order else 0)
      ≡ cash_sales_total shift orders
unfolding order_rows cash_sales_total
marked_cash id shift [] h e = cc
marked_cash id shift (o ∷ orders) {order} h e =
    ground (arith, marked_cash id shift orders {order = order}, no_rows_marked id shift orders)

found_order_id :
    (id : ℕ) (orders : List Order) {order : Order}
    → find (λ o. o.id == id) orders ≡ some order
    → order.id ≡ id
found_order_id id [] e = cc
found_order_id id (o ∷ orders) {order} e = ground (arith, found_order_id id orders {order = order})

-- Where the order's id has at most one row, the third phase of a cancellation that goes through
-- takes the order's cash off the cash sales of its shift, and of no other.
pub cancel_cash :
    (actor : AuthUser) (id : ℕ) (db : Database) {db' : Database}
    → order_rows id db.orders ≤ 1
    → finish_cancel actor id db ≡ ok db'
    → (order : Order) × (find (λ o. o.id == id) db.orders ≡ some order)
      × ((shift : ℕ)
          → cash_sales_total shift db'.orders
              + (if same_id order.cash_shift_id (some shift) then net_cash order else 0)
            ≡ cash_sales_total shift db.orders)
cancel_cash actor id db {db'} h e =
    let (order, found, live, _, marked) = finish_cancel_stock actor id db {db' = db'} e in
    let same = found_order_id id db.orders found in
    (
      order,
      found,
      λ shift.
          let m = marked_cash id shift db.orders {order = order} h found in
          rw (marked, same) (ground arith),
    )
