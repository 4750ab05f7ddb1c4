-- ===== src/Orders/Roundtrip.antt =====
-- A sale and its cancellation.
use punto_de_venta_local_con.Base.{ℕ, ◌≡◌, ap, some, List, ◌∷◌, ◌++◌, ◌==◌, arith}
use punto_de_venta_local_con.Base.Lists.{find}
use punto_de_venta_local_con.Base.Outcome.{ok}
use punto_de_venta_local_con.Schema.{Database, Order, AuthUser}
use punto_de_venta_local_con.Stock.{StockTarget}
use punto_de_venta_local_con.Stock.View.{on_hand, IsKeyed}
use punto_de_venta_local_con.Orders.Lines.Moves.{order_moves, order_moves-products, HasUniqueIds}
use punto_de_venta_local_con.Orders.Create.{CreateOrderDto, Created, attempt_create}
use punto_de_venta_local_con.Orders.Create.Sale.{sale_stock, sale_written, sale_takes}
use punto_de_venta_local_con.Orders.Cancel.{finish_cancel}
use punto_de_venta_local_con.Orders.Cancel.Return.{
  finish_cancel_stock, finish_cancel-Finishes, return_items-moves,
}
use punto_de_venta_local_con.Stock.Batches.{take_all-IsKeyed, return_all-IsKeyed}

found_first : (o : Order) (orders : List Order) → find (λ q. q.id == o.id) (o ∷ orders) ≡ some o
found_first o orders = ground arith

-- With unique product ids and at most one row of stock for each target, the third phase of
-- cancelling a sale right after it was made restores the quantity on hand at every target.
pub cancel-create_stock :
    (rivals : List Order) (seller canceller : AuthUser) (dto : CreateOrderDto) (db : Database)
    {created : Created} {db' : Database}
    → HasUniqueIds db
    → IsKeyed db.stock_levels
    → attempt_create rivals seller dto db ≡ ok created
    → finish_cancel canceller created.order.id created.database ≡ ok db'
    → (t : StockTarget) → on_hand t db'.stock_levels ≡ on_hand t db.stock_levels
cancel-create_stock rivals seller canceller dto db {created} {db'} u k e f t =
    let w = sale_written rivals seller dto db {created = created} u e in
    let sold = sale_stock rivals seller dto db {created = created} u e k t in
    let (order, found, _, back, _) =
      finish_cancel_stock canceller created.order.id created.database {db' = db'} f in
    let again : find (λ q. q.id == created.order.id) created.database.orders ≡ some created.order =
      rw w.orders (found_first created.order (rivals ++ db.orders)) in
    let same : order ≡ created.order = cc in
    let store : created.order.store_id ≡ dto.store_id = ap (λ (o : Order). o.store_id) w.order in
    let moves : order_moves created.database order.store_id order.items
        ≡ order_moves db dto.store_id created.order.items =
      rw (same, store)
        (order_moves-products created.database db dto.store_id created.order.items w.products) in
    rw (← sold, ← moves) (back t)

-- With unique product ids and at most one row of stock for each target, a sale that goes through,
-- and the third phase of cancelling it or any other order after it, leave at most one row for each
-- target.
pub cancel-create-IsKeyed :
    (rivals : List Order) (seller canceller : AuthUser) (dto : CreateOrderDto) (id : ℕ)
    (db : Database) {created : Created} {db' : Database}
    → HasUniqueIds db
    → IsKeyed db.stock_levels
    → attempt_create rivals seller dto db ≡ ok created
    → finish_cancel canceller id created.database ≡ ok db'
    → IsKeyed created.database.stock_levels × IsKeyed db'.stock_levels
cancel-create-IsKeyed rivals seller canceller dto id db {created} {db'} u k e f =
    let taken = sale_takes rivals seller dto db {created = created} u e in
    let sold = take_all-IsKeyed _ db.stock_levels k taken in
    let levels = created.database.stock_levels in
    let finished = finish_cancel-Finishes canceller id created.database {db' = db'} f in
    let o = finished.order in
    let moves = return_items-moves created.database o.store_id o.items levels in
    (
      sold,
      rw (finished.stock_levels, moves)
          (return_all-IsKeyed (order_moves created.database o.store_id o.items) levels sold),
    )
