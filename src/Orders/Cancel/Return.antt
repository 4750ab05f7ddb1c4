-- ===== src/Orders/Cancel/Return.antt =====
-- What a cancellation gives back.
use punto_de_venta_local_con.Base.{
  ℕ, ◌*◌, ◌≡◌, inl, inr, refl, subst, false, Option, some, List, [], ◌∷◌, ◌==◌, arith, Option-cases,
  Bool-cases,
}
use punto_de_venta_local_con.Base.Int.{pos, ◌+ℤ◌}
use punto_de_venta_local_con.Base.Lists.{find, update_where}
use punto_de_venta_local_con.Base.Outcome.{
  ok, not_found, bad_request, order_missing, order_already_cancelled, throw_if, or_throw, >>=-eq-ok,
  >>-eq-ok, or_throw-eq-ok, throw_if-eq-ok, ok-injective,
}
use punto_de_venta_local_con.Schema.{
  Database, Order, OrderItem, OrderItemBundleComponent, StockLevel, AuthUser, is_cancelled,
  is_bundle,
}
use punto_de_venta_local_con.Stock.{StockTarget}
use punto_de_venta_local_con.Stock.View.{on_hand}
use punto_de_venta_local_con.Stock.Batches.{
  moved, return_all, return_all-append, on_hand-return_all,
}
use punto_de_venta_local_con.Customers.Account.{apply_account_movement}
use punto_de_venta_local_con.Orders.Lines.Moves.{
  tracks, component_moves, item_moves, order_moves, tracked_move,
}
use punto_de_venta_local_con.Orders.Create.Effect.{Keeps, apply_account_movement-Keeps}
use punto_de_venta_local_con.Orders.Cancel.{
  return_one, return_components, return_item, return_items, is_charge_of, reversal_params,
  reverse_charge, mark_cancelled, return_order, finish_cancel,
}

return_one-moves :
    (db : Database) (store product : ℕ) (variant : Option ℕ) (quantity : ℕ)
    (levels : List StockLevel)
    → return_one db store product variant quantity levels
      ≡ return_all (tracked_move db store product variant quantity) levels
unfolding return_one tracks return_all
return_one-moves db store product variant quantity levels = ground arith

return_components-moves :
    (db : Database) (store : ℕ) (bcs : List OrderItemBundleComponent) (levels : List StockLevel)
    → return_components db store bcs levels ≡ return_all (component_moves db store bcs) levels
unfolding return_components component_moves
return_components-moves db store [] levels = unfold return_all in refl
return_components-moves db store (bc ∷ bcs) levels =
    let product = bc.component_product_id in
    let variant = bc.component_variant_id in
    rw
      (
        return_all-append (tracked_move db store product variant bc.quantity),
        ← return_one-moves db store product variant bc.quantity levels,
      )
      (return_components-moves db store bcs
        (return_one db store product variant bc.quantity levels))

return_item-moves :
    (db : Database) (store : ℕ) (item : OrderItem) (levels : List StockLevel)
    → return_item db store item levels ≡ return_all (item_moves db store item) levels
unfolding return_item item_moves
return_item-moves db store item levels = elim (Bool-cases (is_bundle item.product_type)) [
  | inl bundle ↦ rw bundle (return_components-moves db store item.bundle_components levels)
  | inr plain ↦
      rw plain
        (return_one-moves db store item.product_id item.variant_id (item.quantity * 1000) levels)
]

-- The loop of the cancellation returns the movements that the order's rows record.
pub return_items-moves :
    (db : Database) (store : ℕ) (items : List OrderItem) (levels : List StockLevel)
    → return_items db store items levels ≡ return_all (order_moves db store items) levels
unfolding return_items order_moves
return_items-moves db store [] levels = unfold return_all in refl
return_items-moves db store (item ∷ items) levels =
    rw (return_all-append (item_moves db store item), ← return_item-moves db store item levels)
      (return_items-moves db store items (return_item db store item levels))

reverse_charge-Keeps :
    (actor : AuthUser) (order : Order) (db : Database) {db' : Database}
    → reverse_charge actor order db ≡ ok db'
    → Keeps db db'
unfolding reverse_charge
reverse_charge-Keeps actor order db {db'} e =
    elim (Option-cases (find (is_charge_of order.id) db.account_movements)) [
      | inl cash_sale ↦
          subst (Keeps db) (ok-injective (rw (cash_sale, reverse_charge) at e)) (record {
            orders = refl;
            stock_levels = refl;
            products = refl;
            quotes = refl;
            next_id = refl;
          })
      | inr (charge, found) ↦
          let p = reversal_params actor order charge in
          let (moved, applied, same) =
            >>=-eq-ok (apply_account_movement p db) _ (rw (found, reverse_charge) at e) in
          subst (Keeps db) (ok-injective same)
            (apply_account_movement-Keeps p db {balance = moved.0} {db' = moved.1} applied)
    ]

-- What the third phase has done when it goes through.
pub record Finishes (id : ℕ) (db db' : Database) : Type 0 where
  pub order : Order
  pub found : find (λ o. o.id == id) db.orders ≡ some order
  pub live : is_cancelled order.status ≡ false
  pub stock_levels : db'.stock_levels ≡ return_items db order.store_id order.items db.stock_levels
  pub orders : db'.orders ≡ update_where (λ o. o.id == order.id) mark_cancelled db.orders

pub finish_cancel-Finishes :
    (actor : AuthUser) (id : ℕ) (db : Database) {db' : Database}
    → finish_cancel actor id db ≡ ok db'
    → Finishes id db db'
unfolding finish_cancel return_order
finish_cancel-Finishes actor id db {db'} e =
    let (order, found, e₁) =
      >>=-eq-ok (or_throw (find (λ o. o.id == id) db.orders) (not_found order_missing)) _ e in
    let (live, e₂) =
      >>-eq-ok (throw_if (is_cancelled order.status) (bad_request order_already_cancelled)) _ e₁ in
    let (reversed, through, same) =
      >>=-eq-ok (reverse_charge actor order (return_order order db)) _ e₂ in
    let kept = reverse_charge-Keeps actor order (return_order order db) {db' = reversed} through in
    subst (Finishes id db) (ok-injective same) (record {
      order = order;
      found = or_throw-eq-ok _ _ found;
      live = throw_if-eq-ok _ _ live;
      stock_levels = kept.stock_levels;
      orders = kept.orders;
    })

-- The third phase of a cancellation that goes through finds the order not yet cancelled, raises the
-- quantity on hand at every target by what the order's rows say was sold there, and marks the rows
-- of the order's id as cancelled.
pub finish_cancel_stock :
    (actor : AuthUser) (id : ℕ) (db : Database) {db' : Database}
    → finish_cancel actor id db ≡ ok db'
    → (order : Order) × (find (λ o. o.id == id) db.orders ≡ some order)
      × (is_cancelled order.status ≡ false)
      × ((t : StockTarget)
          → on_hand t db'.stock_levels
            ≡ on_hand t db.stock_levels
              +ℤ pos (moved (order_moves db order.store_id order.items) t))
      × (db'.orders ≡ update_where (λ o. o.id == order.id) mark_cancelled db.orders)
finish_cancel_stock actor id db {db'} e =
    let f = finish_cancel-Finishes actor id db {db' = db'} e in
    (
      f.order,
      f.found,
      f.live,
      λ t.
          rw (f.stock_levels, return_items-moves db f.order.store_id f.order.items db.stock_levels)
            (on_hand-return_all (order_moves db f.order.store_id f.order.items) db.stock_levels t),
      f.orders,
    )
