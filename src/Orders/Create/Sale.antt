-- ===== src/Orders/Create/Sale.antt =====
-- A sale that goes through: its stock, its amounts and its number.
use punto_de_venta_local_con.Base.{
  ℕ, ◌+◌, ◌*◌, ◌≤◌, ◌≡◌, refl, ap, ◌∙◌, true, Option, none, some, List, [], ◌∷◌, map, arith, ◌⊎◌,
  inl, inr,
}
use punto_de_venta_local_con.Base.Int.{pos, ◌+ℤ◌, ◌≤ℤ◌}
use punto_de_venta_local_con.Base.Lists.{any, length, sum_of, All}
use punto_de_venta_local_con.Base.Outcome.{ok}
use punto_de_venta_local_con.Schema.{
  Database, Order, OrderItem, AuthUser, is_cash, stored_money, stored_money_bounds,
}
use punto_de_venta_local_con.Discounts.{find_limit_for}
use punto_de_venta_local_con.Stock.{StockTarget}
use punto_de_venta_local_con.Stock.View.{on_hand, IsKeyed}
use punto_de_venta_local_con.Stock.Batches.{take_all, moved, on_hand-take_all, take_all_nonneg}
use punto_de_venta_local_con.Orders.Pricing.{amount_epsilon, assert_discount_within_limit}
use punto_de_venta_local_con.Orders.Pricing.Bounds.{
  within_limit-none, within_limit→le, le→within_limit, within_limit-assert,
}
use punto_de_venta_local_con.Orders.Lines.{Cart, ItemDto, start, resolve_items}
use punto_de_venta_local_con.Orders.Lines.Moves.{order_moves, HasUniqueIds}
use punto_de_venta_local_con.Orders.Lines.Totals.{IsPriced, Advances, resolve_items-Advances}
use punto_de_venta_local_con.Orders.Create.{
  CreateOrderDto, Created, stored_item, total_paid, attempt_create,
}
use punto_de_venta_local_con.Orders.Create.Checks.{
  Passes, attempt_create-Passes, check_payments_sound,
}
use punto_de_venta_local_con.Orders.Create.Effect.{Writes, write_order-Writes}
use punto_de_venta_local_con.Orders.Create.Stored.{
  IsNear, StoresAll, StoresAll-stored_item, stored_rows_bounds, order_moves-stored,
}

-- Discounts and totals of priced rows make up the grosses.
priced_balance :
    (limit : Option ℕ) (items : List OrderItem)
    → All (IsPriced limit) items
    → sum_of (λ i. i.discount_amount) items + sum_of (λ i. i.total) items
      ≡ sum_of (λ i. i.subtotal) items
priced_balance limit [] p = refl
priced_balance limit (i ∷ items) (p, ps) = omega (arith, p.balance, priced_balance limit items ps)

priced_within :
    (limit : ℕ) (items : List OrderItem)
    → All (IsPriced (some limit)) items
    → sum_of (λ i. i.discount_amount) items * 10_000 ≤ (limit + 1) * sum_of (λ i. i.subtotal) items
priced_within limit [] p = omega arith
priced_within limit (i ∷ items) (p, ps) =
    let balance = p.balance in
    let one = within_limit→le limit i.discount_amount i.subtotal p.allowed (omega arith) in
    let rest = priced_within limit items ps in omega arith

-- With unique product ids, once every line of a sale has passed the limit of the seller's role, the
-- check of the whole sale's discount against its subtotal passes too.
pub total_check_redundant :
    (db : Database) (store : ℕ) (limit : Option ℕ) (dtos : List ItemDto) {cart : Cart}
    → HasUniqueIds db
    → resolve_items db store limit dtos (start db.stock_levels) ≡ ok cart
    → assert_discount_within_limit limit cart.discount_amount cart.subtotal ≡ ok tt
total_check_redundant db store none dtos u e = within_limit-assert none _ _ (within_limit-none _ _)
total_check_redundant db store (some limit) dtos {cart} u e =
    let a =
      resolve_items-Advances db store (some limit) dtos (start db.stock_levels) {cart' = cart} u
        e in
    let sums = priced_within limit a.items a.priced in
    let discounts : cart.discount_amount ≡ sum_of (λ i. i.discount_amount) a.items =
      omega (arith, a.discounts) in
    let subtotals : cart.subtotal ≡ sum_of (λ i. i.subtotal) a.items = omega (arith, a.subtotals) in
    within_limit-assert (some limit) cart.discount_amount cart.subtotal
      (rw (discounts, subtotals) (le→within_limit limit _ _ sums))

-- From the loop's start the state after it is the sale's rows and their sums.
module _ (rivals : List Order) (actor : AuthUser) (dto : CreateOrderDto) (db : Database)
    {created : Created} (u : HasUniqueIds db)
    (e : attempt_create rivals actor dto db ≡ ok created) where
  pub passes : Passes rivals actor dto db created
  passes = attempt_create-Passes rivals actor dto db e

  writes : Writes rivals actor dto passes.cart db created
  writes = write_order-Writes rivals actor dto passes.cart db passes.written

  advances :
      Advances db dto.store_id
        (find_limit_for db.discount_policies actor.role)
        (start db.stock_levels)
        passes.cart
  advances =
      resolve_items-Advances db dto.store_id _ dto.items (start db.stock_levels) u passes.resolved

  items_eq : created.order.items ≡ map stored_item advances.items
  items_eq = ap (λ (o : Order). o.items) writes.order ∙ ap (map stored_item) advances.appended

  -- The amounts of the order are the loop's, and its payments the request's.
  order_amounts :
      (created.order.subtotal ≡ stored_money passes.cart.subtotal)
      × (created.order.discount_amount ≡ stored_money passes.cart.discount_amount)
      × (created.order.total ≡ stored_money passes.cart.total)
      × (created.order.tax_amount ≡ stored_money passes.cart.tax_amount)
      × (created.order.payments ≡ dto.payments)
  order_amounts = (
    ap (λ (o : Order). o.subtotal) writes.order,
    ap (λ (o : Order). o.discount_amount) writes.order,
    ap (λ (o : Order). o.total) writes.order,
    ap (λ (o : Order). o.tax_amount) writes.order,
    ap (λ (o : Order). o.payments) writes.order,
  )

  cart_amounts :
      let c = passes.cart in
      (c.subtotal ≡ sum_of (λ i. i.subtotal) advances.items)
      × (c.total ≡ sum_of (λ i. i.total) advances.items)
      × (c.discount_amount ≡ sum_of (λ i. i.discount_amount) advances.items)
      × (c.discount_amount + c.total ≡ c.subtotal)
      × (c.tax_amount ≤ c.total)
  cart_amounts =
      let subtotals = advances.subtotals in
      let discounts = advances.discounts in
      let totals = advances.totals in
      let taxes = advances.taxes in
      let balance = priced_balance _ advances.items advances.priced in
      (omega arith, omega arith, omega arith, omega arith, omega arith)

  -- The stock after the sale is what the movements of the order's rows leave, taken in their order.
  pub sale_takes :
      take_all (order_moves db dto.store_id created.order.items) db.stock_levels
      ≡ ok created.database.stock_levels
  sale_takes =
      rw (items_eq, order_moves-stored db dto.store_id advances.items, writes.stock_levels)
        advances.taken

  -- With unique product ids and at most one row of stock for each target, a sale that goes through
  -- lowers the quantity on hand at every target by what the order's rows say was sold there,
  -- bundles by their components.
  pub sale_stock :
      IsKeyed db.stock_levels
      → (t : StockTarget)
      → on_hand t created.database.stock_levels
          +ℤ pos (moved (order_moves db dto.store_id created.order.items) t)
        ≡ on_hand t db.stock_levels
  sale_stock k t = on_hand-take_all _ db.stock_levels k sale_takes t

  -- With unique product ids and at most one row of stock for each target, a sale that goes through
  -- leaves no target below zero that was not below zero before.
  pub sale_not_oversold :
      IsKeyed db.stock_levels
      → (t : StockTarget) → pos 0 ≤ℤ on_hand t db.stock_levels
      → pos 0 ≤ℤ on_hand t created.database.stock_levels
  sale_not_oversold k t h = take_all_nonneg _ db.stock_levels k sale_takes t h

  -- With unique product ids, the rows of the order of a sale that goes through store rows that are priced
  -- within the limit of the seller's role, each amount to half a cent. The order's gross, discount and
  -- total are to half a cent the sums over the rows before they are stored, of which discount and total
  -- make up the gross exactly; so its total and its gross are within half a cent for itself and half a
  -- cent for each row of the sums of the stored rows. Its tax is at most its total. And the payments
  -- cover its total to within a cent and a half and exceed it by more only where one of them is in cash.
  pub sale_amounts :
      let o = created.order in
      let drift = (length o.items + 1) * 500 in
      (rows : List OrderItem) × StoresAll o.items rows
      × All (IsPriced (find_limit_for db.discount_policies actor.role)) rows
      × IsNear o.subtotal (sum_of (λ i. i.subtotal) rows)
      × IsNear o.discount_amount (sum_of (λ i. i.discount_amount) rows)
      × IsNear o.total (sum_of (λ i. i.total) rows)
      × (sum_of (λ i. i.discount_amount) rows + sum_of (λ i. i.total) rows
          ≡ sum_of (λ i. i.subtotal) rows)
      × (o.total ≤ sum_of (λ i. i.total) o.items + drift)
      × (sum_of (λ i. i.total) o.items ≤ o.total + drift)
      × (o.subtotal ≤ sum_of (λ i. i.subtotal) o.items + drift)
      × (sum_of (λ i. i.subtotal) o.items ≤ o.subtotal + drift)
      × (o.tax_amount ≤ o.total)
      × (o.total ≤ total_paid dto.payments + amount_epsilon + 500)
      × ((total_paid dto.payments ≤ o.total + amount_epsilon + 500)
          ⊎ (any (λ p. is_cash p.method) dto.payments ≡ true))
  sale_amounts =
      let (subtotal, discount, total, tax, _) = order_amounts in
      let (subtotals, totals, discounts, balance, taxed) = cart_amounts in
      let paid = check_payments_sound passes.cart.total dto passes.payments in
      let (t₁, t₂, s₁, s₂) = stored_rows_bounds advances.items in
      let (t₃, t₄) = stored_money_bounds passes.cart.total in
      let (s₃, s₄) = stored_money_bounds passes.cart.subtotal in
      let (d₃, d₄) = stored_money_bounds passes.cart.discount_amount in
      rw (subtotal, discount, total, tax, items_eq)
        (
          advances.items,
          StoresAll-stored_item advances.items,
          advances.priced,
          (omega arith, omega arith),
          (omega arith, omega arith),
          (omega arith, omega arith),
          omega arith,
          omega arith,
          omega arith,
          omega arith,
          omega arith,
          omega arith,
          omega arith,
          elim paid.1 [ inl exact ↦ inl (omega arith) | inr cash ↦ inr cash ],
        )

  -- The rows of the sale.
  pub sale_written : Writes rivals actor dto passes.cart db created
  sale_written = writes
