-- ===== src/Orders/Create.antt =====
-- `OrdersService.create` and `attemptCreate`: a sale at the counter, in one transaction.
pub mod Checks
pub mod Effect
pub mod Stored
pub mod Sale
pub mod Retry
pub mod Credit
use punto_de_venta_local_con.Base.{
  ℕ, zero, suc, ◌+◌, max, Bool, true, false, not, Option, none, some, List, [], ◌∷◌, ◌++◌, map,
  String, ltb, ◌==◌, ◌&&◌, if◌then◌else◌, is_some, ⊤,
}
use punto_de_venta_local_con.Base.Int.{ℤ, pos}
use punto_de_venta_local_con.Base.Lists.{find, filter, any, update_where, sum_of}
use punto_de_venta_local_con.Base.Outcome.{
  Result, ok, err, Error, not_found, bad_request, forbidden, unique_violation, store_missing,
  shift_missing, shift_required, shift_not_open, shift_of_other_user, quote_missing,
  quote_converted, quote_annulled, payment_insufficient, overpaid_without_cash, customer_required,
  ◌>>=◌, ◌>>◌, throw_if, or_throw,
}
use punto_de_venta_local_con.Schema.{
  Database, Order, OrderItem, Payment, Quote, CashShift, AuthUser, QuoteStatus, OrderStatus,
  AccountMovementType, AuditAction, is_cash, is_current_account, is_opened, is_cashier,
  stored_money,
}
use punto_de_venta_local_con.Discounts.{find_limit_for}
use punto_de_venta_local_con.Customers.Account.{MovementParams, apply_account_movement}
use punto_de_venta_local_con.Orders.Pricing.{amount_epsilon, assert_discount_within_limit}
use punto_de_venta_local_con.Orders.Lines.{ItemDto, StockSyncEntry, Cart, start, resolve_items}

-- `CreateOrderDto`
pub record CreateOrderDto : Type 0 where
  pub store_id : ℕ
  pub cash_shift_id : Option ℕ
  pub customer_id : Option ℕ
  pub items : List ItemDto
  pub payments : List Payment
  pub notes : Option String
  pub quote_id : Option ℕ

-- A sale needs an open shift of its store, and a cashier the shift of their own.
unfoldable pub check_shift : Database → AuthUser → CreateOrderDto → Result ⊤
check_shift db actor dto = elim dto.cash_shift_id [
  | none ↦ err (bad_request shift_required)
  | some id ↦ do
    shift ←
        or_throw (find (λ s. s.id == id && s.store_id == dto.store_id) db.cash_shifts)
          (not_found shift_missing)
    throw_if (not (is_opened shift.status)) (bad_request shift_not_open)
    throw_if (is_cashier actor.role && not (shift.user_id == actor.user_id))
        (forbidden shift_of_other_user)
]

abbrev pub check_quote_status : QuoteStatus → Result ⊤
check_quote_status QuoteStatus.opened = ok tt
check_quote_status QuoteStatus.converted = err (bad_request quote_converted)
check_quote_status QuoteStatus.cancelled = err (bad_request quote_annulled)

-- A quote that the sale comes from must be open.
unfoldable pub check_quote : Database → CreateOrderDto → Result ⊤
check_quote db dto = elim dto.quote_id [
  | none ↦ ok tt
  | some id ↦ do
    quote ← or_throw (find (λ q. q.id == id) db.quotes) (not_found quote_missing)
    check_quote_status quote.status
]

abbrev pub total_paid : List Payment → ℕ
total_paid payments = sum_of (λ p. p.amount) payments

abbrev pub current_account_total : List Payment → ℕ
current_account_total payments =
    sum_of (λ p. p.amount) (filter (λ p. is_current_account p.method) payments)

-- The payments against the total: they cover it, only cash gives change, and credit needs a customer.
unfoldable pub check_payments : ℕ → CreateOrderDto → Result ⊤
check_payments total dto = do
  let paid = total_paid dto.payments
  throw_if (ltb (paid + amount_epsilon) total) (bad_request payment_insufficient)
  throw_if (ltb (total + amount_epsilon) paid && not (any (λ p. is_cash p.method) dto.payments))
      (bad_request overpaid_without_cash)
  throw_if (ltb 0 (current_account_total dto.payments) && not (is_some dto.customer_id))
      (bad_request customer_required)

-- `getNextOrderNumber`: one more than the greatest number of the store, or 1.
unfoldable pub max_order_number : ℕ → List Order → ℕ
max_order_number store [] = 0
max_order_number store (o ∷ orders) =
    max (if o.store_id == store then o.order_number else 0) (max_order_number store orders)

abbrev pub has_number : ℕ → ℕ → Order → Bool
has_number store number o = o.store_id == store && o.order_number == number

-- The row as its columns store it.
abbrev pub stored_item : OrderItem → OrderItem
stored_item i = record i {
  discount_amount = stored_money i.discount_amount;
  subtotal = stored_money i.subtotal;
  total = stored_money i.total;
}

abbrev pub new_order : Database → AuthUser → CreateOrderDto → Cart → Order
new_order db actor dto cart = record {
  id = db.next_id;
  store_id = dto.store_id;
  cash_shift_id = dto.cash_shift_id;
  customer_id = dto.customer_id;
  user_id = actor.user_id;
  order_number = suc (max_order_number dto.store_id db.orders);
  status = OrderStatus.completed;
  subtotal = stored_money cart.subtotal;
  discount_amount = stored_money cart.discount_amount;
  tax_amount = stored_money cart.tax_amount;
  total = stored_money cart.total;
  notes = dto.notes;
  items = map stored_item cart.resolved_items;
  payments = dto.payments;
}

-- The quote of the sale becomes converted, and points to the order.
abbrev pub convert_quote : Option ℕ → ℕ → List Quote → List Quote
convert_quote none order quotes = quotes
convert_quote (some id) order quotes =
    update_where (λ q. q.id == id)
      (λ q. record q { status = QuoteStatus.converted; order_id = some order }) quotes

-- The inserts of the order and its rows, with the orders that other transactions have committed since
-- the number was read: the unique index on the number refuses one that is taken.
unfoldable pub insert_order :
    List Order → Order → CreateOrderDto → Cart → Database → Result Database
insert_order rivals order dto cart db = do
  throw_if (any (has_number order.store_id order.order_number) (rivals ++ db.orders))
      unique_violation
  ok (record db {
    orders = order ∷ rivals ++ db.orders;
    stock_levels = cart.stock_levels;
    quotes = convert_quote dto.quote_id order.id db.quotes;
    next_id = suc db.next_id;
  })

abbrev pub charge_params : AuthUser → CreateOrderDto → Order → ℕ → MovementParams
charge_params actor dto order customer = record {
  customer_id = customer;
  store_id = some dto.store_id;
  movement_type = AccountMovementType.charge;
  delta = pos (current_account_total dto.payments);
  order_id = some order.id;
  cash_shift_id = dto.cash_shift_id;
  payment_method = none;
  user_id = actor.user_id;
  idempotency_key = none;
}

-- What was paid on credit is charged to the customer's account.
unfoldable pub charge_account : AuthUser → CreateOrderDto → Order → Database → Result Database
charge_account actor dto order db = elim dto.customer_id [
  | none ↦ ok db
  | some customer ↦
      if ltb 0 (current_account_total dto.payments)
      then (do
        moved ← apply_account_movement (charge_params actor dto order customer) db
        ok moved.1)
      else ok db
]

-- Only a sale with a discount is audited.
unfoldable pub audit_discount : AuthUser → ℕ → Order → Database → Database
audit_discount actor discount order db =
    if ltb 0 discount
    then record db {
      audit_logs =
          record {
            store_id = some order.store_id;
            user_id = actor.user_id;
            action = AuditAction.order_discount;
            entity_id = order.id;
          }
          ∷ db.audit_logs;
    }
    else db

pub record Created : Type 0 where
  pub order : Order
  pub sync : List StockSyncEntry
  pub database : Database

-- The writes that follow the checks.
unfoldable pub write_order :
    List Order → AuthUser → CreateOrderDto → Cart → Database → Result Created
unfolding insert_order charge_account audit_discount
write_order rivals actor dto cart db = do
  let order = new_order db actor dto cart
  inserted ← insert_order rivals order dto cart db
  charged ← charge_account actor dto order inserted
  ok (record {
    order = order;
    sync = cart.woo_sync_entries;
    database = audit_discount actor cart.discount_amount order charged;
  })

-- `attemptCreate`: nothing of the database is left changed by an exception.
unfoldable pub attempt_create : List Order → AuthUser → CreateOrderDto → Database → Result Created
unfolding check_shift check_quote check_payments write_order
attempt_create rivals actor dto db = do
  store ← or_throw (find (λ s. s.id == dto.store_id) db.stores) (not_found store_missing)
  check_shift db actor dto
  check_quote db dto
  let limit = find_limit_for db.discount_policies actor.role
  cart ← resolve_items db dto.store_id limit dto.items (start db.stock_levels)
  assert_discount_within_limit limit cart.discount_amount cart.subtotal
  check_payments cart.total dto
  write_order rivals actor dto cart db

abbrev pub max_order_number_attempts : ℕ
max_order_number_attempts = 3

-- The orders that other transactions commit stay, whether or not this one rolls back.
abbrev pub commit_rivals : List Order → Database → Database
commit_rivals rivals db = record db { orders = rivals ++ db.orders }

-- The attempts of `create`: a clash of numbers starts over, any other exception ends the call.
unfoldable pub create_attempts :
    ℕ → (ℕ → List Order) → AuthUser → CreateOrderDto → Database → Result Created × Database
create_attempts zero rivals actor dto db = (err unique_violation, db)
create_attempts (suc left) rivals actor dto db =
    let again = create_attempts left rivals actor dto (commit_rivals (rivals left) db) in
    elim (attempt_create (rivals left) actor dto db) [
      | ok created ↦ (ok created, created.database)
      | err unique_violation ↦ again
      | err e ↦ (err e, commit_rivals (rivals left) db)
    ]

unfoldable pub create :
    (ℕ → List Order) → AuthUser → CreateOrderDto → Database → Result Created × Database
unfolding create_attempts
create rivals = create_attempts max_order_number_attempts rivals
