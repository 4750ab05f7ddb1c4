-- ===== src/Orders/Create/Effect.antt =====
-- What a sale that goes through has done to the database.
use punto_de_venta_local_con.Base.{
  ◌⊎◌, ℕ, ◌≡◌, refl, sym, ◌∙◌, subst, false, some, List, ◌∷◌, ◌++◌, ltb, arith, Option-cases,
  Bool-cases, inl, inr,
}
use punto_de_venta_local_con.Base.Int.{ℤ}
use punto_de_venta_local_con.Base.Lists.{any}
use punto_de_venta_local_con.Base.Outcome.{
  ok, throw_if, >>=-eq-ok, >>-eq-ok, throw_if-eq-ok, ok-injective, unique_violation,
}
use punto_de_venta_local_con.Schema.{Database, Order, AuthUser}
use punto_de_venta_local_con.Customers.Account.{MovementParams, apply_account_movement}
use punto_de_venta_local_con.Customers.Account.Ledger.{apply_account_movement-IsApplied}
use punto_de_venta_local_con.Orders.Lines.{Cart}
use punto_de_venta_local_con.Orders.Create.{
  CreateOrderDto, Created, current_account_total, has_number, new_order, insert_order,
  convert_quote, charge_account, charge_params, audit_discount, write_order,
}

-- The tables that a charge and an audit leave alone.
pub record Keeps (db db' : Database) : Type 0 where
  pub orders : db'.orders ≡ db.orders
  pub stock_levels : db'.stock_levels ≡ db.stock_levels
  pub products : db'.products ≡ db.products
  pub quotes : db'.quotes ≡ db.quotes
  pub next_id : db'.next_id ≡ db.next_id

Keeps-refl : (db : Database) → Keeps db db
Keeps-refl db = record {
  orders = refl;
  stock_levels = refl;
  products = refl;
  quotes = refl;
  next_id = refl;
}

pub apply_account_movement-Keeps :
    (p : MovementParams) (db : Database) {balance : ℤ} {db' : Database}
    → apply_account_movement p db ≡ ok (balance, db')
    → Keeps db db'
apply_account_movement-Keeps p db {balance} {db'} e =
    let a = apply_account_movement-IsApplied p db {balance = balance} {db' = db'} e in
    subst (Keeps db) (sym a.after) (record {
      orders = refl;
      stock_levels = refl;
      products = refl;
      quotes = refl;
      next_id = refl;
    })

-- A charge is a movement of the customer's account, or nothing.
charge_account-cases :
    (actor : AuthUser) (dto : CreateOrderDto) (order : Order) (db : Database) {db' : Database}
    → charge_account actor dto order db ≡ ok db'
    → (db ≡ db')
      ⊎ ((customer : ℕ) × (balance : ℤ) × (dto.customer_id ≡ some customer)
          × (apply_account_movement (charge_params actor dto order customer) db
              ≡ ok (balance, db')))
unfolding charge_account
charge_account-cases actor dto order db {db'} e = elim (Option-cases dto.customer_id) [
  | inl no_customer ↦ inl (ok-injective (rw no_customer at e))
  | inr (customer, given) ↦ elim (Bool-cases (ltb 0 (current_account_total dto.payments))) [
    | inl credit ↦
        let (moved, applied, same) =
          >>=-eq-ok (apply_account_movement (charge_params actor dto order customer) db) _
            (rw (given, credit) at e) in
        inr (customer, moved.0, given, ground arith)
    | inr none_on_credit ↦ inl (ok-injective (rw (given, none_on_credit) at e))
  ]
]

charge_account-Keeps :
    (actor : AuthUser) (dto : CreateOrderDto) (order : Order) (db : Database) {db' : Database}
    → charge_account actor dto order db ≡ ok db'
    → Keeps db db'
charge_account-Keeps actor dto order db {db'} e =
    elim (charge_account-cases actor dto order db {db' = db'} e) [
      | inl same ↦ subst (Keeps db) same (Keeps-refl db)
      | inr (customer, balance, given, applied) ↦
          apply_account_movement-Keeps (charge_params actor dto order customer) db
            {balance = balance} applied
    ]

audit_discount-Keeps :
    (actor : AuthUser) (discount : ℕ) (order : Order) (db : Database)
    → Keeps db (audit_discount actor discount order db)
unfolding audit_discount
audit_discount-Keeps actor discount order db = elim (Bool-cases (ltb 0 discount)) [
  | inl discounted ↦ rw discounted (record {
    orders = refl;
    stock_levels = refl;
    products = refl;
    quotes = refl;
    next_id = refl;
  })
  | inr full_price ↦ rw full_price (Keeps-refl db)
]

insert_order-eq :
    (rivals : List Order) (order : Order) (dto : CreateOrderDto) (cart : Cart) (db : Database)
    {db' : Database}
    → insert_order rivals order dto cart db ≡ ok db'
    → (any (has_number order.store_id order.order_number) (rivals ++ db.orders) ≡ false)
      × (db'.orders ≡ order ∷ rivals ++ db.orders)
      × (db'.stock_levels ≡ cart.stock_levels)
      × (db'.products ≡ db.products)
      × (db'.quotes ≡ convert_quote dto.quote_id order.id db.quotes)
unfolding insert_order
insert_order-eq rivals order dto cart db {db'} e =
    let clash = any (has_number order.store_id order.order_number) (rivals ++ db.orders) in
    let (free, same) = >>-eq-ok (throw_if clash unique_violation) _ e in
    subst
      (λ (d : Database).
        (clash ≡ false)
        × (d.orders ≡ order ∷ rivals ++ db.orders)
        × (d.stock_levels ≡ cart.stock_levels)
        × (d.products ≡ db.products)
        × (d.quotes ≡ convert_quote dto.quote_id order.id db.quotes))
      (ok-injective same) (throw_if-eq-ok clash unique_violation free, refl, refl, refl, refl)

-- The rows of the sale, after its writes.
pub record Writes (rivals : List Order) (actor : AuthUser) (dto : CreateOrderDto) (cart : Cart)
    (db : Database) (created : Created) : Type 0 where
  pub order : created.order ≡ new_order db actor dto cart
  pub fresh :
      any (has_number created.order.store_id created.order.order_number) (rivals ++ db.orders)
      ≡ false
  pub orders : created.database.orders ≡ created.order ∷ rivals ++ db.orders
  pub stock_levels : created.database.stock_levels ≡ cart.stock_levels
  pub products : created.database.products ≡ db.products
  pub quotes : created.database.quotes ≡ convert_quote dto.quote_id created.order.id db.quotes

pub write_order-Writes :
    (rivals : List Order) (actor : AuthUser) (dto : CreateOrderDto) (cart : Cart) (db : Database)
    {created : Created}
    → write_order rivals actor dto cart db ≡ ok created
    → Writes rivals actor dto cart db created
unfolding write_order
write_order-Writes rivals actor dto cart db {created} e =
    let order = new_order db actor dto cart in
    let (inserted, ins, e₁) = >>=-eq-ok (insert_order rivals order dto cart db) _ e in
    let (charged, ch, e₂) = >>=-eq-ok (charge_account actor dto order inserted) _ e₁ in
    let order_kept = insert_order-eq rivals order dto cart db {db' = inserted} ins in
    let charge_kept = charge_account-Keeps actor dto order inserted {db' = charged} ch in
    let audit_kept = audit_discount-Keeps actor cart.discount_amount order charged in
    subst (Writes rivals actor dto cart db) (ok-injective e₂) (record {
      order = refl;
      fresh = order_kept.0;
      orders = audit_kept.orders ∙ charge_kept.orders ∙ order_kept.1;
      stock_levels = audit_kept.stock_levels ∙ charge_kept.stock_levels ∙ order_kept.2;
      products = audit_kept.products ∙ charge_kept.products ∙ order_kept.3;
      quotes = audit_kept.quotes ∙ charge_kept.quotes ∙ order_kept.4;
    })
