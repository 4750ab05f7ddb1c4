-- ===== src/Orders/Create/Credit.antt =====
-- A sale on credit against the customers' accounts.
use punto_de_venta_local_con.Base.{
  ℕ, ◌≡◌, refl, subst, some, List, ltb, arith, inl, inr, Option-cases, Bool-cases, same_id, ◌++◌,
  if◌then◌else◌,
}
use punto_de_venta_local_con.Base.Int.{ℤ, pos, ◌+ℤ◌, int_laws}
use punto_de_venta_local_con.Base.Lists.{any}
use punto_de_venta_local_con.Base.Outcome.{
  ok, unique_violation, throw_if, >>=-eq-ok, >>-eq-ok, ok-injective,
}
use punto_de_venta_local_con.Schema.{Database, Order, AuthUser}
use punto_de_venta_local_con.Customers.Account.{apply_account_movement}
use punto_de_venta_local_con.Customers.Account.Balance.{balance_of}
use punto_de_venta_local_con.Customers.Account.Ledger.{
  IsReconciled, ledger_sum, apply_account_movement-IsReconciled,
}
use punto_de_venta_local_con.Orders.Lines.{Cart}
use punto_de_venta_local_con.Orders.Create.{
  CreateOrderDto, Created, current_account_total, has_number, new_order, insert_order,
  charge_account, charge_params, audit_discount, write_order, attempt_create,
}
use punto_de_venta_local_con.Orders.Create.Checks.{attempt_create-Passes}

-- The accounts' tables are the same.
record SameAccounts (db db' : Database) : Type 0 where
  pub customers : db'.customers ≡ db.customers
  pub movements : db'.account_movements ≡ db.account_movements

insert_order-SameAccounts :
    (rivals : List Order) (order : Order) (dto : CreateOrderDto) (cart : Cart) (db : Database)
    {db' : Database}
    → insert_order rivals order dto cart db ≡ ok db'
    → SameAccounts db db'
unfolding insert_order
insert_order-SameAccounts rivals order dto cart db {db'} e =
    let clash = any (has_number order.store_id order.order_number) (rivals ++ db.orders) in
    let (_, same) = >>-eq-ok (throw_if clash unique_violation) _ e in
    subst (SameAccounts db) (ok-injective same) (record { customers = refl; movements = refl })

audit_discount-SameAccounts :
    (actor : AuthUser) (discount : ℕ) (order : Order) (db : Database)
    → SameAccounts db (audit_discount actor discount order db)
unfolding audit_discount
audit_discount-SameAccounts actor discount order db = elim (Bool-cases (ltb 0 discount)) [
  | inl discounted ↦ rw discounted (record { customers = refl; movements = refl })
  | inr full_price ↦ rw full_price (record { customers = refl; movements = refl })
]

IsReconciled-SameAccounts :
    (db : Database) {db' : Database} → SameAccounts db db' → IsReconciled db → IsReconciled db'
IsReconciled-SameAccounts db same r = record {
  keyed = λ id. rw same.customers (r.keyed id);
  summed = λ id. rw (same.customers, same.movements) (r.summed id);
}

-- The account of the customer of the sale moves by what is paid on credit.
abbrev IsCharged : CreateOrderDto → Database → Database → Type 0
IsCharged dto db db' =
    IsReconciled db'
    × ((customer : ℕ)
        → balance_of customer db'.customers
          ≡ balance_of customer db.customers
            +ℤ pos (
                if same_id dto.customer_id (some customer)
                then current_account_total dto.payments
                else 0))

IsCharged-none :
    (dto : CreateOrderDto) (db : Database)
    → ((customer : ℕ)
        → (if same_id dto.customer_id (some customer)
            then current_account_total dto.payments
            else 0)
          ≡ 0)
    → IsReconciled db
    → IsCharged dto db db
IsCharged-none dto db z r = (r, λ customer. rw (z customer) (grind int_laws))

IsCharged-movement :
    (actor : AuthUser) (dto : CreateOrderDto) (order : Order) (customer : ℕ) (db : Database)
    {moved : ℤ × Database}
    → dto.customer_id ≡ some customer
    → IsReconciled db
    → apply_account_movement (charge_params actor dto order customer) db ≡ ok moved
    → IsCharged dto db moved.1
unfolding ledger_sum
IsCharged-movement actor dto order customer db {moved} given r e =
    let p = charge_params actor dto order customer in
    let (r', rows, _, _) =
      apply_account_movement-IsReconciled p db {balance = moved.0} {db' = moved.1} r e in
    (
      r',
      λ j.
          let after = r'.summed j in
          let before = r.summed j in rw (given, after, rows, before) (grind int_laws),
    )

charge_account-IsCharged :
    (actor : AuthUser) (dto : CreateOrderDto) (order : Order) (db : Database) {db' : Database}
    → IsReconciled db
    → charge_account actor dto order db ≡ ok db'
    → IsCharged dto db db'
unfolding charge_account
charge_account-IsCharged actor dto order db {db'} r e = elim (Option-cases dto.customer_id) [
  | inl no_customer ↦
      subst (IsCharged dto db) (ok-injective (rw no_customer at e))
        (IsCharged-none dto db (λ c. rw no_customer refl) r)
  | inr (customer, given) ↦ elim (Bool-cases (ltb 0 (current_account_total dto.payments))) [
    | inl credit ↦
        let (moved, applied, same) =
          >>=-eq-ok (apply_account_movement (charge_params actor dto order customer) db) _
            (rw (given, credit) at e) in
        subst (IsCharged dto db) (ok-injective same)
          (IsCharged-movement actor dto order customer db {moved = moved} given r applied)
    | inr none_on_credit ↦
        subst (IsCharged dto db) (ok-injective (rw (given, none_on_credit) at e))
          (IsCharged-none dto db (λ c. ground arith) r)
  ]
]

-- What comes before and after the charge leaves the accounts alone.
IsCharged-around :
    (dto : CreateOrderDto) (db inserted charged : Database) {db' : Database}
    → SameAccounts db inserted
    → IsCharged dto inserted charged
    → SameAccounts charged db'
    → IsCharged dto db db'
IsCharged-around dto db inserted charged before (r, moved) after = (
  IsReconciled-SameAccounts charged after r,
  λ c. rw (after.customers, ← before.customers) (moved c),
)

-- Where every balance is the sum of the customer's movements, it is so after a sale that goes
-- through, which raises the balance of its customer by what is paid on credit and moves no other
-- balance.
pub sale_account :
    (rivals : List Order) (actor : AuthUser) (dto : CreateOrderDto) (db : Database)
    {created : Created}
    → IsReconciled db
    → attempt_create rivals actor dto db ≡ ok created
    → IsReconciled created.database
      × ((customer : ℕ)
          → balance_of customer created.database.customers
            ≡ balance_of customer db.customers
              +ℤ pos (
                  if same_id dto.customer_id (some customer)
                  then current_account_total dto.payments
                  else 0))
unfolding write_order
sale_account rivals actor dto db {created} r e =
    let passes = attempt_create-Passes rivals actor dto db {created = created} e in
    let order = new_order db actor dto passes.cart in
    let (inserted, ins, e₁) =
      >>=-eq-ok (insert_order rivals order dto passes.cart db) _ passes.written in
    let (charged, ch, e₂) = >>=-eq-ok (charge_account actor dto order inserted) _ e₁ in
    let before = insert_order-SameAccounts rivals order dto passes.cart db {db' = inserted} ins in
    let moved =
      charge_account-IsCharged actor dto order inserted {db' = charged}
        (IsReconciled-SameAccounts db before r) ch in
    let after = audit_discount-SameAccounts actor passes.cart.discount_amount order charged in
    subst (λ (c : Created). IsCharged dto db c.database) (ok-injective e₂)
      (IsCharged-around dto db inserted charged before moved after)
