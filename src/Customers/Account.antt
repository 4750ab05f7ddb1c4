-- ===== src/Customers/Account.antt =====
-- apps/api/src/customers/customer-account.ts: the one way to move a customer's balance.
pub mod Balance
pub mod Ledger
mod Tests
use punto_de_venta_local_con.Base.{
  ℕ, ◌≡◌, Bool, true, false, Option, none, some, List, [], ◌∷◌, ◌==◌, ◌&&◌, ◌||◌, if◌then◌else◌,
  same_id, is_some, ⊤,
}
use punto_de_venta_local_con.Base.Int.{ℤ, pos, ◌+ℤ◌, leb_ℤ}
use punto_de_venta_local_con.Base.Lists.{find, filter, length, update_where, any}
use punto_de_venta_local_con.Base.Outcome.{
  Result, ok, err, not_found, bad_request, unique_violation, customer_missing,
  credit_limit_exceeded, ◌>>=◌, ◌>>◌, throw_if, or_throw,
}
use punto_de_venta_local_con.Schema.{
  Customer, AccountMovement, AccountMovementType, PaymentMethod, Database, same_movement_type,
}

-- `ApplyAccountMovementParams`
pub record MovementParams : Type 0 where
  pub customer_id : ℕ
  pub store_id : Option ℕ
  pub movement_type : AccountMovementType
  pub delta : ℤ
  pub order_id : Option ℕ
  pub cash_shift_id : Option ℕ
  pub payment_method : Option PaymentMethod
  pub user_id : ℕ
  pub idempotency_key : Option ℕ

abbrev pub within_credit : Customer → ℤ → Bool
within_credit c delta =
    leb_ℤ delta (pos 0)
    || elim c.credit_limit [ none ↦ true | some limit ↦ leb_ℤ (c.account_balance +ℤ delta) limit ]

-- The `WHERE` of the guarded `UPDATE`.
unfoldable pub may_move : ℕ → ℤ → Customer → Bool
may_move id delta c = c.id == id && within_credit c delta

abbrev pub move_balance : ℤ → Customer → Customer
move_balance delta c = record c { account_balance = c.account_balance +ℤ delta }

-- The `UPDATE`, and the two exceptions that follow it when no row was affected.
unfoldable pub update_balance : ℕ → ℤ → List Customer → Result (List Customer)
unfolding may_move
update_balance id delta customers =
    let affected = length (filter (may_move id delta) customers) in
    if affected == 0
    then elim (find (λ c. c.id == id) customers) [
      | none ↦ err (not_found customer_missing)
      | some exists ↦ err (bad_request credit_limit_exceeded)
    ]
    else ok (update_where (may_move id delta) (move_balance delta) customers)

-- The unique indexes `[tenantId, idempotencyKey]` and `[orderId, type]`, where NULL equals nothing.
unfoldable pub clashes : MovementParams → AccountMovement → Bool
clashes p m =
    (is_some p.idempotency_key && same_id m.idempotency_key p.idempotency_key)
    || (is_some p.order_id
        && same_id m.order_id p.order_id
        && same_movement_type m.movement_type p.movement_type)

abbrev pub movement_row : MovementParams → ℤ → AccountMovement
movement_row p balance = record {
  customer_id = p.customer_id;
  store_id = p.store_id;
  movement_type = p.movement_type;
  amount = p.delta;
  balance_after = balance;
  order_id = p.order_id;
  cash_shift_id = p.cash_shift_id;
  payment_method = p.payment_method;
  user_id = p.user_id;
  idempotency_key = p.idempotency_key;
}

-- `applyAccountMovement`, with the balance that it returns.
unfoldable pub apply_account_movement : MovementParams → Database → Result (ℤ × Database)
unfolding clashes
apply_account_movement p db = do
  customers ← update_balance p.customer_id p.delta db.customers
  customer ← or_throw (find (λ c. c.id == p.customer_id) customers) (not_found customer_missing)
  throw_if (any (clashes p) db.account_movements) unique_violation
  ok (
    customer.account_balance,
    record db {
      customers = customers;
      account_movements = movement_row p customer.account_balance ∷ db.account_movements;
    },
  )
