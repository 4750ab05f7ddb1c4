-- ===== src/Customers/Account/Ledger.antt =====
-- The ledger of account movements against the balances.
use punto_de_venta_local_con.Base.{
  ℕ, ◌≡◌, refl, sym, ◌∙◌, some, List, [], ◌∷◌, ◌==◌, if◌then◌else◌, arith,
}
use punto_de_venta_local_con.Base.Int.{ℤ, pos, ◌+ℤ◌, int_laws}
use punto_de_venta_local_con.Base.Lists.{find, any}
use punto_de_venta_local_con.Base.Outcome.{
  ok, not_found, customer_missing, throw_if, or_throw, unique_violation, >>=-eq-ok, >>-eq-ok,
  or_throw-eq-ok, ok-injective,
}
use punto_de_venta_local_con.Schema.{Customer, AccountMovement, Database}
use punto_de_venta_local_con.Customers.Account.{
  MovementParams, clashes, movement_row, update_balance, apply_account_movement,
}
use punto_de_venta_local_con.Customers.Account.Balance.{
  IsKeyed, balance_of, balance_of_found, update_balance_effect,
}

-- The sum of a customer's movements.
unfoldable pub ledger_sum : ℕ → List AccountMovement → ℤ
ledger_sum id [] = pos 0
ledger_sum id (m ∷ ms) = (if m.customer_id == id then m.amount else pos 0) +ℤ ledger_sum id ms

-- Every balance is the sum of the customer's movements, and ids are unique.
pub record IsReconciled (db : Database) : Type 0 where
  pub keyed : IsKeyed db.customers
  pub summed : (id : ℕ) → balance_of id db.customers ≡ ledger_sum id db.account_movements

-- What a movement that goes through has done to the database.
pub record IsApplied (p : MovementParams) (db : Database) (balance : ℤ) (db' : Database)
    : Type 0 where
  pub customers' : List Customer
  pub customer : Customer
  pub updated : update_balance p.customer_id p.delta db.customers ≡ ok customers'
  pub found : find (λ c. c.id == p.customer_id) customers' ≡ some customer
  pub returned : balance ≡ customer.account_balance
  pub after : db' ≡ record db {
    customers = customers';
    account_movements = movement_row p balance ∷ db.account_movements;
  }

pub apply_account_movement-IsApplied :
    (p : MovementParams) (db : Database) {balance : ℤ} {db' : Database}
    → apply_account_movement p db ≡ ok (balance, db')
    → IsApplied p db balance db'
unfolding apply_account_movement
apply_account_movement-IsApplied p db {balance} {db'} e =
    let (customers', updated, e₁) =
      >>=-eq-ok (update_balance p.customer_id p.delta db.customers) _ e in
    let (customer, found, e₂) =
      >>=-eq-ok
        (or_throw (find (λ c. c.id == p.customer_id) customers') (not_found customer_missing)) _
        e₁ in
    let (_, e₃) =
      >>-eq-ok (throw_if (any (clashes p) db.account_movements) unique_violation) _ e₂ in
    let same = ok-injective e₃ in
    let returned : balance ≡ customer.account_balance = cc in
    record {
      customers' = customers';
      customer = customer;
      updated = updated;
      found = or_throw-eq-ok _ _ found;
      returned = returned;
      after = rw returned cc;
    }

-- Where every balance is the sum of the customer's movements, it is so after a movement that goes
-- through, which is recorded with the balance that it returns, the customer's new one and the old
-- one plus the amount.
pub apply_account_movement-IsReconciled :
    (p : MovementParams) (db : Database) {balance : ℤ} {db' : Database}
    → IsReconciled db
    → apply_account_movement p db ≡ ok (balance, db')
    → IsReconciled db'
      × (db'.account_movements ≡ movement_row p balance ∷ db.account_movements)
      × (balance_of p.customer_id db'.customers ≡ balance)
      × (balance ≡ balance_of p.customer_id db.customers +ℤ p.delta)
unfolding ledger_sum
apply_account_movement-IsReconciled p db {balance} {db'} r e =
    let a = apply_account_movement-IsApplied p db {balance = balance} {db' = db'} e in
    let (moved, rows) =
      update_balance_effect p.customer_id p.delta db.customers (r.keyed p.customer_id) a.updated in
    let keyed : IsKeyed a.customers' = λ id. omega (arith, rows id, r.keyed id) in
    let new = balance_of_found p.customer_id a.customers' (keyed p.customer_id) a.found in
    rw a.after (
      record { keyed = keyed; summed = λ id. grind (int_laws, moved id, r.summed id) },
      refl,
      new ∙ sym a.returned,
      ground (arith, a.returned, new, moved p.customer_id),
    )
