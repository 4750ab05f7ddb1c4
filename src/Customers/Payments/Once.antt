-- ===== src/Customers/Payments/Once.antt =====
-- A payment with an idempotency key is registered once.
use punto_de_venta_local_con.Base.{
  ℕ, ◌≡◌, ◌⊎◌, refl, sym, ap, ◌∙◌, subst, Option, some, List, ◌∷◌, ◌==◌, same_id_refl, inl, inr,
  Option-cases,
}
use punto_de_venta_local_con.Base.Lists.{find}
use punto_de_venta_local_con.Base.Outcome.{
  ok, not_found, customer_missing, or_throw, >>=-eq-ok, or_throw-eq-ok, ok-injective,
}
use punto_de_venta_local_con.Schema.{Database, AccountMovement, Customer, CashShift, AuthUser}
use punto_de_venta_local_con.Customers.Account.{movement_row, apply_account_movement}
use punto_de_venta_local_con.Customers.Account.Ledger.{apply_account_movement-IsApplied}
use punto_de_venta_local_con.Customers.Payments.{
  PaymentDto, Registered, already_registered, find_by_key, drawer_of, payment_params,
  record_payment, pay, register_payment,
}

-- What a payment that went through has done.
pub record IsPaid (actor : AuthUser) (customer : ℕ) (dto : PaymentDto) (db : Database)
    (registered : Registered) (db' : Database) : Type 0 where
  pub shift : Option CashShift
  pub moved : Database
  pub drawer : drawer_of db dto ≡ ok shift
  pub applied :
      apply_account_movement (payment_params actor customer dto shift) db
      ≡ ok (registered.balance, moved)
  pub row :
      registered.movement
      ≡ movement_row (payment_params actor customer dto shift) registered.balance
  pub after : db' ≡ record_payment actor customer dto shift moved

pub pay-IsPaid :
    (actor : AuthUser) (customer : ℕ) (dto : PaymentDto) (db : Database)
    {result : Registered × Database}
    → pay actor customer dto db ≡ ok result
    → IsPaid actor customer dto db result.0 result.1
unfolding pay
pay-IsPaid actor customer dto db {result} e =
    let (shift, drawer, e₁) = >>=-eq-ok (drawer_of db dto) _ e in
    let (moved, applied, e₂) =
      >>=-eq-ok (apply_account_movement (payment_params actor customer dto shift) db) _ e₁ in
    subst (λ (r : Registered × Database). IsPaid actor customer dto db r.0 r.1) (ok-injective e₂)
      (record {
        shift = shift;
        moved = moved.1;
        drawer = drawer;
        applied = applied;
        row = refl;
        after = refl;
      })

-- With the customer and the key's movement in the table, the call returns that movement.
replay :
    (actor : AuthUser) (customer : ℕ) (dto : PaymentDto) (db : Database)
    (existing : AccountMovement) {c : Customer}
    → find (λ c. c.id == customer) db.customers ≡ some c
    → find_by_key dto.idempotency_key db.account_movements ≡ some existing
    → register_payment actor customer dto db ≡ ok (already_registered existing, db)
unfolding register_payment
replay actor customer dto db existing found keyed = rw (found, keyed) refl

register_payment-cases :
    (actor : AuthUser) (customer : ℕ) (dto : PaymentDto) (db : Database)
    {result : Registered × Database}
    → register_payment actor customer dto db ≡ ok result
    → ((existing : AccountMovement) × (c : Customer) × (find (λ c. c.id == customer) db.customers
          ≡ some c)
        × (find_by_key dto.idempotency_key db.account_movements ≡ some existing)
        × ((already_registered existing, db) ≡ result))
      ⊎ IsPaid actor customer dto db result.0 result.1
unfolding register_payment
register_payment-cases actor customer dto db {result} e =
    let (c, found, e₁) =
      >>=-eq-ok (or_throw (find (λ c. c.id == customer) db.customers) (not_found customer_missing))
        _ e in
    elim (Option-cases (find_by_key dto.idempotency_key db.account_movements)) [
      | inl fresh ↦ inr (pay-IsPaid actor customer dto db {result = result} (rw fresh at e₁))
      | inr (existing, keyed) ↦
          inl (existing, c, or_throw-eq-ok _ _ found, keyed, ok-injective (rw keyed at e₁))
    ]

first_by_key :
    (given : Option ℕ) (key : ℕ) (row : AccountMovement) (movements : List AccountMovement)
    → given ≡ some key
    → row.idempotency_key ≡ given
    → find_by_key given (row ∷ movements) ≡ some row
unfolding find_by_key
first_by_key given key row movements e same =
    rw (e, find_by_key, same, e, same_id_refl (some key)) refl

-- After a payment with an idempotency key that went through, the same request again, whoever sends
-- it, returns the same balance and movement and changes nothing.
pub register_payment_once :
    (actor actor' : AuthUser) (customer key : ℕ) (dto : PaymentDto) (db : Database)
    {registered : Registered} {db' : Database}
    → dto.idempotency_key ≡ some key
    → register_payment actor customer dto db ≡ ok (registered, db')
    → register_payment actor' customer dto db' ≡ ok (registered, db')
unfolding find_by_key
register_payment_once actor actor' customer key dto db {registered} {db'} given e =
    elim (register_payment-cases actor customer dto db {result = (registered, db')} e) [
      | inl (existing, c, found, keyed, same) ↦
          subst (λ (r : Registered × Database). register_payment actor' customer dto r.1 ≡ ok r)
            same (replay actor' customer dto db existing found keyed)
      | inr paid ↦
          let p = payment_params actor customer dto paid.shift in
          let a =
            apply_account_movement-IsApplied p db {balance = registered.balance} {db' = paid.moved}
              paid.applied in
          let row = movement_row p registered.balance in
          let found : find (λ c. c.id == customer) db'.customers ≡ some a.customer =
            rw (paid.after, a.after) a.found in
          let keyed : find_by_key dto.idempotency_key db'.account_movements ≡ some row =
            rw (paid.after, a.after)
              (first_by_key dto.idempotency_key key row db.account_movements given refl) in
          replay actor' customer dto db' row found keyed
          ∙ ap
              (λ (m : AccountMovement).
                ok (record { balance = registered.balance; movement = m }, db'))
              (sym paid.row)
    ]
