-- ===== src/CashShifts/Closed.antt =====
-- A closed shift takes no more cash.
use punto_de_venta_local_con.Base.{
  ℕ, ◌≡◌, ◌⊎◌, refl, subst, false, not, some, List, [], ◌∷◌, ◌==◌, ◌&&◌, arith, Option-cases, inl,
  inr,
}
use punto_de_venta_local_con.Base.Int.{ℤ}
use punto_de_venta_local_con.Base.Lists.{find, update_where}
use punto_de_venta_local_con.Base.Outcome.{
  Result, ok, err, Error, not_found, bad_request, shift_already_closed, shift_missing,
  shift_not_open, store_missing, customer_missing, ◌>>◌, throw_if, >>=-eq-ok, >>-eq-ok,
  ok-injective, Result-cases,
}
use punto_de_venta_local_con.Schema.{
  Database, CashShift, CashMovementType, AuthUser, Order, PaymentMethod, is_opened,
}
use punto_de_venta_local_con.Orders.Create.{CreateOrderDto, check_shift, attempt_create}
use punto_de_venta_local_con.Customers.Payments.{
  PaymentDto, Registered, already_registered, find_by_key, drawer_of, pay, register_payment,
}
use punto_de_venta_local_con.CashShifts.{
  require_shift, assert_can_operate, add_movement, compute_summary, close_shift, close,
}
use punto_de_venta_local_con.CashShifts.Lifecycle.{close_effect}

-- Every row of the id is closed.
closed_rows :
    (id store actual_cash now : ℕ) (expected : ℤ) (shifts : List CashShift) {shift : CashShift}
    → find
        (λ s. s.id == id && s.store_id == store)
        (update_where (λ s. s.id == id) (close_shift actual_cash now expected) shifts)
      ≡ some shift
    → is_opened shift.status ≡ false
closed_rows id store actual_cash now expected [] e = cc
closed_rows id store actual_cash now expected (s ∷ shifts) {shift} e =
    ground (arith, closed_rows id store actual_cash now expected shifts {shift = shift})

closed_shifts :
    (actor : AuthUser) (id actual_cash now : ℕ) (db : Database) {closed : CashShift}
    {db' : Database}
    → close actor id actual_cash now db ≡ ok (closed, db')
    → (expected : ℤ) × (db'.cash_shifts
        ≡ update_where (λ s. s.id == id) (close_shift actual_cash now expected) db.cash_shifts)
      × (is_opened closed.status ≡ false)
unfolding close
closed_shifts actor id actual_cash now db {closed} {db'} e =
    let (shift, found, e₁) = >>=-eq-ok (require_shift db id) _ e in
    let (_, e₂) = >>-eq-ok (assert_can_operate actor shift) _ e₁ in
    let (_, e₃) =
      >>-eq-ok (throw_if (not (is_opened shift.status)) (bad_request shift_already_closed)) _ e₂ in
    subst
      (λ (d : CashShift × Database).
        (expected : ℤ) × (d.1.cash_shifts
          ≡ update_where (λ s. s.id == id) (close_shift actual_cash now expected) db.cash_shifts)
        × (is_opened d.0.status ≡ false))
      (ok-injective e₃) ((compute_summary db shift).expected_cash, refl, refl)

-- The guards of the operations on a shift, on one that is closed.
closed_guard {ℓ} :
    {B : Type ℓ} (actor : AuthUser) (shift : CashShift) (rest : Result B)
    → is_opened shift.status ≡ false
    → (e : Error) × ((assert_can_operate actor shift
          >> (throw_if (not (is_opened shift.status)) (bad_request shift_already_closed) >> rest))
        ≡ err e)
closed_guard actor shift rest shut = elim (Result-cases (assert_can_operate actor shift)) [
  | inl (_, passed) ↦ (bad_request shift_already_closed, rw (passed, shut) refl)
  | inr (e, refused) ↦ (e, rw refused refl)
]

closed_to_sales :
    (actor : AuthUser) (id actual_cash now : ℕ) (expected : ℤ) (db db' : Database)
    (dto : CreateOrderDto)
    → db'.cash_shifts
      ≡ update_where (λ s. s.id == id) (close_shift actual_cash now expected) db.cash_shifts
    → (e : Error) × (check_shift db' actor (record dto { cash_shift_id = some id }) ≡ err e)
unfolding check_shift
closed_to_sales actor id actual_cash now expected db db' dto rows =
    elim (Option-cases (find (λ s. s.id == id && s.store_id == dto.store_id) db'.cash_shifts)) [
      | inl missing ↦ (not_found shift_missing, rw missing refl)
      | inr (shift, found) ↦
          let shut =
            closed_rows id dto.store_id actual_cash now expected db.cash_shifts {shift = shift}
              (rw (← rows) found) in
          (bad_request shift_not_open, rw (found, shut) refl)
    ]

sale_refused :
    (actor : AuthUser) (rivals : List Order) (dto : CreateOrderDto) (db : Database)
    → ((e : Error) × (check_shift db actor dto ≡ err e))
    → (e : Error) × (attempt_create rivals actor dto db ≡ err e)
unfolding attempt_create
sale_refused actor rivals dto db (e, refused) =
    elim (Option-cases (find (λ s. s.id == dto.store_id) db.stores)) [
      | inl missing ↦ (not_found store_missing, rw missing refl)
      | inr (store, found) ↦ (e, rw (found, refused) refl)
    ]

-- The request of a payment in cash into a shift.
abbrev pub cash_in : ℕ → PaymentDto → PaymentDto
cash_in id dto = record dto { method = PaymentMethod.cash; cash_shift_id = some id }

-- A payment in cash that names a closed shift, unless its key was used before.
payment_refused :
    (actor : AuthUser) (customer id : ℕ) (dto : PaymentDto) (db : Database) {shift : CashShift}
    → find (λ s. s.id == id) db.cash_shifts ≡ some shift
    → is_opened shift.status ≡ false
    → ((e : Error) × (register_payment actor customer (cash_in id dto) db ≡ err e))
      ⊎ ((registered : Registered) × (register_payment actor customer (cash_in id dto) db
            ≡ ok (registered, db)))
unfolding register_payment pay drawer_of
payment_refused actor customer id dto db {shift} found shut =
    elim (Option-cases (find (λ c. c.id == customer) db.customers)) [
      | inl missing ↦ inl (not_found customer_missing, rw missing refl)
      | inr (c, there) ↦
          elim (Option-cases (find_by_key dto.idempotency_key db.account_movements)) [
            | inl fresh ↦ inl (bad_request shift_not_open, rw (there, fresh, found, shut) refl)
            | inr (existing, used) ↦ inr (already_registered existing, rw (there, used) refl)
          ]
    ]

-- After a shift is closed, every movement of cash in it, every second close of it and every sale in it
-- ends in an exception, whoever asks, and every payment of a customer in cash that names it ends in an
-- exception or, where its key was used before, leaves the database as it is.
pub closed_is_final :
    (actor : AuthUser) (id actual_cash now : ℕ) (db : Database) {closed : CashShift}
    {db' : Database}
    → close actor id actual_cash now db ≡ ok (closed, db')
    → (actor' : AuthUser)
    → ((movement_type : CashMovementType) (amount : ℕ)
        → (e : Error) × (add_movement actor' id movement_type amount db' ≡ err e))
      × ((actual' now' : ℕ) → (e : Error) × (close actor' id actual' now' db' ≡ err e))
      × ((rivals : List Order) (dto : CreateOrderDto)
          → (e : Error) × (attempt_create rivals actor' (record dto { cash_shift_id = some id }) db'
              ≡ err e))
      × ((customer : ℕ) (dto : PaymentDto)
          → ((e : Error) × (register_payment actor' customer (cash_in id dto) db' ≡ err e))
            ⊎ ((registered : Registered) × (register_payment actor' customer (cash_in id dto) db'
                  ≡ ok (registered, db'))))
unfolding add_movement close
closed_is_final actor id actual_cash now db {closed} {db'} h actor' =
    let (_, _, _, _, shut, _, _, _, _, found, _) =
      close_effect actor id actual_cash now db {closed = closed} {db' = db'} h in
    let (expected, rows, _) =
      closed_shifts actor id actual_cash now db {closed = closed} {db' = db'} h in
    (
      λ movement_type amount. rw found (closed_guard actor' closed _ shut),
      λ actual' now'. rw found (closed_guard actor' closed _ shut),
      λ rivals dto.
          sale_refused actor' rivals (record dto { cash_shift_id = some id }) db'
            (closed_to_sales actor' id actual_cash now expected db db' dto rows),
      λ customer dto. payment_refused actor' customer id dto db' {shift = closed} found shut,
    )
