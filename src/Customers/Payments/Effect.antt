-- ===== src/Customers/Payments/Effect.antt =====
-- What a payment and an adjustment do to the account and to the drawer.
use punto_de_venta_local_con.Base.{
  ℕ, ◌+◌, ◌≡◌, ◌⊎◌, sym, ap, subst, true, false, not, Option, none, some, List, [], ◌∷◌, ◌==◌, ◌&&◌,
  same_id, if◌then◌else◌, arith, inl, inr, Option-cases, Bool-cases,
}
use punto_de_venta_local_con.Base.Int.{ℤ, pos, neg, ◌+ℤ◌}
use punto_de_venta_local_con.Base.Lists.{find}
use punto_de_venta_local_con.Base.Outcome.{
  ok, not_found, bad_request, customer_missing, shift_missing, shift_not_open, throw_if, or_throw,
  >>=-eq-ok, >>-eq-ok, or_throw-eq-ok, ok-injective,
}
use punto_de_venta_local_con.Schema.{
  Database, CashShift, CashMovement, AuthUser, is_cash, is_opened,
}
use punto_de_venta_local_con.Customers.Account.{apply_account_movement}
use punto_de_venta_local_con.Customers.Account.Balance.{balance_of}
use punto_de_venta_local_con.Customers.Account.Ledger.{
  IsReconciled, apply_account_movement-IsApplied, apply_account_movement-IsReconciled,
}
use punto_de_venta_local_con.Customers.Payments.{
  PaymentDto, Registered, drawer_of, payment_params, enter_drawer, pay, adjustment_params,
  register_adjustment,
}
use punto_de_venta_local_con.Customers.Payments.Once.{pay-IsPaid}
use punto_de_venta_local_con.CashShifts.{total_inflows}

-- The drawer of a payment: the open shift of a payment in cash, and none of any other.
drawer_of-cases :
    (db : Database) (dto : PaymentDto) {drawer : Option CashShift}
    → drawer_of db dto ≡ ok drawer
    → ((is_cash dto.method ≡ false) × (drawer ≡ none))
      ⊎ ((id : ℕ) × (shift : CashShift) × (is_cash dto.method ≡ true)
          × (dto.cash_shift_id ≡ some id)
          × (find (λ s. s.id == id) db.cash_shifts ≡ some shift)
          × (is_opened shift.status ≡ true)
          × (drawer ≡ some shift))
unfolding drawer_of
drawer_of-cases db dto {drawer} e = elim (Bool-cases (is_cash dto.method)) [
  | inr other ↦ inl (other, sym (ok-injective (rw other at e)))
  | inl cash ↦ elim (Option-cases dto.cash_shift_id) [
    | inl missing ↦ absurd (cc (rw (cash, missing) at e))
    | inr (id, given) ↦
        let (shift, found, e₁) =
          >>=-eq-ok (or_throw (find (λ s. s.id == id) db.cash_shifts) (not_found shift_missing)) _
            (rw (cash, given) at e) in
        let (opened, same) =
          >>-eq-ok (throw_if (not (is_opened shift.status)) (bad_request shift_not_open)) _ e₁ in
        inr
          (id, shift, cash, given, or_throw-eq-ok _ _ found, ground arith, sym (ok-injective same))
  ]
]

found_shift_id :
    (id : ℕ) (shifts : List CashShift) {shift : CashShift}
    → find (λ s. s.id == id) shifts ≡ some shift
    → shift.id ≡ id
found_shift_id id [] e = cc
found_shift_id id (s ∷ shifts) {shift} e = ground (arith, found_shift_id id shifts {shift = shift})

inflows_entered :
    (actor : AuthUser) (dto : PaymentDto) (db : Database) (drawer : Option CashShift)
    (movements : List CashMovement) (s : ℕ)
    → drawer_of db dto ≡ ok drawer
    → total_inflows s (enter_drawer actor dto drawer movements)
      ≡ (if is_cash dto.method && same_id dto.cash_shift_id (some s) then dto.amount else 0)
        + total_inflows s movements
inflows_entered actor dto db drawer movements s e =
    elim (drawer_of-cases db dto {drawer = drawer} e) [
      | inl (other, nowhere) ↦ rw (nowhere, other) (omega arith)
      | inr (id, shift, cash, given, found, opened, entered) ↦
          let same = found_shift_id id db.cash_shifts found in
          rw (entered, cash, given) (ground (arith, same))
    ]

-- Where every balance is the sum of the customer's movements, it is so after a payment that goes
-- through, which returns the customer's new balance, lower by the amount, and puts the amount of a
-- payment in cash, and of no other, among the inflows of the shift that the request names.
pub pay_effect :
    (actor : AuthUser) (customer : ℕ) (dto : PaymentDto) (db : Database) {registered : Registered}
    {db' : Database}
    → IsReconciled db
    → pay actor customer dto db ≡ ok (registered, db')
    → IsReconciled db'
      × (balance_of customer db'.customers ≡ registered.balance)
      × (registered.balance ≡ balance_of customer db.customers +ℤ neg (pos dto.amount))
      × ((s : ℕ)
          → total_inflows s db'.cash_movements
            ≡ (if is_cash dto.method && same_id dto.cash_shift_id (some s) then dto.amount else 0)
              + total_inflows s db.cash_movements)
pay_effect actor customer dto db {registered} {db'} r e =
    let paid = pay-IsPaid actor customer dto db {result = (registered, db')} e in
    let p = payment_params actor customer dto paid.shift in
    let a =
      apply_account_movement-IsApplied p db {balance = registered.balance} {db' = paid.moved}
        paid.applied in
    let (r', _, new, moved) =
      apply_account_movement-IsReconciled p db {balance = registered.balance} {db' = paid.moved} r
        paid.applied in
    let drawer : paid.moved.cash_movements ≡ db.cash_movements =
      ap (λ (d : Database). d.cash_movements) a.after in
    rw paid.after (
      record { keyed = r'.keyed; summed = r'.summed },
      new,
      moved,
      λ s. rw drawer (inflows_entered actor dto db paid.shift db.cash_movements s paid.drawer),
    )

-- Where every balance is the sum of the customer's movements, it is so after an adjustment that
-- goes through, which moves the customer's balance by the signed amount of the request and returns
-- it.
pub register_adjustment_effect :
    (actor : AuthUser) (customer : ℕ) (delta : ℤ) (db : Database) {registered : Registered}
    {db' : Database}
    → IsReconciled db
    → register_adjustment actor customer delta db ≡ ok (registered, db')
    → IsReconciled db'
      × (balance_of customer db'.customers ≡ registered.balance)
      × (registered.balance ≡ balance_of customer db.customers +ℤ delta)
unfolding register_adjustment
register_adjustment_effect actor customer delta db {registered} {db'} r e =
    let p = adjustment_params actor customer delta in
    let (_, _, e₁) =
      >>=-eq-ok (or_throw (find (λ c. c.id == customer) db.customers) (not_found customer_missing))
        _ e in
    let (moved, applied, e₂) = >>=-eq-ok (apply_account_movement p db) _ e₁ in
    let (r', _, new, by) =
      apply_account_movement-IsReconciled p db {balance = moved.0} {db' = moved.1} r applied in
    subst
      (λ (d : Registered × Database).
        IsReconciled d.1
        × (balance_of customer d.1.customers ≡ d.0.balance)
        × (d.0.balance ≡ balance_of customer db.customers +ℤ delta))
      (ok-injective e₂) (record { keyed = r'.keyed; summed = r'.summed }, new, by)
