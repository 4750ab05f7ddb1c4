-- ===== src/Customers/Payments.antt =====
-- apps/api/src/customers/customers.service.ts: payments on account and adjustments of it.
pub mod Once
pub mod Effect
mod Tests
use punto_de_venta_local_con.Base.{
  ℕ, ◌≡◌, Bool, true, false, not, Option, none, some, List, [], ◌∷◌, String, ◌==◌, ◌&&◌, same_id,
  map, is_some, ⊤, if◌then◌else◌,
}
use punto_de_venta_local_con.Base.Int.{ℤ, pos, neg}
use punto_de_venta_local_con.Base.Lists.{find}
use punto_de_venta_local_con.Base.Outcome.{
  Result, ok, err, not_found, bad_request, customer_missing, payment_needs_shift, shift_missing,
  shift_not_open, ◌>>=◌, ◌>>◌, throw_if, or_throw,
}
use punto_de_venta_local_con.Schema.{
  Database, AccountMovement, AccountMovementType, PaymentMethod, CashShift, CashMovement,
  CashMovementType, AuthUser, AuditAction, is_cash, is_opened,
}
use punto_de_venta_local_con.Customers.Account.{
  MovementParams, movement_row, apply_account_movement,
}

-- `RegisterAccountPaymentDto`; its amount is positive.
pub record PaymentDto : Type 0 where
  pub amount : ℕ
  pub method : PaymentMethod
  pub cash_shift_id : Option ℕ
  pub idempotency_key : Option ℕ

-- `{ balance, movement }`
pub record Registered : Type 0 where
  pub balance : ℤ
  pub movement : AccountMovement

abbrev pub already_registered : AccountMovement → Registered
already_registered existing = record { balance = existing.balance_after; movement = existing }

-- The movement of an idempotency key that was used before.
unfoldable pub find_by_key : Option ℕ → List AccountMovement → Option AccountMovement
find_by_key none movements = none
find_by_key (some key) movements = find (λ m. same_id m.idempotency_key (some key)) movements

-- A payment in cash enters the drawer of an open shift.
unfoldable pub drawer_of : Database → PaymentDto → Result (Option CashShift)
drawer_of db dto =
    if is_cash dto.method
    then elim dto.cash_shift_id [
      | none ↦ err (bad_request payment_needs_shift)
      | some id ↦ do
        shift ← or_throw (find (λ s. s.id == id) db.cash_shifts) (not_found shift_missing)
        throw_if (not (is_opened shift.status)) (bad_request shift_not_open)
        ok (some shift)
    ]
    else ok none

abbrev pub shift_store : Option CashShift → Option ℕ
shift_store none = none
shift_store (some shift) = some shift.store_id

abbrev pub shift_id : Option CashShift → Option ℕ
shift_id none = none
shift_id (some shift) = some shift.id

abbrev pub payment_params : AuthUser → ℕ → PaymentDto → Option CashShift → MovementParams
payment_params actor customer dto shift = record {
  customer_id = customer;
  store_id = shift_store shift;
  movement_type = AccountMovementType.payment;
  delta = neg (pos dto.amount);
  order_id = none;
  cash_shift_id = shift_id shift;
  payment_method = some dto.method;
  user_id = actor.user_id;
  idempotency_key = dto.idempotency_key;
}

abbrev pub enter_drawer :
    AuthUser → PaymentDto → Option CashShift → List CashMovement → List CashMovement
enter_drawer actor dto none movements = movements
enter_drawer actor dto (some shift) movements =
    record {
      cash_shift_id = shift.id;
      user_id = actor.user_id;
      movement_type = CashMovementType.inflow;
      amount = dto.amount;
    }
    ∷ movements

-- What follows the movement: the cash in the drawer, and the audit.
abbrev pub record_payment : AuthUser → ℕ → PaymentDto → Option CashShift → Database → Database
record_payment actor customer dto shift db = record db {
  cash_movements = enter_drawer actor dto shift db.cash_movements;
  audit_logs =
      record {
        store_id = shift_store shift;
        user_id = actor.user_id;
        action = AuditAction.account_payment;
        entity_id = customer;
      }
      ∷ db.audit_logs;
}

-- The part of `registerPayment` after the check of the key.
unfoldable pub pay : AuthUser → ℕ → PaymentDto → Database → Result (Registered × Database)
unfolding drawer_of
pay actor customer dto db = do
  shift ← drawer_of db dto
  let p = payment_params actor customer dto shift
  moved ← apply_account_movement p db
  let registered : Registered = record { balance = moved.0; movement = movement_row p moved.0 }
  ok (registered, record_payment actor customer dto shift moved.1)

-- `registerPayment`
unfoldable pub register_payment :
    AuthUser → ℕ → PaymentDto → Database → Result (Registered × Database)
unfolding find_by_key pay
register_payment actor customer dto db = do
  exists ← or_throw (find (λ c. c.id == customer) db.customers) (not_found customer_missing)
  elim (find_by_key dto.idempotency_key db.account_movements) [
    | some existing ↦ ok (already_registered existing, db)
    | none ↦ pay actor customer dto db
  ]

abbrev pub adjustment_params : AuthUser → ℕ → ℤ → MovementParams
adjustment_params actor customer delta = record {
  customer_id = customer;
  store_id = none;
  movement_type = AccountMovementType.adjustment;
  delta = delta;
  order_id = none;
  cash_shift_id = none;
  payment_method = none;
  user_id = actor.user_id;
  idempotency_key = none;
}

-- `registerAdjustment`
unfoldable pub register_adjustment : AuthUser → ℕ → ℤ → Database → Result (Registered × Database)
register_adjustment actor customer delta db = do
  exists ← or_throw (find (λ c. c.id == customer) db.customers) (not_found customer_missing)
  let p = adjustment_params actor customer delta
  moved ← apply_account_movement p db
  let registered : Registered = record { balance = moved.0; movement = movement_row p moved.0 }
  ok (
    registered,
    record moved.1 {
      audit_logs =
          record {
            store_id = none;
            user_id = actor.user_id;
            action = AuditAction.account_adjustment;
            entity_id = customer;
          }
          ∷ moved.1.audit_logs;
    },
  )
