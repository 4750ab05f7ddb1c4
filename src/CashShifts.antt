-- ===== src/CashShifts.antt =====
-- apps/api/src/cash-shifts/cash-shifts.service.ts: the shifts of a cash register, and the cash that its
-- drawer should hold.
pub mod Drawer
pub mod Lifecycle
pub mod Closed
pub mod Sales
mod Tests
use punto_de_venta_local_con.Base.{
  ℕ, suc, ◌+◌, ◌-◌, min, Bool, true, false, not, Option, none, some, List, [], ◌∷◌, ◌++◌, ◌==◌,
  ◌&&◌, if◌then◌else◌, same_id, ⊤,
}
use punto_de_venta_local_con.Base.Int.{ℤ, pos, ◌-ℤ◌}
use punto_de_venta_local_con.Base.Lists.{find, filter, any, update_where, sum_of}
use punto_de_venta_local_con.Base.Outcome.{
  Result, ok, err, not_found, bad_request, forbidden, conflict, register_missing, register_inactive,
  register_in_use, shift_missing, shift_of_other_user, shift_already_closed, ◌>>=◌, ◌>>◌, throw_if,
  or_throw,
}
use punto_de_venta_local_con.Schema.{
  Database, CashRegister, CashRegisterStatus, CashShift, CashShiftStatus, CashMovement,
  CashMovementType, Order, Payment, AuthUser, is_cash, is_opened, is_cancelled, is_cashier,
  is_inflow,
}

abbrev pub is_active : CashRegisterStatus → Bool
is_active CashRegisterStatus.active = true
is_active CashRegisterStatus.inactive = false

-- The `where` of the open shift of a register, and of the partial unique index.
abbrev pub is_open_at : ℕ → CashShift → Bool
is_open_at register s = s.cash_register_id == register && is_opened s.status

abbrev pub new_shift : Database → AuthUser → CashRegister → ℕ → CashShift
new_shift db actor register initial_amount = record {
  id = db.next_id;
  store_id = register.store_id;
  cash_register_id = register.id;
  user_id = actor.user_id;
  initial_amount = initial_amount;
  actual_cash = none;
  expected_cash = none;
  difference = none;
  status = CashShiftStatus.opened;
  closed_at = none;
}

-- `open`; `rivals` are the shifts that other transactions commit between the check and the insert,
-- which the partial unique index then sees.
unfoldable pub open_shift :
    List CashShift → AuthUser → ℕ → ℕ → Database → Result (CashShift × Database)
open_shift rivals actor register_id initial_amount db = do
  register ←
      or_throw (find (λ r. r.id == register_id) db.cash_registers) (not_found register_missing)
  throw_if (not (is_active register.status)) (bad_request register_inactive)
  throw_if (any (is_open_at register_id) db.cash_shifts) (conflict register_in_use)
  let shift = new_shift db actor register initial_amount
  throw_if (any (is_open_at register.id) (rivals ++ db.cash_shifts)) (conflict register_in_use)
  ok (shift, record db { cash_shifts = shift ∷ rivals ++ db.cash_shifts; next_id = suc db.next_id })

abbrev pub require_shift : Database → ℕ → Result CashShift
require_shift db id = or_throw (find (λ s. s.id == id) db.cash_shifts) (not_found shift_missing)

-- A cashier operates their own shift only.
abbrev pub assert_can_operate : AuthUser → CashShift → Result ⊤
assert_can_operate actor shift =
    throw_if (is_cashier actor.role && not (shift.user_id == actor.user_id))
      (forbidden shift_of_other_user)

-- `addMovement`
unfoldable pub add_movement :
    AuthUser → ℕ → CashMovementType → ℕ → Database → Result (CashMovement × Database)
add_movement actor shift_id movement_type amount db = do
  shift ← require_shift db shift_id
  assert_can_operate actor shift
  throw_if (not (is_opened shift.status)) (bad_request shift_already_closed)
  let movement : CashMovement = record {
    cash_shift_id = shift_id;
    user_id = actor.user_id;
    movement_type = movement_type;
    amount = amount;
  }
  ok (movement, record db { cash_movements = movement ∷ db.cash_movements })

abbrev pub cash_paid : Order → ℕ
cash_paid o = sum_of (λ p. p.amount) (filter (λ p. is_cash p.method) o.payments)

abbrev pub non_cash_paid : Order → ℕ
non_cash_paid o = sum_of (λ p. p.amount) (filter (λ p. not (is_cash p.method)) o.payments)

-- What a sale leaves in the drawer: `min(cashPaid, max(0, total - nonCashPaid))`.
unfoldable pub net_cash : Order → ℕ
net_cash o = if cash_paid o == 0 then 0 else min (cash_paid o) (o.total - non_cash_paid o)

abbrev pub is_sale_of : ℕ → Order → Bool
is_sale_of shift o = same_id o.cash_shift_id (some shift) && not (is_cancelled o.status)

-- `computeCashSalesTotal`
unfoldable pub cash_sales_total : ℕ → List Order → ℕ
unfolding net_cash
cash_sales_total shift orders = sum_of net_cash (filter (is_sale_of shift) orders)

abbrev pub total_inflows : ℕ → List CashMovement → ℕ
total_inflows shift movements =
    sum_of (λ m. m.amount)
      (filter (λ m. m.cash_shift_id == shift && is_inflow m.movement_type) movements)

abbrev pub total_outflows : ℕ → List CashMovement → ℕ
total_outflows shift movements =
    sum_of (λ m. m.amount)
      (filter (λ m. m.cash_shift_id == shift && not (is_inflow m.movement_type)) movements)

pub record ShiftSummary : Type 0 where
  pub cash_shift_id : ℕ
  pub status : CashShiftStatus
  pub initial_amount : ℕ
  pub total_inflows : ℕ
  pub total_outflows : ℕ
  pub cash_sales_total : ℕ
  pub expected_cash : ℤ

-- `computeSummary`
unfoldable pub compute_summary : Database → CashShift → ShiftSummary
unfolding cash_sales_total
compute_summary db shift =
    let inflows = total_inflows shift.id db.cash_movements in
    let outflows = total_outflows shift.id db.cash_movements in
    let sales = cash_sales_total shift.id db.orders in
    record {
      cash_shift_id = shift.id;
      status = shift.status;
      initial_amount = shift.initial_amount;
      total_inflows = inflows;
      total_outflows = outflows;
      cash_sales_total = sales;
      expected_cash = pos (shift.initial_amount + inflows + sales) -ℤ pos outflows;
    }

-- `getSummary`
unfoldable pub get_summary : AuthUser → ℕ → Database → Result ShiftSummary
unfolding compute_summary
get_summary actor shift_id db = do
  shift ← require_shift db shift_id
  assert_can_operate actor shift
  ok (compute_summary db shift)

abbrev pub close_shift : ℕ → ℕ → ℤ → CashShift → CashShift
close_shift actual_cash now expected shift = record shift {
  actual_cash = some actual_cash;
  expected_cash = some expected;
  difference = some (pos actual_cash -ℤ expected);
  status = CashShiftStatus.closed;
  closed_at = some now;
}

-- `close`, at the time `now`.
unfoldable pub close : AuthUser → ℕ → ℕ → ℕ → Database → Result (CashShift × Database)
unfolding compute_summary
close actor shift_id actual_cash now db = do
  shift ← require_shift db shift_id
  assert_can_operate actor shift
  throw_if (not (is_opened shift.status)) (bad_request shift_already_closed)
  let closing = close_shift actual_cash now (compute_summary db shift).expected_cash
  ok (
    closing shift,
    record db { cash_shifts = update_where (λ s. s.id == shift_id) closing db.cash_shifts },
  )
