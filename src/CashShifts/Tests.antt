-- ===== src/CashShifts/Tests.antt =====
-- Examples of shifts: opened, with a sale and a movement of cash, and closed.
use punto_de_venta_local_con.Base.{
  ℕ, ◌≤◌, ◌≡◌, ◌⊎◌, List, refl, none, some, [], ◌∷◌, true, false, arith, ◌==◌,
}
use punto_de_venta_local_con.Base.Int.{ℤ, pos, ◌+ℤ◌, ◌-ℤ◌}
use punto_de_venta_local_con.Base.Lists.{find}
use punto_de_venta_local_con.Base.Outcome.{ok, err, Error}
use punto_de_venta_local_con.Schema.{
  Database, CashRegisterStatus, CashShift, CashShiftStatus, CashMovement, CashMovementType, Order,
  PaymentMethod, OrderStatus, AuthUser, UserRole, is_opened,
}
use punto_de_venta_local_con.Orders.Create.{CreateOrderDto, attempt_create}
use punto_de_venta_local_con.Customers.Payments.{PaymentDto, Registered, register_payment}
use punto_de_venta_local_con.CashShifts.Drawer.{drawer_content}
use punto_de_venta_local_con.CashShifts.Closed.{cash_in, closed_is_final}
use punto_de_venta_local_con.CashShifts.{
  is_open_at, open_shift, add_movement, compute_summary, close,
}
use punto_de_venta_local_con.CashShifts.Lifecycle.{
  open_at, IsSingle, open_shift-IsSingle, close_effect,
}

abbrev clerk : AuthUser
clerk = record { user_id = 9; role = UserRole.cashier }

abbrev shift : ℕ → CashShift
shift id = record {
  id = id;
  store_id = 1;
  cash_register_id = 3;
  user_id = 9;
  initial_amount = 50;
  actual_cash = none;
  expected_cash = none;
  difference = none;
  status = CashShiftStatus.opened;
  closed_at = none;
}

-- A sale of 850, paid with 1000 in cash.
abbrev sale : Order
sale = record {
  id = 90;
  store_id = 1;
  cash_shift_id = some 5;
  customer_id = none;
  user_id = 9;
  order_number = 1;
  status = OrderStatus.completed;
  subtotal = 850;
  discount_amount = 0;
  tax_amount = 0;
  total = 850;
  notes = none;
  items = [];
  payments = record { method = PaymentMethod.cash; amount = 1000; reference = none } ∷ [];
}

abbrev register : Database
register = record {
  stores = record { id = 1 } ∷ [];
  categories = [];
  products = [];
  variants = [];
  bundle_items = [];
  stock_levels = [];
  customers = [];
  account_movements = [];
  cash_registers = record { id = 3; store_id = 1; status = CashRegisterStatus.active } ∷ [];
  cash_shifts = [];
  cash_movements = [];
  orders = sale ∷ [];
  quotes = [];
  suppliers = [];
  purchases = [];
  discount_policies = [];
  invoices = [];
  fiscal_configs = [];
  audit_logs = [];
  next_id = 5;
}

abbrev working : Database
working = record register { cash_shifts = shift 5 ∷ []; next_id = 6 }

register_free : IsSingle []
unfolding open_at
register_free r = omega arith

shift-opened : open_shift [] clerk 3 50 register ≡ ok (shift 5, working)
unfolding open_shift
shift-opened = refl

open_shift-IsSingle_example :
    IsSingle working.cash_shifts
    × (is_open_at 3 (shift 5) ≡ true)
    × (working.cash_shifts ≡ shift 5 ∷ [])
open_shift-IsSingle_example =
    open_shift-IsSingle [] clerk 3 50 register {shift = shift 5} {db' = working} register_free
      shift-opened

abbrev withdrawal : CashMovement
withdrawal = record {
  cash_shift_id = 5;
  user_id = 9;
  movement_type = CashMovementType.outflow;
  amount = 20;
}

abbrev drawn : Database
drawn = record working { cash_movements = withdrawal ∷ [] }

cash-drawn : add_movement clerk 5 CashMovementType.outflow 20 working ≡ ok (withdrawal, drawn)
unfolding add_movement
cash-drawn = refl

-- Fifty to begin with, 850 of the sale and twenty taken out: ten are missing.
abbrev closed : CashShift
closed = record (shift 5) {
  actual_cash = some 870;
  expected_cash = some (pos 880);
  difference = some (pos 870 -ℤ pos 880);
  status = CashShiftStatus.closed;
  closed_at = some 1;
}

abbrev finished : Database
finished = record drawn { cash_shifts = closed ∷ [] }

shift-closed : close clerk 5 870 1 drawn ≡ ok (closed, finished)
unfolding close compute_summary ◌-ℤ◌
shift-closed = refl

close_effect_example :
    (s : CashShift) × (difference : ℤ) × (find (λ s. s.id == 5) drawn.cash_shifts ≡ some s)
    × (is_opened s.status ≡ true)
    × (is_opened closed.status ≡ false)
    × (closed.actual_cash ≡ some 870)
    × (closed.expected_cash ≡ some (drawer_content drawn s))
    × (closed.difference ≡ some difference)
    × (drawer_content drawn s +ℤ difference ≡ pos 870)
    × (find (λ s. s.id == 5) finished.cash_shifts ≡ some closed)
    × ((r : ℕ) → open_at r finished.cash_shifts ≤ open_at r drawn.cash_shifts)
close_effect_example =
    close_effect clerk 5 870 1 drawn {closed = closed} {db' = finished} shift-closed

closed_is_final_example :
    ((movement_type : CashMovementType) (amount : ℕ)
      → (e : Error) × (add_movement clerk 5 movement_type amount finished ≡ err e))
    × ((actual now : ℕ) → (e : Error) × (close clerk 5 actual now finished ≡ err e))
    × ((rivals : List Order) (dto : CreateOrderDto)
        → (e : Error) × (attempt_create rivals clerk
              (record dto { cash_shift_id = some 5 })
              finished
            ≡ err e))
    × ((customer : ℕ) (dto : PaymentDto)
        → ((e : Error) × (register_payment clerk customer (cash_in 5 dto) finished ≡ err e))
          ⊎ ((registered : Registered) × (register_payment clerk customer (cash_in 5 dto) finished
                ≡ ok (registered, finished))))
closed_is_final_example =
    closed_is_final clerk 5 870 1 drawn {closed = closed} {db' = finished} shift-closed clerk
