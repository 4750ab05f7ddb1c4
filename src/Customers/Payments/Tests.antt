-- ===== src/Customers/Payments/Tests.antt =====
-- Examples of payments on account.
use punto_de_venta_local_con.Base.{
  ℕ, ◌+◌, ◌≡◌, refl, none, some, [], ◌∷◌, arith, if◌then◌else◌, same_id,
}
use punto_de_venta_local_con.Base.Int.{pos, negsuc, neg, ◌+ℤ◌}
use punto_de_venta_local_con.Base.Outcome.{Result, ok, err}
use punto_de_venta_local_con.Schema.{
  Database, PaymentMethod, payment, CashShiftStatus, AuthUser, UserRole,
}
use punto_de_venta_local_con.Customers.Account.{apply_account_movement, update_balance, may_move}
use punto_de_venta_local_con.Customers.Account.Balance.{balance_of, rows_of}
use punto_de_venta_local_con.Customers.Account.Ledger.{IsReconciled, ledger_sum}
use punto_de_venta_local_con.Customers.Payments.{
  PaymentDto, Registered, already_registered, pay, register_payment, register_adjustment,
}
use punto_de_venta_local_con.Customers.Payments.Once.{register_payment_once}
use punto_de_venta_local_con.Customers.Payments.Effect.{pay_effect}
use punto_de_venta_local_con.CashShifts.{total_inflows}

abbrev books : Database
books = record {
  stores = [];
  categories = [];
  products = [];
  variants = [];
  bundle_items = [];
  stock_levels = [];
  customers = record { id = 7; name = "Ana"; account_balance = pos 0; credit_limit = none } ∷ [];
  account_movements = [];
  cash_registers = [];
  cash_shifts =
      record {
        id = 5;
        store_id = 1;
        cash_register_id = 3;
        user_id = 9;
        initial_amount = 0;
        actual_cash = none;
        expected_cash = none;
        difference = none;
        status = CashShiftStatus.opened;
        closed_at = none;
      }
      ∷ [];
  cash_movements = [];
  orders = [];
  quotes = [];
  suppliers = [];
  purchases = [];
  discount_policies = [];
  invoices = [];
  fiscal_configs = [];
  audit_logs = [];
  next_id = 100;
}

abbrev clerk : AuthUser
clerk = record { user_id = 9; role = UserRole.manager }

abbrev in_cash : PaymentDto
in_cash = record {
  amount = 30;
  method = PaymentMethod.cash;
  cash_shift_id = some 5;
  idempotency_key = some 77;
}

abbrev unpaid : Registered × Database
unpaid = (
  already_registered (record {
    customer_id = 0;
    store_id = none;
    movement_type = payment;
    amount = pos 0;
    balance_after = pos 0;
    order_id = none;
    cash_shift_id = none;
    payment_method = none;
    user_id = 0;
    idempotency_key = none;
  }),
  books,
)

abbrev value_or {ℓ} : {A : Type ℓ} → A → Result A → A
value_or default (ok a) = a
value_or default (err e) = default

abbrev paid : Registered × Database
unfolding pay
paid = value_or unpaid (pay clerk 7 in_cash books)

books-IsReconciled : IsReconciled books
unfolding balance_of rows_of ledger_sum ◌+ℤ◌
books-IsReconciled = record { keyed = λ id. ground arith; summed = λ id. ground arith }

cash-paid : pay clerk 7 in_cash books ≡ ok paid
unfolding paid pay apply_account_movement update_balance may_move ◌+ℤ◌ neg
cash-paid = refl

cash-registered : register_payment clerk 7 in_cash books ≡ ok paid
unfolding paid register_payment apply_account_movement update_balance may_move ◌+ℤ◌ neg
cash-registered = refl

pay_effect_example :
    IsReconciled paid.1
    × (balance_of 7 paid.1.customers ≡ paid.0.balance)
    × (paid.0.balance ≡ balance_of 7 books.customers +ℤ neg (pos 30))
    × ((s : ℕ)
        → total_inflows s paid.1.cash_movements ≡ (if same_id (some 5) (some s) then 30 else 0) + 0)
pay_effect_example =
    pay_effect clerk 7 in_cash books {registered = paid.0} {db' = paid.1} books-IsReconciled
      cash-paid

register_payment_once_example : register_payment clerk 7 in_cash paid.1 ≡ ok (paid.0, paid.1)
register_payment_once_example =
    register_payment_once clerk clerk 7 77 in_cash books {registered = paid.0} {db' = paid.1} refl
      cash-registered

abbrev adjusted : Registered × Database
unfolding register_adjustment
adjusted = value_or unpaid (register_adjustment clerk 7 (negsuc 1) books)

account-adjusted : register_adjustment clerk 7 (negsuc 1) books ≡ ok adjusted
unfolding adjusted register_adjustment apply_account_movement update_balance may_move ◌+ℤ◌
account-adjusted = refl
