-- ===== src/Customers/Account/Tests.antt =====
-- Examples of account movements.
use punto_de_venta_local_con.Base.{◌≤◌, ◌≡◌, refl, none, some, [], ◌∷◌, arith}
use punto_de_venta_local_con.Base.Int.{ℤ, pos, negsuc, ◌+ℤ◌}
use punto_de_venta_local_con.Base.Outcome.{ok}
use punto_de_venta_local_con.Schema.{Database, Customer, AccountMovementType}
use punto_de_venta_local_con.Customers.Account.{
  MovementParams, may_move, update_balance, apply_account_movement, movement_row,
}
use punto_de_venta_local_con.Customers.Account.Balance.{balance_of, rows_of}
use punto_de_venta_local_con.Customers.Account.Ledger.{
  IsReconciled, ledger_sum, apply_account_movement-IsReconciled,
}

abbrev ana : ℤ → Customer
ana balance = record {
  id = 7;
  name = "Ana";
  account_balance = balance;
  credit_limit = some (pos 9);
}

ana_rows : rows_of 7 (ana (pos 0) ∷ []) ≤ 1
unfolding rows_of
ana_rows = omega arith

ana_moved : update_balance 7 (pos 8) (ana (pos 0) ∷ []) ≡ ok (ana (pos 8) ∷ [])
unfolding update_balance may_move ◌+ℤ◌
ana_moved = refl

abbrev books : Database
books = record {
  stores = [];
  categories = [];
  products = [];
  variants = [];
  bundle_items = [];
  stock_levels = [];
  customers = ana (pos 0) ∷ [];
  account_movements = [];
  cash_registers = [];
  cash_shifts = [];
  cash_movements = [];
  orders = [];
  quotes = [];
  suppliers = [];
  purchases = [];
  discount_policies = [];
  invoices = [];
  fiscal_configs = [];
  audit_logs = [];
  next_id = 100;
}

books-IsReconciled : IsReconciled books
unfolding balance_of rows_of ledger_sum ◌+ℤ◌
books-IsReconciled = record { keyed = λ id. ground arith; summed = λ id. ground arith }

-- A payment of five on account.
abbrev params : MovementParams
params = record {
  customer_id = 7;
  store_id = none;
  movement_type = AccountMovementType.payment;
  delta = negsuc 4;
  order_id = none;
  cash_shift_id = none;
  payment_method = none;
  user_id = 1;
  idempotency_key = some 55;
}

abbrev paid : Database
paid = record books {
  customers = ana (negsuc 4) ∷ [];
  account_movements = movement_row params (negsuc 4) ∷ [];
}

params_applied : apply_account_movement params books ≡ ok (negsuc 4, paid)
unfolding apply_account_movement update_balance may_move ◌+ℤ◌
params_applied = refl

apply_account_movement-IsReconciled_example :
    IsReconciled paid
    × (paid.account_movements ≡ movement_row params (negsuc 4) ∷ [])
    × (balance_of 7 paid.customers ≡ negsuc 4)
    × (negsuc 4 ≡ balance_of 7 books.customers +ℤ negsuc 4)
apply_account_movement-IsReconciled_example =
    apply_account_movement-IsReconciled params books {balance = negsuc 4} {db' = paid}
      books-IsReconciled params_applied
