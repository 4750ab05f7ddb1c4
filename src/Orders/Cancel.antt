-- ===== src/Orders/Cancel.antt =====
-- `OrdersService.cancel`: a transaction that checks, the credit note outside any transaction, and a
-- transaction that returns the stock, cancels the order and reverses its charge. Other requests may
-- commit between the phases.
pub mod Return
pub mod Phases
use punto_de_venta_local_con.Base.{
  ℕ, ◌*◌, Bool, true, false, not, Option, none, some, List, [], ◌∷◌, ◌==◌, ◌&&◌, if◌then◌else◌,
  same_id, ⊤,
}
use punto_de_venta_local_con.Base.Int.{ℤ, neg}
use punto_de_venta_local_con.Base.Lists.{find, update_where}
use punto_de_venta_local_con.Base.Outcome.{
  Result, ok, err, not_found, bad_request, order_missing, order_already_cancelled,
  shift_already_closed, ◌>>=◌, ◌>>◌, throw_if, or_throw,
}
use punto_de_venta_local_con.Schema.{
  Database, Order, OrderItem, OrderItemBundleComponent, StockLevel, CashShift, Invoice,
  AccountMovement, AuthUser, OrderStatus, AccountMovementType, AuditAction, is_cancelled, is_opened,
  is_issued, is_bundle, is_charge,
}
use punto_de_venta_local_con.Afip.InvoiceTypes.{is_credit_note, credit_note_type_for}
use punto_de_venta_local_con.Invoices.CreditNote.{Prepared, AfipAnswer, issue_credit_note}
use punto_de_venta_local_con.Stock.{increment_stock}
use punto_de_venta_local_con.Customers.Account.{MovementParams, apply_account_movement}
use punto_de_venta_local_con.Orders.Lines.{stock_target}

abbrev pub shift_is_open : Database → ℕ → Bool
shift_is_open db id = elim (find (λ s. s.id == id) db.cash_shifts) [
  | none ↦ false
  | some shift ↦ is_opened shift.status
]

-- `order.cashShiftId && order.cashShift?.status !== 'OPEN'`
abbrev pub shift_is_closed : Database → Order → Bool
shift_is_closed db order = elim order.cash_shift_id [
  | none ↦ false
  | some id ↦ not (shift_is_open db id)
]

-- The authorised fiscal voucher of an order that is no credit note.
abbrev pub is_fiscal_of : ℕ → Invoice → Bool
is_fiscal_of order i =
    i.order_id == order && is_issued i.status && not (is_credit_note i.invoice_type)

abbrev pub voided_by_note : Option Invoice → Option ℕ
voided_by_note none = none
voided_by_note (some i) = elim (credit_note_type_for i.invoice_type) [
  | none ↦ none
  | some t ↦ some i.id
]

-- The first phase: the id of the invoice that needs a credit note, if any.
unfoldable pub check_cancel : Database → ℕ → Result (Option ℕ)
check_cancel db id = do
  order ← or_throw (find (λ o. o.id == id) db.orders) (not_found order_missing)
  throw_if (is_cancelled order.status) (bad_request order_already_cancelled)
  throw_if (shift_is_closed db order) (bad_request shift_already_closed)
  ok (voided_by_note (find (is_fiscal_of order.id) db.invoices))

-- `componentProduct?.trackStock`, and `item.product.trackStock` of the joined product.
abbrev pub tracks_stock : Database → ℕ → Bool
tracks_stock db id = elim (find (λ p. p.id == id) db.products) [
  | none ↦ false
  | some p ↦ p.track_stock
]

unfoldable pub return_one : Database → ℕ → ℕ → Option ℕ → ℕ → List StockLevel → List StockLevel
return_one db store product variant quantity levels =
    if tracks_stock db product
    then increment_stock (stock_target store product variant) quantity levels
    else levels

unfoldable pub return_components :
    Database → ℕ → List OrderItemBundleComponent → List StockLevel → List StockLevel
unfolding return_one
return_components db store [] levels = levels
return_components db store (bc ∷ rest) levels =
    return_components db store rest
      (return_one db store bc.component_product_id bc.component_variant_id bc.quantity levels)

unfoldable pub return_item : Database → ℕ → OrderItem → List StockLevel → List StockLevel
unfolding return_one return_components
return_item db store item levels =
    if is_bundle item.product_type
    then return_components db store item.bundle_components levels
    else return_one db store item.product_id item.variant_id (item.quantity * 1000) levels

-- The loop over the items of the order.
unfoldable pub return_items : Database → ℕ → List OrderItem → List StockLevel → List StockLevel
unfolding return_item
return_items db store [] levels = levels
return_items db store (item ∷ items) levels =
    return_items db store items (return_item db store item levels)

abbrev pub is_charge_of : ℕ → AccountMovement → Bool
is_charge_of order m = same_id m.order_id (some order) && is_charge m.movement_type

abbrev pub reversal_params : AuthUser → Order → AccountMovement → MovementParams
reversal_params actor order charge = record {
  customer_id = charge.customer_id;
  store_id = some order.store_id;
  movement_type = AccountMovementType.charge_reversal;
  delta = neg charge.amount;
  order_id = some order.id;
  cash_shift_id = none;
  payment_method = none;
  user_id = actor.user_id;
  idempotency_key = none;
}

-- The charge of a sale on credit is reversed by a movement of its own.
unfoldable pub reverse_charge : AuthUser → Order → Database → Result Database
reverse_charge actor order db = elim (find (is_charge_of order.id) db.account_movements) [
  | none ↦ ok db
  | some charge ↦ do
    moved ← apply_account_movement (reversal_params actor order charge) db
    ok moved.1
]

abbrev pub mark_cancelled : Order → Order
mark_cancelled o = record o { status = OrderStatus.cancelled }

-- The stock returned and the order marked, before the account is touched.
unfoldable pub return_order : Order → Database → Database
unfolding return_items
return_order order db = record db {
  stock_levels = return_items db order.store_id order.items db.stock_levels;
  orders = update_where (λ o. o.id == order.id) mark_cancelled db.orders;
}

abbrev pub audit_cancel : AuthUser → Order → Database → Database
audit_cancel actor order db = record db {
  audit_logs =
      record {
        store_id = some order.store_id;
        user_id = actor.user_id;
        action = AuditAction.order_cancel;
        entity_id = order.id;
      }
      ∷ db.audit_logs;
}

-- The third phase: the order is read again, and refused if another request has cancelled it.
unfoldable pub finish_cancel : AuthUser → ℕ → Database → Result Database
unfolding return_order reverse_charge
finish_cancel actor id db = do
  order ← or_throw (find (λ o. o.id == id) db.orders) (not_found order_missing)
  throw_if (is_cancelled order.status) (bad_request order_already_cancelled)
  reversed ← reverse_charge actor order (return_order order db)
  ok (audit_cancel actor order reversed)

-- The second phase; `during` is what other requests commit while the authority answers.
unfoldable pub void_invoice :
    Bool → (Prepared → AfipAnswer) → (Database → Database) → Option ℕ → Database → Result Database
void_invoice enabled afip during none db = ok db
void_invoice enabled afip during (some invoice) db = do
  noted ← issue_credit_note enabled afip during db invoice
  ok noted.1

-- `cancel`; `before`, `during` and `after` are what other requests commit before, in and after the
-- second phase. The result comes with the database, in which what an earlier phase and the other
-- requests committed stays.
unfoldable pub cancel :
    Bool
    → (Prepared → AfipAnswer)
    → (before during after : Database → Database) → AuthUser
    → ℕ
    → Database
    → Result ⊤ × Database
unfolding check_cancel void_invoice finish_cancel
cancel enabled afip before during after actor id db = elim (check_cancel db id) [
  | err e ↦ (err e, db)
  | ok fiscal ↦
      let read = before db in
      elim (void_invoice enabled afip during fiscal read) [
        | err e ↦ (err e, during read)
        | ok noted ↦
            let left = after noted in
            elim (finish_cancel actor id left) [
              | err e ↦ (err e, left)
              | ok finished ↦ (ok tt, finished)
            ]
      ]
]
