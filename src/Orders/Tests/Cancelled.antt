-- ===== src/Orders/Tests/Cancelled.antt =====
-- Examples of cancellations.
use punto_de_venta_local_con.Base.{◌≡◌, refl, none, some, [], ◌∷◌, true, false, ◌==◌}
use punto_de_venta_local_con.Base.Int.{pos, ◌+ℤ◌, ◌-ℤ◌, neg}
use punto_de_venta_local_con.Base.Lists.{find, update_where}
use punto_de_venta_local_con.Base.Outcome.{ok, err, Error}
use punto_de_venta_local_con.Schema.{
  Database, Order, Invoice, is_cancelled, factura_b, InvoiceStatus, invoice_type_index,
}
use punto_de_venta_local_con.Customers.Account.{apply_account_movement, update_balance, may_move}
use punto_de_venta_local_con.Afip.InvoiceTypes.{credit_note_type_for, is_credit_note}
use punto_de_venta_local_con.Invoices.CreditNote.{Prepared, AfipAnswer, approved, issue_credit_note}
use punto_de_venta_local_con.Invoices.CreditNote.Once.{credit_note_once}
use punto_de_venta_local_con.Stock.{
  StockTarget, is_row_of, has_enough, increment_stock, decrement_stock_guarded,
}
use punto_de_venta_local_con.Stock.View.{on_hand, IsKeyed}
use punto_de_venta_local_con.Stock.Batches.{moved}
use punto_de_venta_local_con.Orders.Pricing.{within_limit}
use punto_de_venta_local_con.Discounts.{find_limit_for}
use punto_de_venta_local_con.Orders.Lines.{resolve_items}
use punto_de_venta_local_con.Orders.Lines.Moves.{order_moves}
use punto_de_venta_local_con.Orders.Create.{attempt_create, max_order_number}
use punto_de_venta_local_con.Orders.Cancel.{
  check_cancel, void_invoice, finish_cancel, cancel, mark_cancelled,
}
use punto_de_venta_local_con.Orders.Cancel.Return.{finish_cancel_stock}
use punto_de_venta_local_con.Orders.Cancel.Phases.{cancel_stuck_after_note}
use punto_de_venta_local_con.Orders.Roundtrip.{cancel-create_stock, cancel-create-IsKeyed}
use punto_de_venta_local_con.Orders.Tests.{shop, seller, basket, sold, rival, value_or}
use punto_de_venta_local_con.Orders.Tests.Sale.{shop-HasUniqueIds, shop-IsKeyed, basket-sold}

abbrev pub returned : Database
unfolding finish_cancel sold
returned = value_or shop (finish_cancel seller 100 sold.database)

pub sold-returned : finish_cancel seller 100 sold.database ≡ ok returned
unfolding returned finish_cancel sold attempt_create resolve_items within_limit find_limit_for
    decrement_stock_guarded is_row_of has_enough ◌-ℤ◌ ◌+ℤ◌ neg apply_account_movement update_balance
    may_move max_order_number increment_stock
sold-returned = refl

abbrev soda_target : StockTarget
soda_target = record { store_id = 1; product_id = some 10; variant_id = none }

finish_cancel_stock_example :
    (order : Order) × (find (λ o. o.id == 100) sold.database.orders ≡ some order)
    × (is_cancelled order.status ≡ false)
    × ((t : StockTarget)
        → on_hand t returned.stock_levels
          ≡ on_hand t sold.database.stock_levels
            +ℤ pos (moved (order_moves sold.database order.store_id order.items) t))
    × (returned.orders ≡ update_where (λ o. o.id == order.id) mark_cancelled sold.database.orders)
finish_cancel_stock_example =
    finish_cancel_stock seller 100 sold.database {db' = returned} sold-returned

cancel-create_stock_example :
    on_hand soda_target returned.stock_levels ≡ on_hand soda_target shop.stock_levels
unfolding sold attempt_create resolve_items within_limit find_limit_for decrement_stock_guarded
    has_enough is_row_of apply_account_movement update_balance ◌+ℤ◌
cancel-create_stock_example =
    cancel-create_stock [] seller seller basket shop {created = sold} {db' = returned}
      shop-HasUniqueIds shop-IsKeyed basket-sold sold-returned soda_target

cancel-create-IsKeyed_example : IsKeyed sold.database.stock_levels × IsKeyed returned.stock_levels
cancel-create-IsKeyed_example =
    cancel-create-IsKeyed [] seller seller basket 100 shop {created = sold} {db' = returned}
      shop-HasUniqueIds shop-IsKeyed basket-sold sold-returned

-- The invoice of an order that was sold without a shift.
abbrev invoice : Invoice
invoice = record {
  id = 200;
  store_id = 1;
  order_id = 90;
  customer_id = some 7;
  related_invoice_id = none;
  invoice_type = factura_b;
  pto_vta = 1;
  cbte_nro = some 31;
  cae = some 777;
  status = InvoiceStatus.issued;
}

abbrev invoiced : Database
invoiced = record shop { orders = rival ∷ []; invoices = invoice ∷ [] }

-- The authority authorises every voucher with number 5.
abbrev approves : Prepared → AfipAnswer
approves p = approved 5 778

abbrev noted : Database
unfolding issue_credit_note
noted = (value_or (0, shop) (issue_credit_note true approves (λ d. d) invoiced 200)).1

invoice-noted : issue_credit_note true approves (λ d. d) invoiced 200 ≡ ok (100, noted)
unfolding noted issue_credit_note credit_note_type_for invoice_type_index
invoice-noted = refl

credit_note_once_example :
    (e : Error) × (issue_credit_note true approves (λ d. d) noted 200 ≡ err e)
credit_note_once_example =
    credit_note_once true true approves approves (λ d. d) (λ d. d) invoiced 200 100 {db' = noted}
      invoice-noted

invoiced_check : check_cancel invoiced 90 ≡ ok (some 200)
unfolding check_cancel credit_note_type_for is_credit_note
invoiced_check = refl

invoiced_void : void_invoice true approves (λ d. d) (some 200) invoiced ≡ ok noted
unfolding void_invoice noted issue_credit_note credit_note_type_for invoice_type_index
invoiced_void = refl

cancel_stuck_after_note_example :
    (e : Error) × (cancel true approves (λ d. d) (λ d. d) (λ d. d) seller 90 noted ≡ (err e, noted))
cancel_stuck_after_note_example =
    cancel_stuck_after_note true true approves approves (λ d. d) (λ d. d) (λ d. d) seller 90 200
      invoiced {noted = noted} invoiced_check invoiced_void
