-- ===== src/Orders/Cancel/Phases.antt =====
-- The phases of a cancellation against each other: what the later ones check again, and what a failure
-- leaves behind.
use punto_de_venta_local_con.Base.{
  ℕ, ◌≡◌, refl, ◌∙◌, Bool, true, some, List, ◌∷◌, ◌==◌, arith, Option-cases, inl, inr,
}
use punto_de_venta_local_con.Base.Lists.{find}
use punto_de_venta_local_con.Base.Outcome.{ok, err, Error, >>=-eq-ok, ok-injective}
use punto_de_venta_local_con.Schema.{Database, Invoice, AuthUser}
use punto_de_venta_local_con.Afip.InvoiceTypes.{is_credit_note}
use punto_de_venta_local_con.Invoices.CreditNote.{Prepared, AfipAnswer, note_row, issue_credit_note}
use punto_de_venta_local_con.Invoices.CreditNote.Stored.{IsVoided, issue-IsVoided}
use punto_de_venta_local_con.Invoices.CreditNote.Once.{credit_note_once, note_type-is_credit_note}
use punto_de_venta_local_con.Orders.Cancel.{check_cancel, void_invoice, cancel, is_fiscal_of}

find_skips_note :
    (order : ℕ) (note : Invoice) (invoices : List Invoice)
    → is_credit_note note.invoice_type ≡ true
    → find (is_fiscal_of order) (note ∷ invoices) ≡ find (is_fiscal_of order) invoices
find_skips_note order note invoices typed = ground arith

-- The note of a voucher is no fiscal voucher of the order.
check_cancel_after_note :
    (db left : Database) (id invoice : ℕ) {noted : Database}
    → IsVoided db left invoice noted
    → check_cancel noted id ≡ check_cancel left id
unfolding check_cancel
check_cancel_after_note db left id invoice {noted} v =
    let note = note_row v.prepared left.next_id v.number v.cae in
    let typed = (note_type-is_credit_note _ v.checked.note_type).0 in
    rw v.after (elim (Option-cases (find (λ o. o.id == id) left.orders)) [
      | inl missing ↦ rw missing refl
      | inr (order, found) ↦ rw (found, find_skips_note order.id note left.invoices typed) refl
    ])

-- Once the credit note of an order is stored, a later call of `cancel` that still finds the order to be
-- cancelled and its invoice to be voided ends in an exception, and leaves what other requests make of
-- the database: where the third phase failed after the note, the cancellation cannot be made up for.
pub cancel_stuck_after_note :
    (enabled enabled' : Bool) (afip afip' : Prepared → AfipAnswer)
    (during during' after' : Database → Database) (actor : AuthUser) (id invoice : ℕ)
    (db : Database) {noted : Database}
    → check_cancel (during db) id ≡ ok (some invoice)
    → void_invoice enabled afip during (some invoice) db ≡ ok noted
    → (e : Error) × (cancel enabled' afip' (λ d. d) during' after' actor id noted
        ≡ (err e, during' noted))
unfolding void_invoice cancel
cancel_stuck_after_note enabled enabled' afip afip' during during' after' actor id invoice db
      {noted} c v =
    let (stored, issued, same) = >>=-eq-ok (issue_credit_note enabled afip during db invoice) _ v in
    let at_noted = ok-injective same in
    let issued' : issue_credit_note enabled afip during db invoice ≡ ok (stored.0, noted) =
      rw (← at_noted) issued in
    let (e, again) =
      credit_note_once enabled enabled' afip afip' during during' db invoice stored.0 {db' = noted}
        issued' in
    let check =
      check_cancel_after_note db (during db) id invoice {noted = noted}
        (issue-IsVoided enabled afip during db invoice issued')
      ∙ c in
    (e, rw (check, cancel, again) refl)
