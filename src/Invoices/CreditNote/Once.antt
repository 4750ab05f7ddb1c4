-- ===== src/Invoices/CreditNote/Once.antt =====
-- A voucher is voided once.
use punto_de_venta_local_con.Base.{
  ℕ, suc, ◌≡◌, refl, subst, ◌⊎◌, Bool, true, false, not, Option, none, some, ◌∷◌, ◌==◌, ◌||◌,
  same_id, is_some, ⊤, Option-cases, Bool-cases, inl, inr, same_id_refl, ap, List, [], arith,
}
use punto_de_venta_local_con.Base.Lists.{find, any}
use punto_de_venta_local_con.Base.Outcome.{
  ok, err, Error, not_found, bad_request, forbidden, conflict, invoice_missing, not_authorized,
  no_credit_note, already_voided, feature_disabled,
}
use punto_de_venta_local_con.Schema.{
  Database, Invoice, InvoiceType, is_issued, factura_a, factura_b, factura_c, nota_credito_a,
  nota_credito_b, nota_credito_c,
}
use punto_de_venta_local_con.Afip.InvoiceTypes.{credit_note_type_for, is_credit_note}
use punto_de_venta_local_con.Invoices.CreditNote.{
  Prepared, AfipAnswer, prepare_credit_note, note_row, issue_credit_note,
}
use punto_de_venta_local_con.Invoices.CreditNote.Stored.{IsVoided, issue-IsVoided}

abbrev IsNoteType : Option InvoiceType → Type 0
IsNoteType none = ⊤
IsNoteType (some note) = (is_credit_note note ≡ true) × (credit_note_type_for note ≡ none)

note_types : (t : InvoiceType) → IsNoteType (credit_note_type_for t)
unfolding credit_note_type_for is_credit_note
note_types factura_a = (refl, refl)
note_types factura_b = (refl, refl)
note_types factura_c = (refl, refl)
note_types nota_credito_a = tt
note_types nota_credito_b = tt
note_types nota_credito_c = tt
note_types _ = tt

-- The type of a note is a credit note's, which has itself no credit note.
pub note_type-is_credit_note :
    (t : InvoiceType) {note : InvoiceType}
    → credit_note_type_for t ≡ some note
    → (is_credit_note note ≡ true) × (credit_note_type_for note ≡ none)
note_type-is_credit_note t e = subst IsNoteType e (note_types t)

prepare_with_voided :
    (db : Database) (id : ℕ)
    → (original : Invoice) → find (λ i. i.id == id) db.invoices ≡ some original
    → (any (λ i. same_id i.related_invoice_id (some original.id)) db.invoices ≡ true)
      ⊎ (credit_note_type_for original.invoice_type ≡ none)
    → (e : Error) × (prepare_credit_note db id ≡ err e)
unfolding prepare_credit_note
prepare_with_voided db id original found (inl voided) =
    elim (Bool-cases (not (is_issued original.status) || not (is_some original.cae))) [
      | inl unissued ↦ (bad_request not_authorized, rw (found, unissued) refl)
      | inr issued ↦ elim (Option-cases (credit_note_type_for original.invoice_type)) [
        | inl no_type ↦ (bad_request no_credit_note, rw (found, issued, no_type) refl)
        | inr (note, typed) ↦ (conflict already_voided, rw (found, issued, typed, voided) refl)
      ]
    ]
prepare_with_voided db id original found (inr no_type) =
    elim (Bool-cases (not (is_issued original.status) || not (is_some original.cae))) [
      | inl unissued ↦ (bad_request not_authorized, rw (found, unissued) refl)
      | inr issued ↦ (bad_request no_credit_note, rw (found, issued, no_type) refl)
    ]

found_invoice_id :
    (id : ℕ) (invoices : List Invoice) {i : Invoice}
    → find (λ i. i.id == id) invoices ≡ some i
    → i.id ≡ id
found_invoice_id id [] e = cc
found_invoice_id id (r ∷ invoices) {i} e = ground (arith, found_invoice_id id invoices {i = i})

prepare_missing :
    (db : Database) (id : ℕ)
    → find (λ i. i.id == id) db.invoices ≡ none
    → prepare_credit_note db id ≡ err (not_found invoice_missing)
unfolding prepare_credit_note
prepare_missing db id missing = rw missing refl

-- With the note in front of whatever other requests have left, the first transaction refuses the
-- voucher: the note itself has no note, and any row with the voucher's id has this one.
prepare_with_note :
    (note : Invoice) (left : Database) (id next : ℕ)
    → credit_note_type_for note.invoice_type ≡ none
    → note.related_invoice_id ≡ some id
    → (e : Error) × (prepare_credit_note
          (record left { invoices = note ∷ left.invoices; next_id = next })
          id
        ≡ err e)
prepare_with_note note left id next untyped related =
    let db' : Database = record left { invoices = note ∷ left.invoices; next_id = next } in
    elim (Bool-cases (note.id == id)) [
      | inl same ↦ prepare_with_voided db' id note (rw same refl) (inr untyped)
      | inr other ↦ elim (Option-cases (find (λ i. i.id == id) left.invoices)) [
        | inl missing ↦ (not_found invoice_missing, prepare_missing db' id (rw other missing))
        | inr (row, found) ↦
            let row_id = found_invoice_id id left.invoices found in
            prepare_with_voided db' id row (rw other found)
              (inl (rw (row_id, related, same_id_refl (some id)) refl))
      ]
    ]

prepare_again :
    (db left : Database) (id : ℕ) {db' : Database}
    → IsVoided db left id db'
    → (e : Error) × (prepare_credit_note db' id ≡ err e)
prepare_again db left id {db'} v =
    let note = note_row v.prepared left.next_id v.number v.cae in
    let original_id = found_invoice_id id db.invoices v.checked.found in
    rw v.after (
      prepare_with_note note left id (suc left.next_id)
        (note_type-is_credit_note _ v.checked.note_type).1 (ap some original_id))

-- After a credit note for a voucher is stored, no further one can be, whatever the feature's switch,
-- the authority's answers and the requests that commit during either call: a voucher is voided at most
-- once.
pub credit_note_once :
    (enabled enabled' : Bool) (afip afip' : Prepared → AfipAnswer)
    (others others' : Database → Database) (db : Database) (id note : ℕ) {db' : Database}
    → issue_credit_note enabled afip others db id ≡ ok (note, db')
    → (e : Error) × (issue_credit_note enabled' afip' others' db' id ≡ err e)
unfolding issue_credit_note
credit_note_once enabled false afip afip' others others' db id note {db'} h =
    (forbidden feature_disabled, refl)
credit_note_once enabled true afip afip' others others' db id note {db'} h =
    let (e, again) =
      prepare_again db (others db) id {db' = db'}
        (issue-IsVoided enabled afip others db id {stored = (note, db')} h) in
    (e, rw again refl)
