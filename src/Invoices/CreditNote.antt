-- ===== src/Invoices/CreditNote.antt =====
-- `InvoicesService.issueCreditNote`: a short transaction that checks, a call of the authority outside
-- any transaction, and a short transaction that stores the note.
pub mod Stored
pub mod Once
use punto_de_venta_local_con.Base.{
  ℕ, suc, Bool, true, false, not, Option, none, some, List, [], ◌∷◌, ◌==◌, ◌&&◌, ◌||◌, same_id,
  is_some, ⊤,
}
use punto_de_venta_local_con.Base.Lists.{find, any}
use punto_de_venta_local_con.Base.Outcome.{
  Result, ok, err, not_found, bad_request, forbidden, conflict, invoice_missing, not_authorized,
  no_credit_note, already_voided, no_fiscal_config, credit_note_failed, feature_disabled,
  unique_violation, ◌>>=◌, ◌>>◌, throw_if, or_throw,
}
use punto_de_venta_local_con.Schema.{
  Database, Invoice, InvoiceType, InvoiceStatus, FiscalConfig, is_issued, same_invoice_type,
}
use punto_de_venta_local_con.Afip.InvoiceTypes.{credit_note_type_for}

-- The authority's answer to `getLastVoucherNumber` and `solicitarCae`: a failure of the connection, a
-- refusal, or an authorisation with the number that was asked for and its code (CAE).
pub data AfipAnswer : Type 0 where
  failed refused : AfipAnswer
  approved : ℕ → ℕ → AfipAnswer

pub record Prepared : Type 0 where
  pub original : Invoice
  pub note_type : InvoiceType
  pub fiscal_config : FiscalConfig

-- The first transaction.
unfoldable pub prepare_credit_note : Database → ℕ → Result Prepared
prepare_credit_note db id = do
  original ← or_throw (find (λ i. i.id == id) db.invoices) (not_found invoice_missing)
  throw_if (not (is_issued original.status) || not (is_some original.cae))
      (bad_request not_authorized)
  note_type ← or_throw (credit_note_type_for original.invoice_type) (bad_request no_credit_note)
  throw_if (any (λ i. same_id i.related_invoice_id (some original.id)) db.invoices)
      (conflict already_voided)
  config ←
      or_throw (find (λ c. c.store_id == original.store_id) db.fiscal_configs)
        (bad_request no_fiscal_config)
  ok (record { original = original; note_type = note_type; fiscal_config = config })

abbrev pub note_row : Prepared → ℕ → ℕ → ℕ → Invoice
note_row p id number cae = record {
  id = id;
  store_id = p.original.store_id;
  order_id = p.original.order_id;
  customer_id = p.original.customer_id;
  related_invoice_id = some p.original.id;
  invoice_type = p.note_type;
  pto_vta = p.fiscal_config.pto_vta;
  cbte_nro = some number;
  cae = some cae;
  status = InvoiceStatus.issued;
}

-- The unique indexes `relatedInvoiceId` and `[storeId, invoiceType, cbteNro]`.
abbrev pub note_clashes : Invoice → Invoice → Bool
note_clashes note i =
    same_id i.related_invoice_id note.related_invoice_id
    || (i.store_id == note.store_id
        && same_invoice_type i.invoice_type note.invoice_type
        && same_id i.cbte_nro note.cbte_nro)

-- The second transaction.
unfoldable pub store_credit_note : Prepared → ℕ → ℕ → Database → Result (ℕ × Database)
store_credit_note p number cae db = do
  let note = note_row p db.next_id number cae
  throw_if (any (note_clashes note) db.invoices) unique_violation
  ok (db.next_id, record db { invoices = note ∷ db.invoices; next_id = suc db.next_id })

-- The id of the note and the database; `others` is what other requests commit while the authority
-- answers. A failure or a refusal stores nothing.
unfoldable pub issue_credit_note :
    Bool → (Prepared → AfipAnswer) → (Database → Database) → Database → ℕ → Result (ℕ × Database)
unfolding prepare_credit_note store_credit_note
issue_credit_note enabled afip others db id = do
  throw_if (not enabled) (forbidden feature_disabled)
  p ← prepare_credit_note db id
  elim (afip p) [
    | failed ↦ err (bad_request credit_note_failed)
    | refused ↦ err (bad_request credit_note_failed)
    | approved number cae ↦ store_credit_note p number cae (others db)
  ]
