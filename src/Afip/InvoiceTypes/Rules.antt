-- ===== src/Afip/InvoiceTypes/Rules.antt =====
-- How the tables of voucher types fit together.
use punto_de_venta_local_con.Base.{ℕ, ◌+◌, ◌≡◌, refl, true, false, Option, none, some}
use punto_de_venta_local_con.Schema.{
  InvoiceType, nota_credito_a, nota_credito_b, nota_credito_c, CustomerTaxCondition,
  FiscalTaxCondition,
}
use punto_de_venta_local_con.Afip.InvoiceTypes.{
  determine_invoice_type, afip_cbte_tipo, credit_note_type_for, is_credit_note,
}

-- Every invoice that a sale can get has a credit note that voids it, which is of a credit note type,
-- has itself no credit note, and carries the authority's code of the invoice plus two.
pub credit_note_of_invoice :
    (issuer : FiscalTaxCondition) (customer : Option CustomerTaxCondition)
    → let invoice = determine_invoice_type issuer customer in
      (note : InvoiceType) × (code : ℕ) × (credit_note_type_for invoice ≡ some note)
      × (is_credit_note invoice ≡ false)
      × (is_credit_note note ≡ true)
      × (credit_note_type_for note ≡ none)
      × (afip_cbte_tipo invoice ≡ some code)
      × (afip_cbte_tipo note ≡ some (code + 2))
unfolding determine_invoice_type credit_note_type_for is_credit_note afip_cbte_tipo
credit_note_of_invoice FiscalTaxCondition.monotributo customer =
    (nota_credito_c, 11, refl, refl, refl, refl, refl, refl)
credit_note_of_invoice FiscalTaxCondition.responsable_inscripto
      (some CustomerTaxCondition.responsable_inscripto) =
    (nota_credito_a, 1, refl, refl, refl, refl, refl, refl)
credit_note_of_invoice FiscalTaxCondition.exento (some CustomerTaxCondition.responsable_inscripto) =
    (nota_credito_a, 1, refl, refl, refl, refl, refl, refl)
credit_note_of_invoice _ _ = (nota_credito_b, 6, refl, refl, refl, refl, refl, refl)
