-- ===== src/Afip/InvoiceTypes.antt =====
-- apps/api/src/afip/invoice-type.util.ts: which voucher a sale gets, which credit note voids it, and
-- the authority's codes.
pub mod Rules
use punto_de_venta_local_con.Base.{ℕ, Bool, true, false, Option, none, some}
use punto_de_venta_local_con.Schema.{
  InvoiceType, factura_a, factura_b, factura_c, nota_credito_a, nota_credito_b, nota_credito_c,
  ticket_x, CustomerTaxCondition, FiscalTaxCondition, VatCondition,
}

unfoldable pub determine_invoice_type :
    FiscalTaxCondition → Option CustomerTaxCondition → InvoiceType
determine_invoice_type FiscalTaxCondition.monotributo customer = factura_c
determine_invoice_type _ (some CustomerTaxCondition.responsable_inscripto) = factura_a
determine_invoice_type _ _ = factura_b

-- `AFIP_CBTE_TIPO`; a ticket has no code.
unfoldable pub afip_cbte_tipo : InvoiceType → Option ℕ
afip_cbte_tipo factura_a = some 1
afip_cbte_tipo nota_credito_a = some 3
afip_cbte_tipo factura_b = some 6
afip_cbte_tipo nota_credito_b = some 8
afip_cbte_tipo factura_c = some 11
afip_cbte_tipo nota_credito_c = some 13
afip_cbte_tipo ticket_x = none

-- `CREDIT_NOTE_FOR`, and `null` for every other type.
unfoldable pub credit_note_type_for : InvoiceType → Option InvoiceType
credit_note_type_for factura_a = some nota_credito_a
credit_note_type_for factura_b = some nota_credito_b
credit_note_type_for factura_c = some nota_credito_c
credit_note_type_for _ = none

-- Membership of `CREDIT_NOTE_TYPES`.
unfoldable pub is_credit_note : InvoiceType → Bool
is_credit_note nota_credito_a = true
is_credit_note nota_credito_b = true
is_credit_note nota_credito_c = true
is_credit_note _ = false

-- `AFIP_ALICUOTA_ID`
unfoldable pub afip_alicuota_id : VatCondition → Option ℕ
afip_alicuota_id VatCondition.iva_21 = some 5
afip_alicuota_id VatCondition.iva_10_5 = some 4
afip_alicuota_id VatCondition.iva_0 = some 3
afip_alicuota_id _ = none

unfoldable pub resolve_condicion_iva_receptor : Option CustomerTaxCondition → ℕ
resolve_condicion_iva_receptor (some CustomerTaxCondition.responsable_inscripto) = 1
resolve_condicion_iva_receptor (some CustomerTaxCondition.monotributo) = 6
resolve_condicion_iva_receptor (some CustomerTaxCondition.exento) = 4
resolve_condicion_iva_receptor _ = 5
