-- ===== src/Schema/Enums.antt =====
-- The enums of packages/database/prisma/schema.prisma, and the tests on their values that the
-- services make.
use punto_de_venta_local_con.Base.{ℕ, ◌≡◌, Bool, true, false, ◌==◌, arith}

pub data UserRole : Type 0 where
  superadmin owner admin manager cashier : UserRole

pub data ProductType : Type 0 where
  simple variable bundle : ProductType

pub data VatCondition : Type 0 where
  iva_21 iva_10_5 iva_0 exento no_gravado : VatCondition

pub data OrderStatus : Type 0 where
  completed cancelled refunded : OrderStatus

pub data PaymentMethod : Type 0 where
  cash debit_card credit_card transfer mercado_pago current_account : PaymentMethod

pub data CashRegisterStatus : Type 0 where
  active inactive : CashRegisterStatus

pub data CashShiftStatus : Type 0 where
  opened closed : CashShiftStatus

pub data CashMovementType : Type 0 where
  inflow outflow : CashMovementType

pub data AccountMovementType : Type 0 where
  charge payment adjustment charge_reversal : AccountMovementType

pub data BundlePricingMode : Type 0 where
  manual derived : BundlePricingMode

pub data QuoteStatus : Type 0 where
  opened converted cancelled : QuoteStatus

pub data InvoiceType : Type 0 where
  factura_a factura_b factura_c nota_credito_a nota_credito_b nota_credito_c ticket_x : InvoiceType

pub data CustomerTaxCondition : Type 0 where
  consumidor_final responsable_inscripto monotributo exento : CustomerTaxCondition

pub data FiscalTaxCondition : Type 0 where
  monotributo responsable_inscripto exento : FiscalTaxCondition

pub data InvoiceStatus : Type 0 where
  issued rejected cancelled : InvoiceStatus

pub data AuditAction : Type 0 where
  order_discount order_cancel stock_adjust account_payment account_adjustment quote_create
        quote_cancel purchase_create :
      AuditAction

abbrev pub is_cash : PaymentMethod → Bool
is_cash PaymentMethod.cash = true
is_cash _ = false

abbrev pub is_current_account : PaymentMethod → Bool
is_current_account PaymentMethod.current_account = true
is_current_account _ = false

abbrev pub is_opened : CashShiftStatus → Bool
is_opened CashShiftStatus.opened = true
is_opened _ = false

abbrev pub is_cancelled : OrderStatus → Bool
is_cancelled OrderStatus.cancelled = true
is_cancelled _ = false

abbrev pub is_cashier : UserRole → Bool
is_cashier UserRole.cashier = true
is_cashier _ = false

abbrev pub is_issued : InvoiceStatus → Bool
is_issued InvoiceStatus.issued = true
is_issued _ = false

abbrev pub is_bundle : ProductType → Bool
is_bundle ProductType.bundle = true
is_bundle _ = false

abbrev pub is_inflow : CashMovementType → Bool
is_inflow CashMovementType.inflow = true
is_inflow _ = false

abbrev pub is_charge : AccountMovementType → Bool
is_charge AccountMovementType.charge = true
is_charge _ = false

-- A role as a number, by which roles are compared.
unfoldable pub role_index : UserRole → ℕ
role_index UserRole.superadmin = 0
role_index UserRole.owner = 1
role_index UserRole.admin = 2
role_index UserRole.manager = 3
role_index UserRole.cashier = 4

abbrev pub same_role : UserRole → UserRole → Bool
same_role r s = role_index r == role_index s

pub same_role→eq : (r s : UserRole) → same_role r s ≡ true → r ≡ s
unfolding role_index
same_role→eq r s h = ground arith

abbrev pub same_movement_type : AccountMovementType → AccountMovementType → Bool
same_movement_type AccountMovementType.charge AccountMovementType.charge = true
same_movement_type AccountMovementType.payment AccountMovementType.payment = true
same_movement_type AccountMovementType.adjustment AccountMovementType.adjustment = true
same_movement_type AccountMovementType.charge_reversal AccountMovementType.charge_reversal = true
same_movement_type _ _ = false

-- A voucher type as a number, by which types are compared.
unfoldable pub invoice_type_index : InvoiceType → ℕ
invoice_type_index InvoiceType.factura_a = 0
invoice_type_index InvoiceType.factura_b = 1
invoice_type_index InvoiceType.factura_c = 2
invoice_type_index InvoiceType.nota_credito_a = 3
invoice_type_index InvoiceType.nota_credito_b = 4
invoice_type_index InvoiceType.nota_credito_c = 5
invoice_type_index InvoiceType.ticket_x = 6

abbrev pub same_invoice_type : InvoiceType → InvoiceType → Bool
same_invoice_type a b = invoice_type_index a == invoice_type_index b
