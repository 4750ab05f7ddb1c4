-- ===== src/Orders/Pricing.antt =====
-- The arithmetic of one line of a sale, in `OrdersService.attemptCreate` and
-- `QuotesService.attemptCreate`, and the check of its discount.
pub mod Bounds
use punto_de_venta_local_con.Base.{
  ℕ, ◌+◌, ◌-◌, ◌*◌, ◌/◌, min, max, Bool, true, not, Option, none, some, ltb, leb, ◌==◌, ◌||◌,
  if◌then◌else◌, or_else, ⊤,
}
use punto_de_venta_local_con.Base.Outcome.{
  Result, ok, err, bad_request, discount_over_limit, throw_if,
}
use punto_de_venta_local_con.Schema.{VatCondition, iva_21, iva_10_5}

-- `VAT_RATE_MAP`, in thousandths: 21 is 210.
abbrev pub vat_rate : VatCondition → ℕ
vat_rate iva_21 = 210
vat_rate iva_10_5 = 105
vat_rate _ = 0

-- `AMOUNT_EPSILON`, one cent.
abbrev pub amount_epsilon : ℕ
amount_epsilon = 1000

pub record LineAmounts : Type 0 where
  pub gross : ℕ
  pub discount : ℕ
  pub total : ℕ
  pub tax : ℕ

-- The tax that a total contains; the division is rounded down to a hundred-thousandth of a peso.
unfoldable pub contained_tax : ℕ → ℕ → ℕ
contained_tax total rate = if ltb 0 rate then total - total * 1000 / (1000 + rate) else 0

-- A unit price, a quantity and the discount asked for, if any.
unfoldable pub line_amounts : ℕ → ℕ → Option ℕ → VatCondition → LineAmounts
unfolding contained_tax
line_amounts unit_price quantity asked vat =
    let gross = unit_price * quantity in
    let discount = min (max (or_else asked 0) 0) gross in
    let total = gross - discount in
    record {
      gross = gross;
      discount = discount;
      total = total;
      tax = contained_tax total (vat_rate vat);
    }

-- `assertDiscountWithinLimit`: `discount / gross * 100 <= limit + 0.01`, with the division cleared and
-- the limit in hundredths.
unfoldable pub within_limit : Option ℕ → ℕ → ℕ → Bool
within_limit none discount gross = true
within_limit (some limit) discount gross =
    gross == 0 || discount == 0 || leb (discount * 10_000) ((limit + 1) * gross)

unfoldable pub assert_discount_within_limit : Option ℕ → ℕ → ℕ → Result ⊤
assert_discount_within_limit limit discount gross =
    throw_if (not (within_limit limit discount gross)) (bad_request discount_over_limit)
