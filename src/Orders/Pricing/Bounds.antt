-- ===== src/Orders/Pricing/Bounds.antt =====
-- What holds of the amounts of a line, whatever the request asks for.
use punto_de_venta_local_con.Base.{
  ℕ, ◌+◌, ◌-◌, ◌*◌, ◌≤◌, ◌<◌, ◌≡◌, refl, min, max, or_else, true, Option, none, some, arith,
}
use punto_de_venta_local_con.Base.Outcome.{ok}
use punto_de_venta_local_con.Schema.{VatCondition}
use punto_de_venta_local_con.Orders.Pricing.{
  vat_rate, contained_tax, line_amounts, within_limit, assert_discount_within_limit,
}

-- The tax is at most the total.
pub contained_tax-le : (total rate : ℕ) → contained_tax total rate ≤ total
unfolding contained_tax
contained_tax-le total rate = ground arith

-- Net and tax add up to the total, and the net times `1 + rate` is the total, to within one unit of
-- the net.
pub contained_tax_net :
    (total : ℕ) (vat : VatCondition)
    → let net = total - contained_tax total (vat_rate vat) in
      (net + contained_tax total (vat_rate vat) ≡ total)
      × (net * (1000 + vat_rate vat) ≤ total * 1000)
      × (total * 1000 < (net + 1) * (1000 + vat_rate vat))
unfolding contained_tax
contained_tax_net total VatCondition.iva_21 = omega arith
contained_tax_net total VatCondition.iva_10_5 = omega arith
contained_tax_net total _ = omega arith

-- The gross of a line is price times quantity, discount and total make it up, and the tax is at
-- most the total.
pub line_amounts_balance :
    (unit_price quantity : ℕ) (asked : Option ℕ) (vat : VatCondition)
    → let l = line_amounts unit_price quantity asked vat in
      (l.gross ≡ unit_price * quantity) × (l.discount + l.total ≡ l.gross) × (l.tax ≤ l.total)
unfolding line_amounts
line_amounts_balance unit_price quantity asked vat =
    let gross = unit_price * quantity in
    let discount = min (max (or_else asked 0) 0) gross in
    (refl, omega arith, contained_tax-le (gross - discount) (vat_rate vat))

-- A role with no limit passes.
pub within_limit-none : (discount gross : ℕ) → within_limit none discount gross ≡ true
unfolding within_limit
within_limit-none discount gross = refl

-- For a discount of at most the gross the check is one inequality.
pub within_limit→le :
    (limit discount gross : ℕ)
    → within_limit (some limit) discount gross ≡ true
    → discount ≤ gross
    → discount * 10_000 ≤ (limit + 1) * gross
unfolding within_limit
within_limit→le limit discount gross h b = grind arith

pub le→within_limit :
    (limit discount gross : ℕ)
    → discount * 10_000 ≤ (limit + 1) * gross
    → within_limit (some limit) discount gross ≡ true
unfolding within_limit
le→within_limit limit discount gross h = ground arith

pub assert-within_limit :
    (limit : Option ℕ) (discount gross : ℕ)
    → assert_discount_within_limit limit discount gross ≡ ok tt
    → within_limit limit discount gross ≡ true
unfolding assert_discount_within_limit
assert-within_limit limit discount gross e = ground arith

pub within_limit-assert :
    (limit : Option ℕ) (discount gross : ℕ)
    → within_limit limit discount gross ≡ true
    → assert_discount_within_limit limit discount gross ≡ ok tt
unfolding assert_discount_within_limit
within_limit-assert limit discount gross e = ground arith
