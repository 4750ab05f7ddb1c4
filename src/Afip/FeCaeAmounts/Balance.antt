-- ===== src/Afip/FeCaeAmounts/Balance.antt =====
-- The amounts of an invoice add up.
use punto_de_venta_local_con.Base.{
  ℕ, ◌+◌, ◌-◌, ◌≤◌, ◌≡◌, refl, sym, ◌∙◌, true, List, [], ◌∷◌, arith, Bool-cases, inl, inr,
}
use punto_de_venta_local_con.Base.Lists.{sum_of, All}
use punto_de_venta_local_con.Schema.{OrderItem, VatCondition}
use punto_de_venta_local_con.Orders.Pricing.{contained_tax, vat_rate}
use punto_de_venta_local_con.Orders.Pricing.Bounds.{contained_tax-le}
use punto_de_venta_local_con.Afip.FeCaeAmounts.{
  Group, vat_index, same_condition, accumulate, group_items, split_groups, build_fe_cae_amounts,
}

abbrev pub HasItsRate : OrderItem → Type 0
HasItsRate i = i.tax_rate ≡ vat_rate i.vat_condition

-- A group of an untaxed condition holds no tax.
abbrev IsTaxed : Group → Type 0
IsTaxed g = vat_rate g.condition ≡ 0 → g.iva ≡ 0

abbrev held : List Group → ℕ
held groups = sum_of (λ g. g.base + g.iva) groups

held-accumulate :
    (condition : VatCondition) (base iva : ℕ) (groups : List Group)
    → held (accumulate condition base iva groups) ≡ base + iva + held groups
unfolding accumulate
held-accumulate condition base iva [] = omega arith
held-accumulate condition base iva (g ∷ groups) =
    ground (arith, held-accumulate condition base iva groups)

held-group_items :
    (items : List OrderItem) (groups : List Group)
    → held (group_items items groups) ≡ sum_of (λ i. i.total) items + held groups
unfolding group_items
held-group_items [] groups = omega arith
held-group_items (item ∷ items) groups =
    let iva = contained_tax item.total item.tax_rate in
    let base = item.total - iva in
    omega (
      arith,
      contained_tax-le item.total item.tax_rate,
      held-accumulate item.vat_condition base iva groups,
      held-group_items items (accumulate item.vat_condition base iva groups),
    )

same_rate : (a b : VatCondition) → same_condition a b ≡ true → vat_rate a ≡ vat_rate b
unfolding vat_index
same_rate a b h = ground arith

untaxed : (total rate : ℕ) → rate ≡ 0 → contained_tax total rate ≡ 0
unfolding contained_tax
untaxed total rate h = ground arith

IsTaxed-accumulate :
    (condition : VatCondition) (base iva : ℕ) (groups : List Group)
    → (vat_rate condition ≡ 0 → iva ≡ 0)
    → All IsTaxed groups
    → All IsTaxed (accumulate condition base iva groups)
unfolding accumulate
IsTaxed-accumulate condition base iva [] h t = (h, tt)
IsTaxed-accumulate condition base iva (g ∷ groups) h (t, ts) =
    elim (Bool-cases (same_condition g.condition condition)) [
      | inl same ↦
          let rates = same_rate g.condition condition same in
          rw same ((λ z. let one = t z in let two = h (sym rates ∙ z) in omega arith), ts)
      | inr other ↦ rw other (t, IsTaxed-accumulate condition base iva groups h ts)
    ]

IsTaxed-group_items :
    (items : List OrderItem) (groups : List Group)
    → All HasItsRate items
    → All IsTaxed groups
    → All IsTaxed (group_items items groups)
unfolding group_items
IsTaxed-group_items [] groups r t = t
IsTaxed-group_items (item ∷ items) groups (r, rs) t =
    let iva = contained_tax item.total item.tax_rate in
    IsTaxed-group_items items (accumulate item.vat_condition (item.total - iva) iva groups) rs (
      IsTaxed-accumulate item.vat_condition (item.total - iva) iva groups
        (λ z. untaxed item.total item.tax_rate (r ∙ z)) t)

split_groups_sum :
    (groups : List Group)
    → All IsTaxed groups
    → let a = split_groups groups in a.neto + a.iva + a.exento + a.no_gravado ≡ held groups
unfolding split_groups
split_groups_sum [] t = refl
split_groups_sum (g ∷ groups) (t, ts) = let rest = split_groups_sum groups ts in ground arith

-- Where every item carries the rate of its VAT condition, net, tax, exempt and untaxed amounts of an
-- invoice add up to its total, to within two cents of rounding.
pub fe_cae_amounts_balance :
    (items : List OrderItem)
    → All HasItsRate items
    → let a = build_fe_cae_amounts items in
      let parts = a.importe_neto + a.importe_iva + a.importe_exento + a.importe_no_gravado in
      (a.importe_total ≤ parts + 2) × (parts ≤ a.importe_total + 2)
unfolding build_fe_cae_amounts
fe_cae_amounts_balance items r =
    let groups = group_items items [] in
    let whole = split_groups_sum groups (IsTaxed-group_items items [] r tt) in
    let held_all = held-group_items items [] in (omega arith, omega arith)
