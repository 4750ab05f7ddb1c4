-- ===== src/Afip/FeCaeAmounts/Rates.antt =====
-- The rates of an invoice are listed once each.
use punto_de_venta_local_con.Base.{
  ℕ, ◌+◌, ◌-◌, ◌≤◌, ◌≡◌, some, List, [], ◌∷◌, ◌==◌, if◌then◌else◌, same_id, arith, max,
}
use punto_de_venta_local_con.Schema.{OrderItem, VatCondition}
use punto_de_venta_local_con.Afip.InvoiceTypes.{afip_alicuota_id}
use punto_de_venta_local_con.Orders.Pricing.{contained_tax}
use punto_de_venta_local_con.Afip.FeCaeAmounts.{
  Group, Alicuota, vat_index, same_condition, accumulate, group_items, split_groups,
  build_fe_cae_amounts,
}

-- How many groups a condition has, and how many entries a rate's id.
unfoldable groups_of : VatCondition → List Group → ℕ
groups_of condition [] = 0
groups_of condition (g ∷ groups) =
    (if same_condition g.condition condition then 1 else 0) + groups_of condition groups

unfoldable pub entries_of : ℕ → List Alicuota → ℕ
entries_of id [] = 0
entries_of id (a ∷ alicuotas) = (if same_id a.id (some id) then 1 else 0) + entries_of id alicuotas

groups_of-accumulate :
    (c condition : VatCondition) (base iva : ℕ) (groups : List Group)
    → groups_of c (accumulate condition base iva groups)
      ≡ (if same_condition condition c then max 1 (groups_of c groups) else groups_of c groups)
unfolding groups_of accumulate
groups_of-accumulate c condition base iva [] = ground arith
groups_of-accumulate c condition base iva (g ∷ groups) =
    ground (arith, groups_of-accumulate c condition base iva groups)

groups_of-group_items :
    (c : VatCondition) (items : List OrderItem) (groups : List Group)
    → groups_of c groups ≤ 1
    → groups_of c (group_items items groups) ≤ 1
unfolding group_items
groups_of-group_items c [] groups h = h
groups_of-group_items c (item ∷ items) groups h =
    let iva = contained_tax item.total item.tax_rate in
    groups_of-group_items c items (accumulate item.vat_condition (item.total - iva) iva groups)
      (ground (arith, groups_of-accumulate c item.vat_condition (item.total - iva) iva groups))

entries_of-split_groups :
    (id : ℕ) (groups : List Group)
    → entries_of id (split_groups groups).alicuotas
      ≡ (if id == 5 then groups_of VatCondition.iva_21 groups else 0)
        + (if id == 4 then groups_of VatCondition.iva_10_5 groups else 0)
        + (if id == 3 then groups_of VatCondition.iva_0 groups else 0)
unfolding entries_of groups_of split_groups vat_index afip_alicuota_id
entries_of-split_groups id [] = ground arith
entries_of-split_groups id (g ∷ groups) = ground (arith, entries_of-split_groups id groups)

-- An invoice lists the amounts of a VAT rate in one entry at most.
pub fe_cae_rates_once :
    (items : List OrderItem) (id : ℕ) → entries_of id (build_fe_cae_amounts items).alicuotas ≤ 1
unfolding build_fe_cae_amounts groups_of
fe_cae_rates_once items id =
    let all = entries_of-split_groups id (group_items items []) in
    let a = groups_of-group_items VatCondition.iva_21 items [] (omega arith) in
    let b = groups_of-group_items VatCondition.iva_10_5 items [] (omega arith) in
    let c = groups_of-group_items VatCondition.iva_0 items [] (omega arith) in ground arith
