-- ===== src/Afip/FeCaeAmounts.antt =====
-- apps/api/src/afip/fe-cae-amounts.util.ts: the amounts of an invoice by VAT condition.
pub mod Balance
pub mod Rates
mod Tests
use punto_de_venta_local_con.Base.{
  ℕ, ◌+◌, ◌-◌, ◌/◌, Bool, Option, List, [], ◌∷◌, ◌==◌, if◌then◌else◌,
}
use punto_de_venta_local_con.Base.Lists.{sum_of}
use punto_de_venta_local_con.Schema.{OrderItem, VatCondition}
use punto_de_venta_local_con.Afip.InvoiceTypes.{afip_alicuota_id}
use punto_de_venta_local_con.Orders.Pricing.{contained_tax}

-- `round2`, to cents, of an amount in hundred-thousandths of a peso.
abbrev pub round2 : ℕ → ℕ
round2 n = (n + 500) / 1000

-- A condition as a number, by which the keys of the map are compared.
unfoldable pub vat_index : VatCondition → ℕ
vat_index VatCondition.iva_21 = 0
vat_index VatCondition.iva_10_5 = 1
vat_index VatCondition.iva_0 = 2
vat_index VatCondition.exento = 3
vat_index VatCondition.no_gravado = 4

-- An entry of `byCondition`.
pub record Group : Type 0 where
  pub condition : VatCondition
  pub base : ℕ
  pub iva : ℕ

abbrev pub same_condition : VatCondition → VatCondition → Bool
same_condition a b = vat_index a == vat_index b

-- `byCondition.get` and `set`; a map keeps the order in which its keys came.
unfoldable pub accumulate : VatCondition → ℕ → ℕ → List Group → List Group
accumulate condition base iva [] = record { condition = condition; base = base; iva = iva } ∷ []
accumulate condition base iva (g ∷ groups) =
    let rest = accumulate condition base iva groups in
    if same_condition g.condition condition
    then record g { base = g.base + base; iva = g.iva + iva } ∷ groups
    else g ∷ rest

-- The loop over the items.
unfoldable pub group_items : List OrderItem → List Group → List Group
unfolding accumulate
group_items [] groups = groups
group_items (item ∷ items) groups =
    let iva = contained_tax item.total item.tax_rate in
    group_items items (accumulate item.vat_condition (item.total - iva) iva groups)

pub record Alicuota : Type 0 where
  pub id : Option ℕ
  pub base_imponible : ℕ
  pub importe : ℕ

-- The variables of the loop over the map.
pub record Amounts : Type 0 where
  pub neto : ℕ
  pub iva : ℕ
  pub exento : ℕ
  pub no_gravado : ℕ
  pub alicuotas : List Alicuota

-- A taxed group adds to the net, the tax and the list of rates.
abbrev pub taxed : Group → Amounts → Amounts
taxed g rest = record rest {
  neto = g.base + rest.neto;
  iva = g.iva + rest.iva;
  alicuotas =
      record {
        id = afip_alicuota_id g.condition;
        base_imponible = round2 g.base;
        importe = round2 g.iva;
      }
      ∷ rest.alicuotas;
}

abbrev pub add_group : VatCondition → Group → Amounts → Amounts
add_group VatCondition.exento g rest = record rest { exento = g.base + rest.exento }
add_group VatCondition.no_gravado g rest = record rest { no_gravado = g.base + rest.no_gravado }
add_group _ g rest = taxed g rest

-- The loop over the map.
unfoldable pub split_groups : List Group → Amounts
split_groups [] = record { neto = 0; iva = 0; exento = 0; no_gravado = 0; alicuotas = [] }
split_groups (g ∷ groups) = add_group g.condition g (split_groups groups)

-- `FeCaeAmounts`, in cents.
pub record FeCaeAmounts : Type 0 where
  pub importe_total : ℕ
  pub importe_neto : ℕ
  pub importe_iva : ℕ
  pub importe_exento : ℕ
  pub importe_no_gravado : ℕ
  pub alicuotas : List Alicuota

-- `buildFeCaeAmounts`
unfoldable pub build_fe_cae_amounts : List OrderItem → FeCaeAmounts
unfolding group_items split_groups
build_fe_cae_amounts items =
    let a = split_groups (group_items items []) in
    record {
      importe_total = round2 (sum_of (λ i. i.total) items);
      importe_neto = round2 a.neto;
      importe_iva = round2 a.iva;
      importe_exento = round2 a.exento;
      importe_no_gravado = round2 a.no_gravado;
      alicuotas = a.alicuotas;
    }
