-- ===== src/Afip/FeCaeAmounts/Tests.antt =====
-- An example of an invoice of two rates and an exempt item.
use punto_de_venta_local_con.Base.{ℕ, ◌+◌, ◌≤◌, ◌≡◌, refl, none, List, [], ◌∷◌}
use punto_de_venta_local_con.Schema.{OrderItem, VatCondition, ProductType}
use punto_de_venta_local_con.Orders.Pricing.{vat_rate, contained_tax}
use punto_de_venta_local_con.Afip.InvoiceTypes.{afip_alicuota_id}
use punto_de_venta_local_con.Afip.FeCaeAmounts.{vat_index, build_fe_cae_amounts}
use punto_de_venta_local_con.Afip.FeCaeAmounts.Balance.{fe_cae_amounts_balance}
use punto_de_venta_local_con.Afip.FeCaeAmounts.Rates.{entries_of, fe_cae_rates_once}

abbrev item : VatCondition → ℕ → OrderItem
item condition total = record {
  product_id = 10;
  variant_id = none;
  product_type = ProductType.simple;
  product_name = "Soda";
  sku = "SODA";
  quantity = 1000;
  unit_price = 0;
  unit_cost = 0;
  vat_condition = condition;
  tax_rate = vat_rate condition;
  discount_amount = 0;
  subtotal = total;
  total = total;
  bundle_components = [];
}

abbrev items : List OrderItem
items =
    item VatCondition.iva_21 12_100_000
    ∷ item VatCondition.exento 3_000_000
    ∷ item VatCondition.iva_10_5 1_105_000
    ∷ item VatCondition.iva_21 1_000_000
    ∷ []

-- The second item of the first rate joins the first one's entry.
items_total : (build_fe_cae_amounts items).importe_total ≡ 17_205
unfolding build_fe_cae_amounts
items_total = refl

items_rates : entries_of 5 (build_fe_cae_amounts items).alicuotas ≡ 1
unfolding build_fe_cae_amounts entries_of contained_tax vat_index afip_alicuota_id
items_rates = refl

fe_cae_amounts_balance_example :
    let a = build_fe_cae_amounts items in
    let parts = a.importe_neto + a.importe_iva + a.importe_exento + a.importe_no_gravado in
    (a.importe_total ≤ parts + 2) × (parts ≤ a.importe_total + 2)
fe_cae_amounts_balance_example = fe_cae_amounts_balance items (refl, (refl, (refl, (refl, tt))))

fe_cae_rates_once_example : entries_of 5 (build_fe_cae_amounts items).alicuotas ≤ 1
fe_cae_rates_once_example = fe_cae_rates_once items 5
