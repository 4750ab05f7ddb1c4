-- ===== src/Stock/Available/Tests.antt =====
-- An example of a bundle's availability.
use punto_de_venta_local_con.Base.{inl}
use punto_de_venta_local_con.Base.{
  ℕ, ◌*◌, ◌<◌, ◌≡◌, ◌↔◌, ◌⊎◌, refl, true, none, some, List, [], ◌∷◌, arith,
}
use punto_de_venta_local_con.Base.Int.{pos, ◌≤ℤ◌}
use punto_de_venta_local_con.Base.Lists.{All}
use punto_de_venta_local_con.Base.Outcome.{ok}
use punto_de_venta_local_con.Schema.{BundlePricingMode, Product, ProductType, iva_21, StockLevel}
use punto_de_venta_local_con.Stock.{is_row_of}
use punto_de_venta_local_con.Stock.View.{rows_at, IsKeyed, same_target}
use punto_de_venta_local_con.Orders.Lines.{Component, Fulfilment, take_bundle}
use punto_de_venta_local_con.Stock.Available.{get_bundle_available_stock}
use punto_de_venta_local_con.Stock.Available.Exact.{AreApart, AreWhole, bundle_availability_exact}

-- Seven and five units.
abbrev levels : List StockLevel
levels =
    record {
      store_id = 1;
      product_id = some 10;
      variant_id = none;
      quantity = pos 7_000_000;
      min_alert_stock = none;
    }
    ∷ record {
      store_id = 1;
      product_id = some 11;
      variant_id = none;
      quantity = pos 5_000_000;
      min_alert_stock = none;
    }
    ∷ []

abbrev product : ℕ → Product
product id = record {
  id = id;
  sku = "SKU";
  barcode = none;
  name = "Name";
  product_type = ProductType.simple;
  cost_price = 600;
  price = 1000;
  vat_condition = iva_21;
  track_stock = true;
  is_active = true;
  bundle_pricing_mode = BundlePricingMode.manual;
  bundle_discount_percent = none;
  category_id = none;
}

-- Two units of one and one of the other.
abbrev component : ℕ → ℕ → Component
component id quantity = record {
  item = record {
    id = 80;
    bundle_product_id = 12;
    component_product_id = id;
    component_variant_id = none;
    quantity = quantity;
  };
  product = product id;
  variant = none;
}

levels-IsKeyed : IsKeyed levels
unfolding rows_at is_row_of
levels-IsKeyed t = ground arith

components-AreApart : AreApart 1 (component 10 2000 ∷ component 11 1000 ∷ [])
unfolding AreApart same_target
components-AreApart = ((refl, tt), (tt, tt))

components_positive : All (λ d. 0 < d.item.quantity) (component 10 2000 ∷ component 11 1000 ∷ [])
components_positive = (omega arith, (omega arith, tt))

counted-AreWhole : AreWhole levels (component 10 2000 ∷ component 11 1000 ∷ [])
counted-AreWhole = (((7, inl refl), ((5, inl refl), tt)), ((2, refl), ((1, refl), tt)))

bundle_availability_exact_example :
    let r = get_bundle_available_stock 1 levels (component 10 2000 ∷ component 11 1000 ∷ []) in
    ((r.is_unlimited ≡ true) ⊎ (pos (3 * 1_000_000) ≤ℤ r.quantity)) ↔ (
      (f : Fulfilment) × (take_bundle 1
          (3 * 1000)
          (component 10 2000 ∷ component 11 1000 ∷ [])
          levels
        ≡ ok f))
bundle_availability_exact_example =
    bundle_availability_exact 1 3 levels (component 10 2000) (component 11 1000 ∷ [])
      counted-AreWhole levels-IsKeyed (omega arith) components_positive components-AreApart
