-- ===== src/Purchases/Tests.antt =====
-- A purchase of soda for the shop of apps/api/src/orders.
use punto_de_venta_local_con.Base.{ℕ, ◌≡◌, refl, none, some, [], ◌∷◌}
use punto_de_venta_local_con.Base.Outcome.{ok}
use punto_de_venta_local_con.Schema.{Database, Product, ProductVariant, Purchase}
use punto_de_venta_local_con.Orders.Tests.{shop, seller, value_or}
use punto_de_venta_local_con.Purchases.{CreatePurchaseDto, PurchaseCreated, attempt_create_purchase}
use punto_de_venta_local_con.Purchases.Costs.{
  find_product, find_row, product_cost_after, variant_cost_after, purchase_costs,
}

abbrev stocked : Database
stocked = record shop { suppliers = record { id = 40 } ∷ [] }

-- A dozen sodas at 5.50, and six more at 5.80.
abbrev delivery : CreatePurchaseDto
delivery = record {
  store_id = 1;
  supplier_id = 40;
  invoice_number = none;
  notes = none;
  items =
      record { product_id = 10; variant_id = none; quantity = 12_000; unit_cost = 550 }
      ∷ record { product_id = 10; variant_id = none; quantity = 6000; unit_cost = 580 }
      ∷ [];
}

abbrev no_purchase : Purchase
no_purchase = record {
  id = 0;
  store_id = 0;
  supplier_id = 0;
  user_id = 0;
  purchase_number = 0;
  invoice_number = none;
  total = 0;
  notes = none;
  items = [];
}

abbrev delivered : PurchaseCreated
unfolding attempt_create_purchase
delivered =
    value_or (record { purchase = no_purchase; sync = []; database = shop })
      (attempt_create_purchase [] seller delivery stocked)

delivery-made : attempt_create_purchase [] seller delivery stocked ≡ ok delivered
unfolding attempt_create_purchase delivered
delivery-made = refl

purchase_costs_example :
    ((id : ℕ) (p : Product)
      → find_product id stocked.products ≡ some p
      → find_product id delivered.database.products
        ≡ some
            (record p { cost_price = product_cost_after id p.cost_price delivered.purchase.items }))
    × ((id : ℕ) (v : ProductVariant)
        → find_row id stocked.variants ≡ some v
        → find_row id delivered.database.variants
          ≡ some (record v {
            cost_price = variant_cost_after id v.cost_price delivered.purchase.items;
          }))
purchase_costs_example =
    purchase_costs [] seller delivery stocked {created = delivered} delivery-made
