-- ===== src/Products/Tests.antt =====
-- A raise of all prices by a tenth, a component added to a bundle that follows its components, and a
-- component's price edited.
use punto_de_venta_local_con.Base.{ℕ, ◌≡◌, refl, none, some, true, [], ◌∷◌, ◌++◌, arith}
use punto_de_venta_local_con.Base.Int.{pos, ◌+ℤ◌}
use punto_de_venta_local_con.Base.Lists.{filter, length}
use punto_de_venta_local_con.Schema.{
  Database, Product, BundleItem, ProductType, derived, manual, iva_21,
}
use punto_de_venta_local_con.Orders.Tests.{shop}
use punto_de_venta_local_con.Orders.Lines.{bundle_components}
use punto_de_venta_local_con.Orders.Lines.Moves.{HasUniqueIds, product_rows}
use punto_de_venta_local_con.Products.BundlePricing.{
  compute_derived_price, recalculate_one, recalculate_for_components,
}
use punto_de_venta_local_con.Products.BundlePricing.Stable.{IsFlat}
use punto_de_venta_local_con.Products.BundlePricing.Recalculated.{IsPriced}
use punto_de_venta_local_con.Base.Outcome.{ok}
use punto_de_venta_local_con.Products.Catalogue.{
  BundleItemDto, UpdateProductDto, new_item, with_item, assert_category_exists,
  create_bundle_item_in_tx, add_bundle_item, update, price_syncs,
}
use punto_de_venta_local_con.Products.Catalogue.Items.{HasUniqueItems}
use punto_de_venta_local_con.Products.Catalogue.Priced.{added, Edit-IsPriced}
use punto_de_venta_local_con.Products.Catalogue.Synced.{price_at, update_syncs}
use punto_de_venta_local_con.Products.Creation.{
  CreateProductDto, new_product, create_product, create_items,
}
use punto_de_venta_local_con.Products.Creation.Rows.{variants_count, items_count, levels_count}
use punto_de_venta_local_con.Products.Creation.Shape.{IsShaped, create_shape}
use punto_de_venta_local_con.Products.BulkPrice.{BulkPriceUpdateDto, percent, is_target, apply}
use punto_de_venta_local_con.Products.BulkPrice.Applied.{bulk_apply-IsPriced}

abbrev loaf : Product
loaf = record {
  id = 11;
  sku = "BREAD";
  barcode = none;
  name = "Bread";
  product_type = ProductType.simple;
  cost_price = 600;
  price = 1000;
  vat_condition = iva_21;
  track_stock = true;
  is_active = true;
  bundle_pricing_mode = manual;
  bundle_discount_percent = none;
  category_id = none;
}

-- Two loaves at a tenth less.
abbrev pair : Product
pair = record loaf {
  id = 12;
  sku = "PAIR";
  product_type = ProductType.bundle;
  price = 1800;
  bundle_pricing_mode = derived;
  bundle_discount_percent = some 1000;
}

abbrev catalogue : Database
catalogue = record shop { products = loaf ∷ pair ∷ [] }

abbrev raise : BulkPriceUpdateDto
raise = record { category_id = none; mode = percent; value = pos 1000 }

raised :
    (apply raise catalogue).database.products
    ≡ record loaf { price = 1100 } ∷ record pair { price = 1980 } ∷ []
unfolding apply ◌+ℤ◌ compute_derived_price bundle_components
raised = refl

catalogue-HasUniqueIds : HasUniqueIds catalogue
unfolding product_rows
catalogue-HasUniqueIds id = ground arith

catalogue-IsFlat : IsFlat catalogue
catalogue-IsFlat b h = ground arith

bulk_apply-IsPriced_example :
    ((x : ℕ) → IsPriced x catalogue → IsPriced x (apply raise catalogue).database)
    × ((apply raise catalogue).updated ≡ length (filter (is_target raise) catalogue.products))
bulk_apply-IsPriced_example =
    bulk_apply-IsPriced raise catalogue catalogue-HasUniqueIds catalogue-IsFlat

abbrev jam : Product
jam = record loaf { id = 13; sku = "JAM"; price = 500 }

abbrev larder : Database
larder = record shop { products = loaf ∷ pair ∷ jam ∷ [] }

abbrev one_jam : BundleItemDto
one_jam = record { component_product_id = 13; component_variant_id = none; quantity = 1000 }

abbrev larder_after : Database
larder_after = record (with_item (new_item 12 one_jam larder) larder) {
  products = loaf ∷ record pair { price = 2250 } ∷ jam ∷ [];
}

jam_added : add_bundle_item 12 one_jam larder ≡ ok (new_item 12 one_jam larder, larder_after)
unfolding add_bundle_item recalculate_one compute_derived_price bundle_components
jam_added = refl

larder-HasUniqueIds : HasUniqueIds larder
unfolding product_rows
larder-HasUniqueIds id = ground arith

larder-HasUniqueItems : HasUniqueItems larder
larder-HasUniqueItems id = ground arith

larder-IsFlat : IsFlat larder
larder-IsFlat b h = ground arith

Edit-IsPriced_example :
    IsFlat larder_after × ((x : ℕ) → IsPriced x larder → IsPriced x larder_after)
Edit-IsPriced_example =
    Edit-IsPriced larder larder_after larder-HasUniqueIds larder-HasUniqueItems larder-IsFlat
      (added 12 one_jam (new_item 12 one_jam larder) jam_added)

abbrev dearer : UpdateProductDto
dearer = record {
  category_id = none;
  barcode = some "779";
  name = none;
  cost_price = none;
  price = some 1200;
  vat_condition = none;
  is_active = none;
  bundle_pricing_mode = none;
  bundle_discount_percent = none;
}

abbrev loaf_dearer : Database
loaf_dearer = record shop {
  products =
      record loaf { price = 1200; barcode = some "779" } ∷ record pair { price = 2160 } ∷ jam ∷ [];
}

loaf_updated :
    update 11 dearer larder ≡ ok (record { product_id = 12; price = 2160 } ∷ [], loaf_dearer)
unfolding update recalculate_one recalculate_for_components compute_derived_price bundle_components
loaf_updated = refl

update_syncs_example : price_at 13 loaf_dearer ≡ price_at 13 larder
unfolding price_syncs
update_syncs_example =
    update_syncs 13 11 dearer larder (record { product_id = 12; price = 2160 } ∷ []) loaf_dearer
      loaf_updated refl

-- A hamper of two loaves and a jam.
abbrev hamper : CreateProductDto
hamper = record {
  category_id = none;
  sku = "HAMPER";
  barcode = none;
  name = "Hamper";
  product_type = ProductType.bundle;
  cost_price = 0;
  price = 2400;
  vat_condition = iva_21;
  track_stock = some true;
  variants = [];
  bundle_items =
      record { component_product_id = 11; component_variant_id = none; quantity = 2000 }
      ∷ one_jam
      ∷ [];
  initial_stock = [];
}

abbrev first_item : BundleItem
first_item = record {
  id = 101;
  bundle_product_id = 100;
  component_product_id = 11;
  component_variant_id = none;
  quantity = 2000;
}

abbrev second_item : BundleItem
second_item = record first_item { id = 102; component_product_id = 13; quantity = 1000 }

abbrev with_hamper : Database
with_hamper = record larder {
  products = loaf ∷ pair ∷ jam ∷ new_product hamper larder ∷ [];
  bundle_items = larder.bundle_items ++ first_item ∷ second_item ∷ [];
  next_id = 103;
}

hamper_created : create_product (ok tt) hamper larder ≡ ok (new_product hamper larder, with_hamper)
unfolding create_product create_items create_bundle_item_in_tx assert_category_exists
hamper_created = refl

create_shape_example :
    (variants_count 100 with_hamper ≡ 0)
    × (items_count 100 with_hamper ≡ 2)
    × (levels_count 100 with_hamper ≡ 0)
    × IsShaped ProductType.bundle
        (variants_count 100 with_hamper)
        (items_count 100 with_hamper)
        (levels_count 100 with_hamper)
create_shape_example =
    create_shape (ok tt) hamper larder (new_product hamper larder) with_hamper (refl, refl, refl)
      hamper_created
