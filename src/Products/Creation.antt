-- ===== src/Products/Creation.antt =====
-- create, addVariant and their helpers of apps/api/src/products/products.service.ts.
pub mod Rows
pub mod Shape
use text.Mathlib.Text
use punto_de_venta_local_con.Base.{
  ℕ, suc, ◌+◌, Bool, true, false, not, ◌||◌, ◌&&◌, Option, none, some, List, [], ◌∷◌, ◌++◌, String,
  ◌==◌, if◌then◌else◌, or_else, ⊤,
}
use punto_de_venta_local_con.Base.Int.{pos}
use punto_de_venta_local_con.Base.Lists.{find, filter, any, length}
use punto_de_venta_local_con.Base.Outcome.{
  Result, ok, err, not_found, bad_request, unique_violation, store_missing, simple_has_variants,
  simple_has_components, variable_needs_variants, variable_has_barcode, variable_has_components,
  bundle_needs_components, bundle_has_variants, bundle_has_stock, not_variable, ◌>>=◌, ◌>>◌,
  throw_if,
}
use punto_de_venta_local_con.Schema.{
  Database, Product, ProductVariant, ProductType, StockLevel, VatCondition, manual,
}
use punto_de_venta_local_con.Products.Catalogue.{
  BundleItemDto, assert_product_exists, assert_category_exists, run_unique,
  create_bundle_item_in_tx, has_code,
}

-- `StockEntryDto`
pub record StockEntryDto : Type 0 where
  pub store_id : ℕ
  pub quantity : ℕ
  pub min_alert_stock : Option ℕ

-- `CreateVariantDto`
pub record CreateVariantDto : Type 0 where
  pub sku : String
  pub barcode : Option String
  pub attributes : List String
  pub price : Option ℕ
  pub cost_price : Option ℕ
  pub initial_stock : List StockEntryDto

-- `CreateProductDto`; an array that is absent is empty.
pub record CreateProductDto : Type 0 where
  pub category_id : Option ℕ
  pub sku : String
  pub barcode : Option String
  pub name : String
  pub product_type : ProductType
  pub cost_price : ℕ
  pub price : ℕ
  pub vat_condition : VatCondition
  pub track_stock : Option Bool
  pub variants : List CreateVariantDto
  pub bundle_items : List BundleItemDto
  pub initial_stock : List StockEntryDto

-- `array?.length`
abbrev pub has_rows {ℓ} : {A : Type ℓ} → List A → Bool
has_rows [] = false
has_rows (x ∷ xs) = true

-- `if (dto.barcode)`, false for the empty text.
abbrev pub has_text : Option String → Bool
has_text none = false
has_text (some text) = not (Text.◌==◌ text "")

-- `assertTypeShape`
unfoldable pub assert_shape_of : ProductType → CreateProductDto → Result ⊤
assert_shape_of ProductType.simple dto =
    throw_if (has_rows dto.variants) (bad_request simple_has_variants)
    >> throw_if (has_rows dto.bundle_items) (bad_request simple_has_components)
assert_shape_of ProductType.variable dto =
    throw_if (not (has_rows dto.variants)) (bad_request variable_needs_variants)
    >> (throw_if (has_text dto.barcode) (bad_request variable_has_barcode)
        >> throw_if (has_rows dto.bundle_items) (bad_request variable_has_components))
assert_shape_of ProductType.bundle dto =
    throw_if (not (has_rows dto.bundle_items)) (bad_request bundle_needs_components)
    >> (throw_if (has_rows dto.variants) (bad_request bundle_has_variants)
        >> throw_if (has_rows dto.initial_stock) (bad_request bundle_has_stock))

abbrev pub assert_type_shape : CreateProductDto → Result ⊤
assert_type_shape dto = assert_shape_of dto.product_type dto

-- `stockLevel.create`; the unique index of the targets takes two rows with a null column for
-- different, and every row has one.
abbrev pub with_level : Option ℕ → Option ℕ → StockEntryDto → Database → Database
with_level product variant entry db = record db {
  stock_levels =
      db.stock_levels
      ++ record {
        store_id = entry.store_id;
        product_id = product;
        variant_id = variant;
        quantity = pos entry.quantity;
        min_alert_stock = entry.min_alert_stock;
      }
        ∷ [];
}

-- The loop over `initialStock`.
unfoldable pub create_levels : Option ℕ → Option ℕ → List StockEntryDto → Database → Result Database
create_levels product variant [] db = ok db
create_levels product variant (entry ∷ entries) db =
    throw_if (not (any (λ s. s.id == entry.store_id) db.stores)) (not_found store_missing)
    >> create_levels product variant entries (with_level product variant entry db)

-- `productVariant.create`, under the unique indices of the SKU and of the barcode.
abbrev pub same_code : Option String → Option String → Bool
same_code none other = false
same_code (some code) other = has_code code other

abbrev pub variant_taken : CreateVariantDto → List ProductVariant → Bool
variant_taken dto = any (λ v. Text.◌==◌ v.sku dto.sku || same_code dto.barcode v.barcode)

abbrev pub new_variant : ℕ → CreateVariantDto → Database → ProductVariant
new_variant product dto db = record {
  id = db.next_id;
  product_id = product;
  sku = dto.sku;
  barcode = dto.barcode;
  attributes = dto.attributes;
  price = dto.price;
  cost_price = dto.cost_price;
}

unfoldable pub insert_variant : ℕ → CreateVariantDto → Database → Result Database
insert_variant product dto db =
    if variant_taken dto db.variants
    then err unique_violation
    else ok (record db {
      variants = db.variants ++ new_variant product dto db ∷ [];
      next_id = suc db.next_id;
    })

-- `createVariantInTx`
unfoldable pub create_variant_in_tx :
    ℕ → CreateVariantDto → Database → Result (ProductVariant × Database)
unfolding insert_variant create_levels
create_variant_in_tx product dto db = run_unique (insert_variant product dto db) >>= λ inserted.
    create_levels none (some db.next_id) dto.initial_stock inserted >>= λ stocked.
    ok (new_variant product dto db, stocked)

unfoldable pub create_variants : ℕ → List CreateVariantDto → Database → Result Database
unfolding create_variant_in_tx
create_variants product [] db = ok db
create_variants product (dto ∷ dtos) db =
    create_variant_in_tx product dto db >>= λ created. create_variants product dtos created.1

unfoldable pub create_items : ℕ → List BundleItemDto → Database → Result Database
create_items product [] db = ok db
create_items product (dto ∷ dtos) db =
    create_bundle_item_in_tx product dto db >>= λ created. create_items product dtos created.1

-- What is created with a product of each type.
unfoldable pub create_rows : ProductType → ℕ → CreateProductDto → Database → Result Database
unfolding create_variants create_items create_levels
create_rows ProductType.variable id dto db = create_variants id dto.variants db
create_rows ProductType.bundle id dto db = create_items id dto.bundle_items db
create_rows ProductType.simple id dto db = create_levels (some id) none dto.initial_stock db

abbrev pub tracked_by_type : ProductType → Option Bool → Bool
tracked_by_type ProductType.bundle track = false
tracked_by_type _ track = or_else track true

abbrev pub barcode_by_type : ProductType → Option String → Option String
barcode_by_type ProductType.variable barcode = none
barcode_by_type _ barcode = barcode

abbrev pub new_product : CreateProductDto → Database → Product
new_product dto db = record {
  id = db.next_id;
  sku = dto.sku;
  barcode = barcode_by_type dto.product_type dto.barcode;
  name = dto.name;
  product_type = dto.product_type;
  cost_price = dto.cost_price;
  price = dto.price;
  vat_condition = dto.vat_condition;
  track_stock = tracked_by_type dto.product_type dto.track_stock;
  is_active = true;
  bundle_pricing_mode = manual;
  bundle_discount_percent = none;
  category_id = dto.category_id;
}

-- `product.create`, under the unique indices of the SKU and of the barcode.
abbrev pub product_taken_by : Product → List Product → Bool
product_taken_by new = any (λ p. Text.◌==◌ p.sku new.sku || same_code new.barcode p.barcode)

unfoldable pub insert_product : CreateProductDto → Database → Result Database
insert_product dto db =
    if product_taken_by (new_product dto db) db.products
    then err unique_violation
    else ok
        (record db { products = db.products ++ new_product dto db ∷ []; next_id = suc db.next_id })

-- `create`, for the answer of `assertQuota`; no later step writes the row of the product.
unfoldable pub create_product : Result ⊤ → CreateProductDto → Database → Result (Product × Database)
unfolding assert_shape_of insert_product create_rows
create_product quota dto db =
    assert_type_shape dto
    >> (quota
        >> (assert_category_exists dto.category_id db
            >> (run_unique (insert_product dto db) >>= λ inserted.
                create_rows dto.product_type db.next_id dto inserted >>= λ filled.
                ok (new_product dto db, filled))))

abbrev pub is_variable : ProductType → Bool
is_variable ProductType.variable = true
is_variable _ = false

-- `addVariant`
unfoldable pub add_variant : ℕ → CreateVariantDto → Database → Result (ProductVariant × Database)
unfolding create_variant_in_tx
add_variant id dto db = assert_product_exists id db >>= λ product.
    throw_if (not (is_variable product.product_type)) (bad_request not_variable)
    >> create_variant_in_tx id dto db
