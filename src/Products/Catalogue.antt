-- ===== src/Products/Catalogue.antt =====
-- apps/api/src/products/products.service.ts: the edits of a product and of a bundle's composition.
pub mod Items
pub mod Composition
pub mod Renamed
pub mod Written
pub mod Priced
pub mod Synced
use text.Mathlib.Text
use punto_de_venta_local_con.Base.{
  ℕ, suc, ◌+◌, Bool, true, false, not, ◌&&◌, Option, none, some, List, [], ◌∷◌, ◌++◌, String, ◌==◌,
  if◌then◌else◌, or_else, is_some, ⊤,
}
use punto_de_venta_local_con.Base.Lists.{find, filter, any}
use punto_de_venta_local_con.Base.Outcome.{
  Result, Error, ok, err, not_found, bad_request, conflict, unique_violation, product_missing,
  category_missing, not_a_bundle, bundle_of_itself, component_missing, component_variant_missing,
  bundle_in_bundle, price_is_derived, product_taken, bundle_item_missing, ◌>>=◌, ◌>>◌, throw_if,
  or_throw,
}
use punto_de_venta_local_con.Schema.{
  Database, Product, BundleItem, BundlePricingMode, VatCondition, is_bundle,
}
use punto_de_venta_local_con.Products.BundlePricing.{
  Repriced, is_derived, update_product, assert_can_use_derived, recalculate_one,
  recalculate_for_components,
}

-- `CreateBundleItemDto`
pub record BundleItemDto : Type 0 where
  pub component_product_id : ℕ
  pub component_variant_id : Option ℕ
  pub quantity : ℕ

-- `UpdateProductDto`; what is absent is left as it is.
pub record UpdateProductDto : Type 0 where
  pub category_id : Option ℕ
  pub barcode : Option String
  pub name : Option String
  pub cost_price : Option ℕ
  pub price : Option ℕ
  pub vat_condition : Option VatCondition
  pub is_active : Option Bool
  pub bundle_pricing_mode : Option BundlePricingMode
  pub bundle_discount_percent : Option ℕ

abbrev pub present {ℓ} : {A : Type ℓ} → Option A → Option A → Option A
present none old = old
present (some new) old = some new

-- `assertProductExists`
abbrev pub assert_product_exists : ℕ → Database → Result Product
assert_product_exists id db =
    or_throw (find (λ p. p.id == id) db.products) (not_found product_missing)

-- `if (dto.categoryId) await assertCategoryExists(...)`
unfoldable pub assert_category_exists : Option ℕ → Database → Result ⊤
assert_category_exists none db = ok tt
assert_category_exists (some id) db =
    throw_if (not (any (λ c. c.id == id) db.categories)) (not_found category_missing)

-- `runUnique`
abbrev pub run_unique {ℓ} : {A : Type ℓ} → Result A → Result A
run_unique (ok a) = ok a
run_unique (err unique_violation) = err (conflict product_taken)
run_unique (err e) = err e

-- `bundleItem.create`, under the unique index of a bundle and its component.
abbrev pub has_item : ℕ → ℕ → List BundleItem → Bool
has_item bundle component =
    any (λ bi. bi.bundle_product_id == bundle && bi.component_product_id == component)

abbrev pub new_item : ℕ → BundleItemDto → Database → BundleItem
new_item bundle dto db = record {
  id = db.next_id;
  bundle_product_id = bundle;
  component_product_id = dto.component_product_id;
  component_variant_id = dto.component_variant_id;
  quantity = dto.quantity;
}

abbrev pub with_item : BundleItem → Database → Database
with_item item db = record db {
  bundle_items = db.bundle_items ++ item ∷ [];
  next_id = suc db.next_id;
}

unfoldable pub insert_item : ℕ → BundleItemDto → Database → Result (BundleItem × Database)
insert_item bundle dto db =
    if has_item bundle dto.component_product_id db.bundle_items
    then err unique_violation
    else ok (new_item bundle dto db, with_item (new_item bundle dto db) db)

-- `if (dto.componentVariantId) ...`, the variant being one of the component's.
unfoldable pub component_variant_exists : BundleItemDto → Database → Result ⊤
component_variant_exists dto db = elim dto.component_variant_id [
  | none ↦ ok tt
  | some id ↦
      throw_if (not (any (λ v. v.id == id && v.product_id == dto.component_product_id) db.variants))
        (not_found component_variant_missing)
]

-- `createBundleItemInTx`
unfoldable pub create_bundle_item_in_tx :
    ℕ → BundleItemDto → Database → Result (BundleItem × Database)
unfolding insert_item component_variant_exists
create_bundle_item_in_tx bundle dto db =
    throw_if (dto.component_product_id == bundle) (bad_request bundle_of_itself)
    >> (or_throw (find (λ p. p.id == dto.component_product_id) db.products)
          (not_found component_missing)
        >>= λ component.
            throw_if (is_bundle component.product_type) (bad_request bundle_in_bundle)
            >> (component_variant_exists dto db >> run_unique (insert_item bundle dto db)))

-- `addBundleItem`
unfoldable pub add_bundle_item : ℕ → BundleItemDto → Database → Result (BundleItem × Database)
unfolding create_bundle_item_in_tx
add_bundle_item bundle dto db = assert_product_exists bundle db >>= λ product.
    throw_if (not (is_bundle product.product_type)) (bad_request not_a_bundle)
    >> (create_bundle_item_in_tx bundle dto db >>= λ created.
        ok (created.0, (recalculate_one bundle created.1).1))

abbrev pub without_item : ℕ → Database → Database
without_item id db = record db { bundle_items = filter (λ bi. not (bi.id == id)) db.bundle_items }

-- `removeBundleItem`
unfoldable pub remove_bundle_item : ℕ → Database → Result Database
remove_bundle_item id db =
    or_throw (find (λ bi. bi.id == id) db.bundle_items) (not_found bundle_item_missing) >>= λ item.
    ok (recalculate_one item.bundle_product_id (without_item id db)).1

-- `data: dto`
abbrev pub edited : UpdateProductDto → Product → Product
edited dto p = record p {
  category_id = present dto.category_id p.category_id;
  barcode = present dto.barcode p.barcode;
  name = or_else dto.name p.name;
  cost_price = or_else dto.cost_price p.cost_price;
  price = or_else dto.price p.price;
  vat_condition = or_else dto.vat_condition p.vat_condition;
  is_active = or_else dto.is_active p.is_active;
  bundle_pricing_mode = or_else dto.bundle_pricing_mode p.bundle_pricing_mode;
  bundle_discount_percent = present dto.bundle_discount_percent p.bundle_discount_percent;
}

-- The unique index of the barcode, which a null barcode does not enter.
abbrev pub has_code : String → Option String → Bool
has_code code none = false
has_code code (some other) = Text.◌==◌ code other

abbrev pub barcode_taken : ℕ → Option String → List Product → Bool
barcode_taken id none products = false
barcode_taken id (some code) products =
    any (λ p. not (p.id == id) && has_code code p.barcode) products

-- `product.update({ where: { id }, data: dto })`
unfoldable pub write_product : ℕ → UpdateProductDto → Database → Result Database
write_product id dto db =
    if barcode_taken id dto.barcode db.products
    then err unique_violation
    else ok (update_product id (edited dto) db)

-- `willBeDerived`
abbrev pub will_be_derived : Product → UpdateProductDto → Bool
will_be_derived existing dto =
    is_bundle existing.product_type
    && is_derived (or_else dto.bundle_pricing_mode existing.bundle_pricing_mode)

-- `if (willBeDerived) ...`
unfoldable pub check_derived : Product → ℕ → UpdateProductDto → Database → Result ⊤
unfolding assert_can_use_derived
check_derived existing id dto db =
    if will_be_derived existing dto
    then assert_can_use_derived id db >> throw_if (is_some dto.price) (bad_request price_is_derived)
    else ok tt

-- The bundles that contain the product, if its price was written.
unfoldable pub recalculate_containing : Option ℕ → ℕ → Database → List Repriced × Database
recalculate_containing none id db = ([], db)
recalculate_containing (some price) id db = recalculate_for_components (id ∷ []) db

unfoldable pub recalculate_after : UpdateProductDto → ℕ → Database → List Repriced × Database
unfolding recalculate_containing
recalculate_after dto id db =
    let own = recalculate_one id db in
    let containing = recalculate_containing dto.price id own.1 in
    (own.0 ++ containing.0, containing.1)

-- The transaction of `update`, with the bundles recalculated.
unfoldable pub update : ℕ → UpdateProductDto → Database → Result (List Repriced × Database)
unfolding assert_category_exists check_derived write_product recalculate_after
update id dto db = assert_product_exists id db >>= λ existing.
    assert_category_exists dto.category_id db
    >> (check_derived existing id dto db
        >> (run_unique (write_product id dto db) >>= λ written.
            ok (recalculate_after dto id written)))

-- `if (dto.price !== undefined) enqueuePriceSync(tenantId, id, product.price)`
abbrev pub own_sync : Option ℕ → ℕ → List Product → List Repriced
own_sync none id products = []
own_sync (some written) id products = elim (find (λ p. p.id == id) products) [
  | none ↦ []
  | some p ↦ record { product_id = id; price = p.price } ∷ []
]

-- The price syncs after it: the product's own, then the bundles'.
unfoldable pub price_syncs : UpdateProductDto → ℕ → List Repriced × Database → List Repriced
price_syncs dto id (recalculated, db) =
    own_sync dto.price id db.products
    ++ filter (λ r. not (r.product_id == id && is_some dto.price)) recalculated
