-- ===== src/Products/Catalogue/Composition.antt =====
-- The prices of the bundles after a component is added or removed.
use punto_de_venta_local_con.Base.{
  ℕ, ◌≡◌, refl, sym, ap, subst, ◌∙◌, false, not, some, arith, ◌==◌, Bool-cases, ⊤, inl, inr,
}
use punto_de_venta_local_con.Base.Lists.{find}
use punto_de_venta_local_con.Base.Outcome.{
  Result, ok, ◌>>=◌, ◌>>◌, >>=-eq-ok, >>-eq-ok, throw_if-eq-ok, or_throw-eq-ok, ok-injective,
  throw_if, bad_request, not_a_bundle, bundle_in_bundle, bundle_of_itself, not_found,
  component_missing, bundle_item_missing, or_throw,
}
use punto_de_venta_local_con.Schema.{Database, Product, BundleItem, is_bundle}
use punto_de_venta_local_con.Orders.Lines.Moves.{HasUniqueIds}
use punto_de_venta_local_con.Products.BundlePricing.{recalculate_one}
use punto_de_venta_local_con.Products.BundlePricing.Stable.{IsFlat}
use punto_de_venta_local_con.Products.Catalogue.{
  BundleItemDto, new_item, with_item, without_item, insert_item, run_unique, has_item,
  component_variant_exists, create_bundle_item_in_tx, assert_product_exists, add_bundle_item,
  remove_bundle_item,
}
use punto_de_venta_local_con.Products.Catalogue.Items.{
  HasUniqueItems, KeepsPrices, has_component-without, no_bundle_of_id, recalculated-KeepsPrices,
  with_item-IsFlat, with_item-IsPriced, without_item-IsPriced,
}

inserted-eq :
    (bundle : ℕ) (dto : BundleItemDto) (db : Database) {created : BundleItem × Database}
    → run_unique (insert_item bundle dto db) ≡ ok created
    → created.1 ≡ with_item (new_item bundle dto db) db
unfolding insert_item
inserted-eq bundle dto db e =
    elim (Bool-cases (has_item bundle dto.component_product_id db.bundle_items)) [
      | inl taken ↦ ground arith
      | inr free ↦
          let made = new_item bundle dto db in
          let done : run_unique (insert_item bundle dto db) ≡ ok (made, with_item made db) =
            rw free refl in
          ap (λ (c : BundleItem × Database). c.1) (ok-injective (sym e ∙ done))
    ]

pub created-eq :
    (bundle : ℕ) (dto : BundleItemDto) (db : Database) {created : BundleItem × Database}
    → create_bundle_item_in_tx bundle dto db ≡ ok created
    → (p : Product) × (find (λ q. q.id == dto.component_product_id) db.products ≡ some p)
      × (is_bundle p.product_type ≡ false)
      × (created.1 ≡ with_item (new_item bundle dto db) db)
unfolding create_bundle_item_in_tx
created-eq bundle dto db e =
    let insert = component_variant_exists dto db >> run_unique (insert_item bundle dto db) in
    let flat : Product → Result ⊤ =
      λ component. throw_if (is_bundle component.product_type) (bad_request bundle_in_bundle) in
    let component =
      or_throw (find (λ p. p.id == dto.component_product_id) db.products)
        (not_found component_missing) in
    let (other, e1) =
      >>-eq-ok (throw_if (dto.component_product_id == bundle) (bad_request bundle_of_itself))
        (component >>= λ c. flat c >> insert) e in
    let (p, found, e2) = >>=-eq-ok component (λ c. flat c >> insert) e1 in
    let (simple, e3) = >>-eq-ok (flat p) insert e2 in
    let (variant, e4) =
      >>-eq-ok (component_variant_exists dto db) (run_unique (insert_item bundle dto db)) e3 in
    (
      p,
      or_throw-eq-ok (find (λ p. p.id == dto.component_product_id) db.products)
          (not_found component_missing) found,
      throw_if-eq-ok (is_bundle p.product_type) (bad_request bundle_in_bundle) simple,
      inserted-eq bundle dto db e4,
    )

pub add_bundle_item-KeepsPrices :
    (bundle : ℕ) (dto : BundleItemDto) (db : Database) {item : BundleItem} {db' : Database}
    → HasUniqueIds db
    → IsFlat db
    → add_bundle_item bundle dto db ≡ ok (item, db')
    → KeepsPrices db db'
unfolding add_bundle_item
add_bundle_item-KeepsPrices bundle dto db {db' = db'} unique flat e =
    let priced : BundleItem × Database → Result (BundleItem × Database) =
      λ created. ok (created.0, (recalculate_one bundle created.1).1) in
    let insert = create_bundle_item_in_tx bundle dto db >>= priced in
    let checked : Product → Result ⊤ =
      λ product. throw_if (not (is_bundle product.product_type)) (bad_request not_a_bundle) in
    let (product, found, e1) =
      >>=-eq-ok (assert_product_exists bundle db) (λ product. checked product >> insert) e in
    let (shape, e2) = >>-eq-ok (checked product) insert e1 in
    let (created, made, e3) = >>=-eq-ok (create_bundle_item_in_tx bundle dto db) priced e2 in
    let (p, component, simple, same) = created-eq bundle dto db made in
    let after : (recalculate_one bundle (with_item (new_item bundle dto db) db)).1 ≡ db' =
      ap (λ d. (recalculate_one bundle d).1) (sym same) ∙ ap (λ r. r.1) (ok-injective e3) in
    subst (KeepsPrices db) after (
      recalculated-KeepsPrices bundle db (with_item (new_item bundle dto db) db)
        (with_item-IsFlat (new_item bundle dto db) db flat (
          no_bundle_of_id dto.component_product_id p db.products (unique dto.component_product_id)
            component simple))
        (λ x ne. with_item-IsPriced x (new_item bundle dto db) db ne))

pub remove_bundle_item-KeepsPrices :
    (id : ℕ) (db : Database) {db' : Database}
    → HasUniqueItems db
    → IsFlat db
    → remove_bundle_item id db ≡ ok db'
    → KeepsPrices db db'
unfolding remove_bundle_item
remove_bundle_item-KeepsPrices id db unique flat e =
    let row = or_throw (find (λ bi. bi.id == id) db.bundle_items) (not_found bundle_item_missing) in
    let after : BundleItem → Result Database =
      λ item. ok (recalculate_one item.bundle_product_id (without_item id db)).1 in
    let (item, found, e1) = >>=-eq-ok row after e in
    subst (KeepsPrices db) (ok-injective e1) (
      recalculated-KeepsPrices item.bundle_product_id db (without_item id db)
        (λ b h. has_component-without b id db.bundle_items (flat b h))
        (λ x ne.
          without_item-IsPriced x id db unique
            (or_throw-eq-ok (find (λ bi. bi.id == id) db.bundle_items)
              (not_found bundle_item_missing) found)
            ne))
