-- ===== src/Products/Catalogue/Written.antt =====
-- The prices of the bundles after a product is edited.
use punto_de_venta_local_con.Base.{
  ℕ, ◌≡◌, refl, sym, ap, subst, ◌∙◌, true, Option, none, some, List, [], ◌∷◌, arith, ◌==◌,
  Bool-cases, inl, inr,
}
use punto_de_venta_local_con.Base.Lists.{filter}
use punto_de_venta_local_con.Base.Outcome.{
  Result, ok, or_throw-eq-ok, not_found, product_missing, ◌>>=◌, ◌>>◌, >>=-eq-ok, >>-eq-ok,
  ok-injective,
}
use punto_de_venta_local_con.Base.Lists.{find}
use punto_de_venta_local_con.Schema.{Database, Product, BundleItem}
use punto_de_venta_local_con.Products.BundlePricing.{update_product, recalculate_one, Repriced}
use punto_de_venta_local_con.Products.BundlePricing.Stable.{
  IsFlat, KeepsKind, has_component, items_of, update_product-IsFlat,
}
use punto_de_venta_local_con.Products.BundlePricing.Recalculated.{
  IsPriced, recalculate_one-Recalculates, update_product-IsPriced,
}
use punto_de_venta_local_con.Products.BundlePricing.Affected.{
  touches, recalculate_for_components-IsPriced,
}
use punto_de_venta_local_con.Products.Catalogue.{
  UpdateProductDto, run_unique, assert_product_exists, edited, write_product, recalculate_after,
  recalculate_containing, update, assert_category_exists, check_derived, barcode_taken,
}
use punto_de_venta_local_con.Products.Catalogue.Items.{KeepsPrices, recalculated-KeepsPrices}
use punto_de_venta_local_con.Products.Catalogue.Renamed.{
  KeepsPrice, edit-IsPriced, edited-KeepsKind, edited-KeepsPrice,
}

-- A bundle either contains the product or has its own price as before.
touches-single :
    (id x : ℕ) (items : List BundleItem)
    → has_component id (filter (λ bi. bi.bundle_product_id == x) items) ≡ true
    → touches (id ∷ []) x items ≡ true
touches-single id x [] h = cc
touches-single id x (bi ∷ items) h = ground (arith, touches-single id x items)

-- The recalculations after the write of the product.
containing-KeepsPrices :
    (written : Option ℕ) (id : ℕ) (f : Product → Product) (db : Database)
    → KeepsKind f
    → (written ≡ none → KeepsPrice f)
    → IsFlat db
    → KeepsPrices db
        (recalculate_containing written id (recalculate_one id (update_product id f db)).1).1
unfolding recalculate_containing
containing-KeepsPrices none id f db keeps price flat =
    recalculated-KeepsPrices id db (update_product id f db)
      (update_product-IsFlat id f db keeps flat)
      (λ x ne. edit-IsPriced x id f db keeps (price refl) ne)
containing-KeepsPrices (some written) id f db keeps price flat =
    let mid = update_product id f db in
    let own = recalculate_one-Recalculates id mid (update_product-IsFlat id f db keeps flat) in
    let next = (recalculate_one id mid).1 in
    let (flat', items, manuals, after) =
      recalculate_for_components-IsPriced (id ∷ []) next own.flat in
    (
      flat',
      λ x priced. elim (Bool-cases (x == id)) [
        | inl same ↦
            let e : id ≡ x = ground arith in after x (inr (subst (λ y. IsPriced y next) e own.own))
        | inr other ↦ elim (Bool-cases (has_component id (items_of x db))) [
          | inl part ↦
              let there = touches-single id x db.bundle_items part in
              after x (inl (subst (λ rows. touches (id ∷ []) x rows ≡ true) (sym own.items) there))
          | inr apart ↦
              after x
                (inr (own.others x (update_product-IsPriced x id f db keeps apart other priced)))
        ]
      ],
    )

written-eq :
    (id : ℕ) (dto : UpdateProductDto) (db : Database) {db' : Database}
    → run_unique (write_product id dto db) ≡ ok db'
    → update_product id (edited dto) db ≡ db'
unfolding write_product
written-eq id dto db e = elim (Bool-cases (barcode_taken id dto.barcode db.products)) [
  | inl taken ↦ ground arith
  | inr free ↦
      let done : run_unique (write_product id dto db) ≡ ok (update_product id (edited dto) db) =
        rw free refl in
      ok-injective (sym done ∙ e)
]

-- An update that was answered has found the product, written it and recalculated the bundles.
pub update-eq :
    (id : ℕ) (dto : UpdateProductDto) (db : Database) {answer : List Repriced × Database}
    → update id dto db ≡ ok answer
    → ((p : Product) × (find (λ q. q.id == id) db.products ≡ some p))
      × (recalculate_after dto id (update_product id (edited dto) db) ≡ answer)
unfolding update
update-eq id dto db e =
    let after : Database → Result (List Repriced × Database) =
      λ written. ok (recalculate_after dto id written) in
    let write = run_unique (write_product id dto db) >>= after in
    let checked : Product → Result (List Repriced × Database) =
      λ existing. check_derived existing id dto db >> write in
    let (existing, found, e1) =
      >>=-eq-ok (assert_product_exists id db)
        (λ existing. assert_category_exists dto.category_id db >> checked existing) e in
    let (category, e2) =
      >>-eq-ok (assert_category_exists dto.category_id db) (checked existing) e1 in
    let (may, e3) = >>-eq-ok (check_derived existing id dto db) write e2 in
    let (written, stored, e4) = >>=-eq-ok (run_unique (write_product id dto db)) after e3 in
    (
      (
        existing,
        or_throw-eq-ok (find (λ q. q.id == id) db.products) (not_found product_missing) found,
      ),
      ap (recalculate_after dto id) (written-eq id dto db stored) ∙ ok-injective e4,
    )

pub update-KeepsPrices :
    (id : ℕ) (dto : UpdateProductDto) (db : Database) {listed : List Repriced} {db' : Database}
    → IsFlat db
    → update id dto db ≡ ok (listed, db')
    → KeepsPrices db db'
unfolding recalculate_after
update-KeepsPrices id dto db flat e =
    let (found, same) = update-eq id dto db e in
    subst (KeepsPrices db) (ap (λ (r : List Repriced × Database). r.1) same) (
      containing-KeepsPrices dto.price id (edited dto) db (edited-KeepsKind dto)
        (edited-KeepsPrice dto) flat)
