-- ===== src/Products/BundlePricing/Stable.antt =====
-- What a change of one product leaves of the prices of the bundles.
use punto_de_venta_local_con.Base.{
  ℕ, ◌≡◌, refl, sym, ap, ◌∙◌, Bool, true, false, ◌&&◌, Option, none, some, List, [], ◌∷◌, arith,
  ◌==◌, if◌then◌else◌,
}
use punto_de_venta_local_con.Base.Lists.{find, filter, any, update_where}
use punto_de_venta_local_con.Schema.{Database, Product, BundleItem, is_bundle}
use punto_de_venta_local_con.Orders.Lines.{components_of, bundle_components}
use punto_de_venta_local_con.Products.BundlePricing.{
  find_bundle, derived_price, compute_derived_price, update_product,
}

-- A change that leaves the id and the type.
abbrev pub KeepsKind : (Product → Product) → Type 0
KeepsKind f = (p : Product) → ((f p).id ≡ p.id) × ((f p).product_type ≡ p.product_type)

find-elsewhere :
    (c id : ℕ) (f : Product → Product) (ps : List Product)
    → KeepsKind f
    → (c == id) ≡ false
    → find (λ p. p.id == c) (update_where (λ p. p.id == id) f ps) ≡ find (λ p. p.id == c) ps
find-elsewhere c id f [] keeps ne = refl
find-elsewhere c id f (p ∷ ps) keeps ne = ground (arith, find-elsewhere c id f ps keeps ne, keeps p)

abbrev pub has_component : ℕ → List BundleItem → Bool
has_component id = any (λ bi. bi.component_product_id == id)

components_of-elsewhere :
    (id : ℕ) (f : Product → Product) (db : Database) (items : List BundleItem)
    → KeepsKind f
    → has_component id items ≡ false
    → components_of (update_product id f db) items ≡ components_of db items
unfolding components_of
components_of-elsewhere id f db [] keeps h = refl
components_of-elsewhere id f db (bi ∷ items) keeps h =
    let ne : (bi.component_product_id == id) ≡ false = ground arith in
    let rest : has_component id items ≡ false = ground arith in
    ground (
      arith,
      components_of-elsewhere id f db items keeps rest,
      find-elsewhere bi.component_product_id id f db.products keeps ne,
    )

-- The bundle's own rows of components.
abbrev pub items_of : ℕ → Database → List BundleItem
items_of bundle db = filter (λ bi. bi.bundle_product_id == bundle) db.bundle_items

pub compute-elsewhere :
    (id bundle : ℕ) (percent : Option ℕ) (f : Product → Product) (db : Database)
    → KeepsKind f
    → has_component id (items_of bundle db) ≡ false
    → compute_derived_price (update_product id f db) bundle percent
      ≡ compute_derived_price db bundle percent
unfolding compute_derived_price bundle_components
compute-elsewhere id bundle percent f db keeps h =
    ap (λ cs. derived_price cs percent)
      (components_of-elsewhere id f db (items_of bundle db) keeps h)

pub find_bundle-update :
    (b id : ℕ) (f : Product → Product) (ps : List Product)
    → KeepsKind f
    → find_bundle b (update_where (λ p. p.id == id) f ps)
      ≡ elim (find_bundle b ps) [ none ↦ none | some p ↦ some (if b == id then f p else p) ]
find_bundle-update b id f [] keeps = refl
find_bundle-update b id f (p ∷ ps) keeps =
    ground (arith, find_bundle-update b id f ps keeps, keeps p)

-- No component of a bundle is a bundle, which `createBundleItemInTx` refuses.
abbrev pub has_bundle : ℕ → List Product → Bool
has_bundle id = any (λ p. p.id == id && is_bundle p.product_type)

abbrev pub IsFlat : Database → Type 0
IsFlat db = (b : ℕ) → has_bundle b db.products ≡ true → has_component b db.bundle_items ≡ false

has_bundle-update :
    (b id : ℕ) (f : Product → Product) (ps : List Product)
    → KeepsKind f
    → has_bundle b (update_where (λ p. p.id == id) f ps) ≡ has_bundle b ps
has_bundle-update b id f [] keeps = refl
has_bundle-update b id f (p ∷ ps) keeps = ground (arith, has_bundle-update b id f ps keeps, keeps p)

pub update_product-IsFlat :
    (id : ℕ) (f : Product → Product) (db : Database)
    → KeepsKind f
    → IsFlat db
    → IsFlat (update_product id f db)
update_product-IsFlat id f db keeps flat b h =
    flat b (sym (has_bundle-update b id f db.products keeps) ∙ h)

pub has_bundle_found :
    (b : ℕ) (p : Product) (ps : List Product) → find_bundle b ps ≡ some p → has_bundle b ps ≡ true
has_bundle_found b p [] e = cc
has_bundle_found b p (q ∷ ps) e = ground (arith, has_bundle_found b p ps)

pub find_bundle-eq_id :
    (b : ℕ) (p : Product) (ps : List Product) → find_bundle b ps ≡ some p → p.id ≡ b
find_bundle-eq_id b p [] e = cc
find_bundle-eq_id b p (q ∷ ps) e = ground (arith, find_bundle-eq_id b p ps)

pub has_component-filter :
    (id bundle : ℕ) (items : List BundleItem)
    → has_component id items ≡ false
    → has_component id (filter (λ bi. bi.bundle_product_id == bundle) items) ≡ false
has_component-filter id bundle [] h = refl
has_component-filter id bundle (bi ∷ items) h = ground (arith, has_component-filter id bundle items)
