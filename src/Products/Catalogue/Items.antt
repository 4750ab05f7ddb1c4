-- ===== src/Products/Catalogue/Items.antt =====
-- The rows of components, as one comes or goes.
use punto_de_venta_local_con.Base.{
  ℕ, suc, ◌≤◌, ◌≡◌, refl, sym, ap, subst, ◌∙◌, false, not, some, List, [], ◌∷◌, ◌++◌, arith, ◌==◌,
  Bool-cases, inl, inr,
}
use punto_de_venta_local_con.Base.Lists.{find, filter, length}
use punto_de_venta_local_con.Schema.{Database, Product, BundleItem, is_bundle}
use punto_de_venta_local_con.Orders.Lines.{components_of, bundle_components}
use punto_de_venta_local_con.Orders.Lines.Moves.{product_rows}
use punto_de_venta_local_con.Products.BundlePricing.{
  derived_price, compute_derived_price, recalculate_one,
}
use punto_de_venta_local_con.Products.BundlePricing.Stable.{IsFlat, has_bundle, has_component}
use punto_de_venta_local_con.Products.BundlePricing.Recalculated.{
  IsPriced, recalculate_one-Recalculates,
}
use punto_de_venta_local_con.Products.Catalogue.{with_item, without_item}

-- The composition of the other bundles, when one row comes or goes.
components_of-items :
    (db : Database) (rows items : List BundleItem) (next : ℕ)
    → components_of (record db { bundle_items = rows; next_id = next }) items
      ≡ components_of db items
unfolding components_of
components_of-items db rows [] next = refl
components_of-items db rows (bi ∷ items) next =
    ground (arith, components_of-items db rows items next)

filter-other_last :
    (x : ℕ) (items : List BundleItem) (item : BundleItem)
    → (item.bundle_product_id == x) ≡ false
    → filter (λ bi. bi.bundle_product_id == x) (items ++ item ∷ [])
      ≡ filter (λ bi. bi.bundle_product_id == x) items
filter-other_last x [] item ne = rw ne refl
filter-other_last x (bi ∷ items) item ne = rw (filter-other_last x items item ne) refl

pub with_item-IsPriced :
    (x : ℕ) (item : BundleItem) (db : Database)
    → (item.bundle_product_id == x) ≡ false
    → IsPriced x db
    → IsPriced x (with_item item db)
unfolding compute_derived_price bundle_components
with_item-IsPriced x item db ne priced p e d c k = priced p e d c (
    ap (λ cs. derived_price cs p.bundle_discount_percent)
      (ap (components_of db) (sym (filter-other_last x db.bundle_items item ne))
        ∙ sym (
            components_of-items db (db.bundle_items ++ item ∷ [])
              (filter (λ bi. bi.bundle_product_id == x) (db.bundle_items ++ item ∷ []))
              (suc db.next_id)))
    ∙ k)

no_bundle_row : (id : ℕ) (ps : List Product) → product_rows id ps ≡ 0 → has_bundle id ps ≡ false
unfolding product_rows
no_bundle_row id [] e = refl
no_bundle_row id (q ∷ ps) e = ground (arith, no_bundle_row id ps)

-- A row found, that is no bundle, is the only one of its id.
pub no_bundle_of_id :
    (id : ℕ) (p : Product) (ps : List Product)
    → product_rows id ps ≤ 1
    → find (λ q. q.id == id) ps ≡ some p
    → is_bundle p.product_type ≡ false
    → has_bundle id ps ≡ false
unfolding product_rows
no_bundle_of_id id p [] u e b = refl
no_bundle_of_id id p (q ∷ ps) u e b = elim (Bool-cases (q.id == id)) [
  | inl here ↦ ground (arith, no_bundle_row id ps)
  | inr other ↦ ground (arith, no_bundle_of_id id p ps)
]

has_component-last :
    (id : ℕ) (items : List BundleItem) (item : BundleItem)
    → has_component id items ≡ false
    → (item.component_product_id == id) ≡ false
    → has_component id (items ++ item ∷ []) ≡ false
has_component-last id [] item h ne = rw ne refl
has_component-last id (bi ∷ items) item h ne = ground (arith, has_component-last id items item)

pub with_item-IsFlat :
    (item : BundleItem) (db : Database)
    → IsFlat db
    → has_bundle item.component_product_id db.products ≡ false
    → IsFlat (with_item item db)
with_item-IsFlat item db flat simple b h = elim (Bool-cases (item.component_product_id == b)) [
  | inl same ↦
      let e : item.component_product_id ≡ b = ground arith in
      let apart : has_bundle b db.products ≡ false =
        subst (λ y. has_bundle y db.products ≡ false) e simple in
      cc
  | inr other ↦ has_component-last b db.bundle_items item (flat b h) other
]

-- What is asked of an edit: the bundles stay flat, and each that was priced is priced after it.
abbrev pub KeepsPrices : Database → Database → Type 0
KeepsPrices db db' = IsFlat db' × ((x : ℕ) → IsPriced x db → IsPriced x db')

-- A recalculation of a bundle after a change that left the others priced.
pub recalculated-KeepsPrices :
    (b : ℕ) (db mid : Database)
    → IsFlat mid
    → ((x : ℕ) → (b == x) ≡ false → IsPriced x db → IsPriced x mid)
    → KeepsPrices db (recalculate_one b mid).1
recalculated-KeepsPrices b db mid flat others =
    let step = recalculate_one-Recalculates b mid flat in
    (
      step.flat,
      λ x priced. elim (Bool-cases (b == x)) [
        | inl same ↦
            let e : b ≡ x = ground arith in
            subst (λ y. IsPriced y (recalculate_one b mid).1) e step.own
        | inr other ↦ step.others x (others x other priced)
      ],
    )

abbrev pub HasUniqueItems : Database → Type 0
HasUniqueItems db = (id : ℕ) → length (filter (λ bi. bi.id == id) db.bundle_items) ≤ 1

filter-absent :
    (id : ℕ) (items : List BundleItem)
    → length (filter (λ bi. bi.id == id) items) ≡ 0
    → filter (λ bi. not (bi.id == id)) items ≡ items
filter-absent id [] h = refl
filter-absent id (bi ∷ items) h = elim (Bool-cases (bi.id == id)) [
  | inl here ↦ ground arith
  | inr other ↦ ground (arith, filter-absent id items)
]

filter-apart :
    (x id : ℕ) (items : List BundleItem) (item : BundleItem)
    → length (filter (λ bi. bi.id == id) items) ≤ 1
    → find (λ bi. bi.id == id) items ≡ some item
    → (item.bundle_product_id == x) ≡ false
    → filter (λ bi. bi.bundle_product_id == x) (filter (λ bi. not (bi.id == id)) items)
      ≡ filter (λ bi. bi.bundle_product_id == x) items
filter-apart x id [] item u found ne = refl
filter-apart x id (bi ∷ items) item u found ne = elim (Bool-cases (bi.id == id)) [
  | inl here ↦ ground (arith, filter-absent id items)
  | inr other ↦ ground (arith, filter-apart x id items item)
]

pub has_component-without :
    (b id : ℕ) (items : List BundleItem)
    → has_component b items ≡ false
    → has_component b (filter (λ bi. not (bi.id == id)) items) ≡ false
has_component-without b id [] h = refl
has_component-without b id (bi ∷ items) h = ground (arith, has_component-without b id items)

pub without_item-IsPriced :
    (x id : ℕ) (db : Database) {item : BundleItem}
    → HasUniqueItems db
    → find (λ bi. bi.id == id) db.bundle_items ≡ some item
    → (item.bundle_product_id == x) ≡ false
    → IsPriced x db
    → IsPriced x (without_item id db)
unfolding compute_derived_price bundle_components
without_item-IsPriced x id db {item = item} unique found ne priced p e d c k =
    let rows = filter (λ (bi : BundleItem). not (bi.id == id)) db.bundle_items in
    priced p e d c (
      ap (λ cs. derived_price cs p.bundle_discount_percent)
        (ap (components_of db) (sym (filter-apart x id db.bundle_items item (unique id) found ne))
          ∙ sym (
              components_of-items db rows (filter (λ bi. bi.bundle_product_id == x) rows)
                db.next_id))
      ∙ k)
