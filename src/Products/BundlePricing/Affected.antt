-- ===== src/Products/BundlePricing/Affected.antt =====
-- After a recalculation for some components every bundle that has one of them is priced.
use punto_de_venta_local_con.Base.{
  ℕ, ◌≡◌, refl, ◌∙◌, Bool, true, false, not, ◌&&◌, ◌⊎◌, some, List, [], ◌∷◌, map, arith, ◌==◌,
  Bool-cases, inl, inr,
}
use punto_de_venta_local_con.Base.Lists.{filter, any}
use punto_de_venta_local_con.Schema.{Database, Product, BundleItem}
use punto_de_venta_local_con.Products.BundlePricing.{
  find_bundle, is_derived, has_derived, distinct, affected, recalculate_for_components,
}
use punto_de_venta_local_con.Products.BundlePricing.Stable.{IsFlat}
use punto_de_venta_local_con.Products.BundlePricing.Recalculated.{
  IsPriced, recalculate_all-IsPriced,
}

any-filter_other :
    (x z : ℕ) (l : List ℕ)
    → (z == x) ≡ false
    → any (λ y. y == x) (filter (λ y. not (y == z)) l) ≡ any (λ y. y == x) l
any-filter_other x z [] h = refl
any-filter_other x z (y ∷ l) h = ground (arith, any-filter_other x z l h)

any-distinct : (x : ℕ) (l : List ℕ) → any (λ y. y == x) (distinct l) ≡ any (λ y. y == x) l
unfolding distinct
any-distinct x [] = refl
any-distinct x (y ∷ l) = elim (Bool-cases (y == x)) [
  | inl here ↦ rw here refl
  | inr other ↦ rw other (any-filter_other x y (distinct l) other ∙ any-distinct x l)
]

-- A component of the bundle is among the products.
abbrev pub touches : List ℕ → ℕ → List BundleItem → Bool
touches ids x =
    any (λ bi. bi.bundle_product_id == x && any (λ id. id == bi.component_product_id) ids)

found_affected :
    (ids : List ℕ) (x : ℕ) (ps : List Product) (items : List BundleItem)
    → touches ids x items ≡ true
    → has_derived x ps ≡ true
    → any
        (λ y. y == x)
        (map
          (λ (bi : BundleItem). bi.bundle_product_id)
          (filter
            (λ bi.
              any (λ id. id == bi.component_product_id) ids && has_derived bi.bundle_product_id ps)
            items))
      ≡ true
found_affected ids x ps [] t d = cc
found_affected ids x ps (bi ∷ items) t d = elim (Bool-cases (bi.bundle_product_id == x)) [
  | inl same ↦
      let e : bi.bundle_product_id ≡ x = ground arith in
      let d' : has_derived bi.bundle_product_id ps ≡ true = rw e d in
      ground (arith, found_affected ids x ps items)
  | inr other ↦ ground (arith, found_affected ids x ps items)
]

not_derived_found :
    (x : ℕ) (p : Product) (ps : List Product)
    → has_derived x ps ≡ false
    → find_bundle x ps ≡ some p
    → is_derived p.bundle_pricing_mode ≡ false
not_derived_found x p [] h e = cc
not_derived_found x p (q ∷ ps) h e = ground (arith, not_derived_found x p ps)

pub manual-IsPriced : (x : ℕ) (db : Database) → has_derived x db.products ≡ false → IsPriced x db
manual-IsPriced x db h p e d c k = let m = not_derived_found x p db.products h e in cc

-- Where no component is a bundle, the bundles with one of the components are priced, and the others stay
-- as they were priced.
pub recalculate_for_components-IsPriced :
    (ids : List ℕ) (db : Database)
    → IsFlat db
    → IsFlat (recalculate_for_components ids db).1
      × ((recalculate_for_components ids db).1.bundle_items ≡ db.bundle_items)
      × ((y : ℕ)
          → has_derived y db.products ≡ false
          → has_derived y (recalculate_for_components ids db).1.products ≡ false)
      × ((x : ℕ)
          → (touches ids x db.bundle_items ≡ true) ⊎ IsPriced x db
          → IsPriced x (recalculate_for_components ids db).1)
unfolding recalculate_for_components affected
recalculate_for_components-IsPriced ids db flat =
    let (a, b, c, d) = recalculate_all-IsPriced (affected ids db) db flat in
    (
      a,
      b,
      c,
      λ x h. elim h [
        | inr p ↦ d x (inr p)
        | inl t ↦ elim (Bool-cases (has_derived x db.products)) [
          | inl derived_now ↦ d x (
              inl
                (any-distinct x _ ∙ found_affected ids x db.products db.bundle_items t derived_now))
          | inr manual_now ↦ d x (inr (manual-IsPriced x db manual_now))
        ]
      ],
    )
