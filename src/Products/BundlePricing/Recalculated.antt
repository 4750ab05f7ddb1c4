-- ===== src/Products/BundlePricing/Recalculated.antt =====
-- After a recalculation every bundle that was to be recalculated has the price of its components.
use punto_de_venta_local_con.Base.{
  ℕ, ◌≡◌, refl, sym, ap, subst, ◌∙◌, true, false, ◌⊎◌, Option, none, some, List, [], ◌∷◌, arith,
  ◌==◌, Bool-cases, inl, inr,
}
use punto_de_venta_local_con.Base.Lists.{any, update_where}
use punto_de_venta_local_con.Schema.{Database, Product}
use punto_de_venta_local_con.Products.BundlePricing.{
  find_bundle, compute_derived_price, is_derived, update_product, with_price, to_manual, reprice,
  recalculate_bundle, recalculate_one, recalculate_all, has_derived,
}
use punto_de_venta_local_con.Products.BundlePricing.Stable.{
  KeepsKind, IsFlat, has_component, has_component-filter, items_of, compute-elsewhere,
  find_bundle-update, update_product-IsFlat, has_bundle_found, find_bundle-eq_id,
}

-- A derived bundle, if it has components, has the price that they come to with its discount.
abbrev pub IsPriced : ℕ → Database → Type 0
IsPriced b db =
    (p : Product)
    → find_bundle b db.products ≡ some p
    → is_derived p.bundle_pricing_mode ≡ true
    → (c : ℕ) → compute_derived_price db b p.bundle_discount_percent ≡ some c
    → p.price ≡ c

-- The change of a product that is no component of a bundle leaves the bundle as it was priced, unless it
-- is that bundle.
pub update_product-IsPriced :
    (x id : ℕ) (f : Product → Product) (db : Database)
    → KeepsKind f
    → has_component id (items_of x db) ≡ false
    → (x == id) ≡ false
    → IsPriced x db
    → IsPriced x (update_product id f db)
update_product-IsPriced x id f db keeps h ne priced p e d c k =
    let same : find_bundle x db.products ≡ some p =
      ground (arith, find_bundle-update x id f db.products keeps) in
    priced p same d c (sym (compute-elsewhere id x p.bundle_discount_percent f db keeps h) ∙ k)

with_price-KeepsKind : (price : ℕ) → KeepsKind (with_price price)
with_price-KeepsKind price p = (refl, refl)

to_manual-KeepsKind : KeepsKind to_manual
to_manual-KeepsKind p = (refl, refl)

-- A change that makes no product derived.
abbrev pub KeepsManual : (Product → Product) → Type 0
KeepsManual f =
    (p : Product)
    → is_derived p.bundle_pricing_mode ≡ false
    → is_derived (f p).bundle_pricing_mode ≡ false

pub has_derived-update :
    (y id : ℕ) (f : Product → Product) (ps : List Product)
    → KeepsKind f
    → KeepsManual f
    → has_derived y ps ≡ false
    → has_derived y (update_where (λ p. p.id == id) f ps) ≡ false
has_derived-update y id f [] keeps manual h = refl
has_derived-update y id f (p ∷ ps) keeps manual h =
    elim (Bool-cases (is_derived p.bundle_pricing_mode)) [
      | inl d ↦ ground (arith, has_derived-update y id f ps keeps manual, keeps p)
      | inr m ↦ ground (arith, has_derived-update y id f ps keeps manual, keeps p, manual p m)
    ]

-- The step from one database to the next in a recalculation.
pub record Recalculates (b : ℕ) (db db' : Database) : Type 0 where
  pub flat : IsFlat db'
  pub others : (x : ℕ) → IsPriced x db → IsPriced x db'
  pub own : IsPriced b db'
  pub items : db'.bundle_items ≡ db.bundle_items
  pub manuals : (y : ℕ) → has_derived y db.products ≡ false → has_derived y db'.products ≡ false

unchanged : (b : ℕ) (db : Database) → IsFlat db → IsPriced b db → Recalculates b db db
unchanged b db flat own = record {
  flat = flat;
  others = λ x p. p;
  own = own;
  items = refl;
  manuals = λ y h. h;
}

changed :
    (b : ℕ) (p : Product) (f : Product → Product) (db : Database)
    → IsFlat db
    → find_bundle b db.products ≡ some p
    → KeepsKind f
    → KeepsManual f
    → IsPriced b (update_product b f db)
    → Recalculates b db (update_product b f db)
changed b p f db flat found keeps keeps_manual own = record {
  flat = update_product-IsFlat b f db keeps flat;
  others = λ x priced. elim (Bool-cases (x == b)) [
    | inl same ↦
        let e : b ≡ x = ground arith in subst (λ y. IsPriced y (update_product b f db)) e own
    | inr other ↦
        update_product-IsPriced x b f db keeps
          (has_component-filter b x db.bundle_items
            (flat b (has_bundle_found b p db.products found)))
          other priced
  ];
  own = own;
  items = refl;
  manuals = λ y. has_derived-update y b f db.products keeps keeps_manual;
}

-- The bundle's own price, in the cases of `recalculateOne`.
reprice-Recalculates :
    (b : ℕ) (p : Product) (db : Database) (price : Option ℕ)
    → IsFlat db
    → find_bundle b db.products ≡ some p
    → compute_derived_price db b p.bundle_discount_percent ≡ price
    → Recalculates b db (reprice p price db).1
unfolding reprice
reprice-Recalculates b p db none flat found computed =
    let same : b ≡ p.id = sym (find_bundle-eq_id b p db.products found) in
    subst (λ i. Recalculates b db (update_product i to_manual db)) same
      (changed b p to_manual db flat found to_manual-KeepsKind (λ q d. cc)
        (λ q e d c k.
          let row = find_bundle-update b b to_manual db.products to_manual-KeepsKind in
          ground arith))
reprice-Recalculates b p db (some price) flat found computed =
    let same : b ≡ p.id = sym (find_bundle-eq_id b p db.products found) in
    elim (Bool-cases (p.price == price)) [
      | inl kept ↦ rw kept (unchanged b db flat (λ q e d c k. ground arith))
      | inr moved ↦ rw moved (
          subst (λ i. Recalculates b db (update_product i (with_price price) db)) same
            (changed b p (with_price price) db flat found (with_price-KeepsKind price) (λ q d. d)
              (λ q e d c k.
                let row =
                  find_bundle-update b b (with_price price) db.products
                    (with_price-KeepsKind price) in
                let away =
                  compute-elsewhere b b q.bundle_discount_percent (with_price price) db
                    (with_price-KeepsKind price)
                    (has_component-filter b b db.bundle_items
                      (flat b (has_bundle_found b p db.products found))) in
                ground arith)))
    ]

recalculate_bundle-Recalculates :
    (b : ℕ) (row : Option Product) (db : Database)
    → IsFlat db
    → find_bundle b db.products ≡ row
    → Recalculates b db (recalculate_bundle row db).1
unfolding recalculate_bundle
recalculate_bundle-Recalculates b none db flat found = unchanged b db flat (λ q e d c k. cc)
recalculate_bundle-Recalculates b (some p) db flat found =
    elim (Bool-cases (is_derived p.bundle_pricing_mode)) [
      | inl derived_now ↦ rw derived_now (
          reprice-Recalculates b p db (compute_derived_price db p.id p.bundle_discount_percent) flat
            found
            (ap (λ i. compute_derived_price db i p.bundle_discount_percent)
              (sym (find_bundle-eq_id b p db.products found))))
      | inr manual_now ↦ rw manual_now (unchanged b db flat (λ q e d c k. ground arith))
    ]

pub recalculate_one-Recalculates :
    (b : ℕ) (db : Database) → IsFlat db → Recalculates b db (recalculate_one b db).1
unfolding recalculate_one
recalculate_one-Recalculates b db flat =
    recalculate_bundle-Recalculates b (find_bundle b db.products) db flat refl

-- A recalculation of bundles prices each of them by its components, and leaves every other bundle as it
-- was priced.
pub recalculate_all-IsPriced :
    (ids : List ℕ) (db : Database)
    → IsFlat db
    → IsFlat (recalculate_all ids db).1
      × ((recalculate_all ids db).1.bundle_items ≡ db.bundle_items)
      × ((y : ℕ)
          → has_derived y db.products ≡ false
          → has_derived y (recalculate_all ids db).1.products ≡ false)
      × ((x : ℕ)
          → (any (λ id. id == x) ids ≡ true) ⊎ IsPriced x db
          → IsPriced x (recalculate_all ids db).1)
unfolding recalculate_all
recalculate_all-IsPriced [] db flat =
    (flat, refl, λ y h. h, λ x h. elim h [ inl e ↦ cc | inr p ↦ p ])
recalculate_all-IsPriced (id ∷ ids) db flat =
    let one = recalculate_one-Recalculates id db flat in
    let (flat', items, manuals, rest) =
      recalculate_all-IsPriced ids (recalculate_one id db).1 one.flat in
    (
      flat',
      items ∙ one.items,
      λ y h. manuals y (one.manuals y h),
      λ x h. elim h [
        | inr p ↦ rest x (inr (one.others x p))
        | inl e ↦ elim (Bool-cases (id == x)) [
          | inl here ↦
              let same : id ≡ x = ground arith in
              rest x (inr (subst (λ y. IsPriced y (recalculate_one id db).1) same one.own))
          | inr other ↦ rest x (inl (ground arith))
        ]
      ],
    )
