-- ===== src/Products/Catalogue/Synced.antt =====
-- The price syncs after an edit of a product.
use punto_de_venta_local_con.Base.{
  ℕ, ◌≡◌, refl, sym, ap, subst, ◌∙◌, Bool, true, false, not, ◌&&◌, ◌||◌, Option, none, some, List,
  [], ◌∷◌, ◌++◌, arith, ◌==◌, Bool-cases, Option-cases, inl, inr, is_some,
}
use punto_de_venta_local_con.Base.Lists.{find, filter, any}
use punto_de_venta_local_con.Base.Outcome.{ok}
use punto_de_venta_local_con.Schema.{Database, Product}
use punto_de_venta_local_con.Products.BundlePricing.{
  Repriced, find_bundle, is_derived, update_product, with_price, to_manual, reprice,
  compute_derived_price, recalculate_bundle, recalculate_one, recalculate_all, affected,
  recalculate_for_components,
}
use punto_de_venta_local_con.Products.BundlePricing.Stable.{KeepsKind}
use punto_de_venta_local_con.Products.Catalogue.{
  UpdateProductDto, edited, recalculate_containing, recalculate_after, update, own_sync,
  price_syncs,
}
use punto_de_venta_local_con.Products.Catalogue.Renamed.{
  find-updated, edited-KeepsKind, edited-KeepsPrice,
}
use punto_de_venta_local_con.Products.Catalogue.Written.{update-eq}

abbrev pub is_listed : ℕ → List Repriced → Bool
is_listed x = any (λ r. r.product_id == x)

abbrev price_of : Option Product → Option ℕ
price_of none = none
price_of (some p) = some p.price

-- The price of a product, if it is in the catalogue.
abbrev pub price_at : ℕ → Database → Option ℕ
price_at x db = price_of (find (λ p. p.id == x) db.products)

is_listed-append :
    (x : ℕ) (rs ss : List Repriced) → is_listed x (rs ++ ss) ≡ (is_listed x rs || is_listed x ss)
is_listed-append x [] ss = refl
is_listed-append x (r ∷ rs) ss = ground (arith, is_listed-append x rs ss)

price_at-other :
    (x id : ℕ) (f : Product → Product) (db : Database)
    → KeepsKind f
    → (x == id) ≡ false
    → price_at x (update_product id f db) ≡ price_at x db
price_at-other x id f db keeps ne =
    let row = find-updated x id f db.products keeps in
    elim (Option-cases (find (λ p. p.id == x) db.products)) [
      | inl lost ↦ ground arith
      | inr (p, found) ↦ ground arith
    ]

price_at-kept :
    (x id : ℕ) (f : Product → Product) (db : Database)
    → KeepsKind f
    → ((p : Product) → (f p).price ≡ p.price)
    → price_at x (update_product id f db) ≡ price_at x db
price_at-kept x id f db keeps price =
    let row = find-updated x id f db.products keeps in
    elim (Option-cases (find (λ p. p.id == x) db.products)) [
      | inl lost ↦ ground arith
      | inr (p, found) ↦ ground (arith, price p)
    ]

is_priced-update :
    (x id : ℕ) (f : Product → Product) (db : Database)
    → KeepsKind f
    → is_some (price_at x (update_product id f db)) ≡ is_some (price_at x db)
is_priced-update x id f db keeps =
    let row = find-updated x id f db.products keeps in
    elim (Option-cases (find (λ p. p.id == x) db.products)) [
      | inl lost ↦ ground arith
      | inr (p, found) ↦ ground arith
    ]

-- A recalculation loses no product, and lists each that it gives a new price.
abbrev Lists : ℕ → Database → List Repriced × Database → Type 0
Lists x db (listed, db') =
    (is_some (price_at x db') ≡ is_some (price_at x db))
    × (is_listed x listed ≡ false → price_at x db' ≡ price_at x db)

Lists-join :
    (x : ℕ) (db mid : Database) (rs ss : List Repriced) (db' : Database)
    → Lists x db (rs, mid)
    → Lists x mid (ss, db')
    → Lists x db (rs ++ ss, db')
Lists-join x db mid rs ss db' (p, q) (r, s) =
    let both = is_listed-append x rs ss in (r ∙ p, λ h. s (ground arith) ∙ q (ground arith))

reprice-Lists :
    (x : ℕ) (p : Product) (price : Option ℕ) (db : Database) → Lists x db (reprice p price db)
unfolding reprice
reprice-Lists x p none db = (
  is_priced-update x p.id to_manual db (λ q. (refl, refl)),
  λ h. price_at-kept x p.id to_manual db (λ q. (refl, refl)) (λ q. refl),
)
reprice-Lists x p (some price) db = elim (Bool-cases (p.price == price)) [
  | inl kept ↦ rw kept (refl, λ h. refl)
  | inr moved ↦ rw moved (
    is_priced-update x p.id (with_price price) db (λ q. (refl, refl)),
    λ h. price_at-other x p.id (with_price price) db (λ q. (refl, refl)) (ground arith),
  )
]

recalculate_bundle-Lists :
    (x : ℕ) (row : Option Product) (db : Database) → Lists x db (recalculate_bundle row db)
unfolding recalculate_bundle
recalculate_bundle-Lists x none db = (refl, λ h. refl)
recalculate_bundle-Lists x (some p) db = elim (Bool-cases (is_derived p.bundle_pricing_mode)) [
  | inl derived_now ↦
      rw derived_now
        (reprice-Lists x p (compute_derived_price db p.id p.bundle_discount_percent) db)
  | inr manual_now ↦ rw manual_now (refl, λ h. refl)
]

recalculate_all-Lists : (x : ℕ) (ids : List ℕ) (db : Database) → Lists x db (recalculate_all ids db)
unfolding recalculate_all recalculate_one
recalculate_all-Lists x [] db = (refl, λ h. refl)
recalculate_all-Lists x (id ∷ ids) db =
    let one = recalculate_one id db in
    let rest = recalculate_all ids one.1 in
    Lists-join x db one.1 one.0 rest.0 rest.1
      (recalculate_bundle-Lists x (find_bundle id db.products) db)
      (recalculate_all-Lists x ids one.1)

containing-Lists :
    (x id : ℕ) (written : Option ℕ) (db : Database)
    → Lists x db (recalculate_containing written id db)
unfolding recalculate_containing recalculate_for_components
containing-Lists x id none db = (refl, λ h. refl)
containing-Lists x id (some price) db = recalculate_all-Lists x (affected (id ∷ []) db) db

recalculate_after-Lists :
    (x id : ℕ) (dto : UpdateProductDto) (db : Database) → Lists x db (recalculate_after dto id db)
unfolding recalculate_after recalculate_one
recalculate_after-Lists x id dto db =
    let own = recalculate_one id db in
    let rest = recalculate_containing dto.price id own.1 in
    Lists-join x db own.1 own.0 rest.0 rest.1
      (recalculate_bundle-Lists x (find_bundle id db.products) db)
      (containing-Lists x id dto.price own.1)

is_listed-filter :
    (x id : ℕ) (rs : List Repriced)
    → (x == id) ≡ false
    → is_listed x (filter (λ r. not (r.product_id == id && true)) rs) ≡ is_listed x rs
is_listed-filter x id [] ne = refl
is_listed-filter x id (r ∷ rs) ne = ground (arith, is_listed-filter x id rs)

filter-all : (id : ℕ) (rs : List Repriced) → filter (λ r. not (r.product_id == id && false)) rs ≡ rs
filter-all id [] = refl
filter-all id (r ∷ rs) = ground (arith, filter-all id rs)

-- The sync entries of the handler, for the price written and the database after the write.
syncs-Lists :
    (x id : ℕ) (written : Option ℕ) (f : Product → Product) (db db' : Database) (rs : List Repriced)
    → KeepsKind f
    → (written ≡ none → (p : Product) → (f p).price ≡ p.price)
    → is_some (price_at id db) ≡ true
    → Lists x (update_product id f db) (rs, db')
    → is_listed x (
        own_sync written id db'.products
        ++ filter (λ r. not (r.product_id == id && is_some written)) rs)
      ≡ false
    → price_at x db' ≡ price_at x db
syncs-Lists x id none f db db' rs keeps price there (p, q) h =
    q (ap (is_listed x) (sym (filter-all id rs)) ∙ h) ∙ price_at-kept x id f db keeps (price refl)
syncs-Lists x id (some written) f db db' rs keeps price there (p, q) h =
    let split =
      is_listed-append x (own_sync (some written) id db'.products)
        (filter (λ r. not (r.product_id == id && true)) rs) in
    elim (Bool-cases (x == id)) [
      | inl same ↦
          let e : x ≡ id = ground arith in
          let still = is_priced-update x id f db keeps in
          let here : is_some (price_at id db') ≡ true =
            subst (λ y. is_some (price_at y db') ≡ true) e
              (p ∙ still ∙ subst (λ y. is_some (price_at y db) ≡ true) (sym e) there) in
          elim (Option-cases (find (λ p. p.id == id) db'.products)) [
            | inl lost ↦ ground arith
            | inr (p, found) ↦ ground arith
          ]
      | inr other ↦
          let kept = is_listed-filter x id rs other in
          q (ground arith) ∙ price_at-other x id f db keeps other
    ]

-- Where an update goes through, a product that none of its price syncs names, the product's own and
-- those of the bundles recalculated taken together, has the price that it had before.
pub update_syncs :
    (x id : ℕ) (dto : UpdateProductDto) (db : Database) (listed : List Repriced) (db' : Database)
    → update id dto db ≡ ok (listed, db')
    → is_listed x (price_syncs dto id (listed, db')) ≡ false
    → price_at x db' ≡ price_at x db
unfolding price_syncs
update_syncs x id dto db listed db' e h =
    let ((p, found), same) = update-eq id dto db e in
    let there : is_some (price_at id db) ≡ true = rw found refl in
    syncs-Lists x id dto.price (edited dto) db db' listed (edited-KeepsKind dto)
      (edited-KeepsPrice dto) there
      (subst (Lists x (update_product id (edited dto) db)) same
        (recalculate_after-Lists x id dto (update_product id (edited dto) db)))
      h
