-- ===== src/Products/Catalogue/Renamed.antt =====
-- A change of a product that leaves its price.
use punto_de_venta_local_con.Base.{
  ℕ, ◌*◌, ◌≡◌, refl, sym, ◌∙◌, false, Option, none, some, List, [], ◌∷◌, arith, ◌==◌, Option-cases,
  inl, inr, if◌then◌else◌,
}
use punto_de_venta_local_con.Base.Lists.{find, update_where, sum_of, length}
use punto_de_venta_local_con.Schema.{Database, Product, BundleItem}
use punto_de_venta_local_con.Orders.Lines.{components_of, bundle_components, Component}
use punto_de_venta_local_con.Products.BundlePricing.{
  find_bundle, component_unit, discounted, derived_price, compute_derived_price, update_product,
}
use punto_de_venta_local_con.Products.BundlePricing.Stable.{KeepsKind, items_of, find_bundle-update}
use punto_de_venta_local_con.Products.BundlePricing.Recalculated.{IsPriced}
use punto_de_venta_local_con.Products.Catalogue.{UpdateProductDto, edited}

-- A change of a product that keeps its price too.
abbrev pub KeepsPrice : (Product → Product) → Type 0
KeepsPrice f = (p : Product) → (f p).price ≡ p.price

pub find-updated :
    (c id : ℕ) (f : Product → Product) (ps : List Product)
    → KeepsKind f
    → find (λ p. p.id == c) (update_where (λ p. p.id == id) f ps)
      ≡ elim (find (λ p. p.id == c) ps) [ none ↦ none | some p ↦ some (if c == id then f p else p) ]
find-updated c id f [] keeps = refl
find-updated c id f (p ∷ ps) keeps = ground (arith, find-updated c id f ps keeps, keeps p)

-- The sum that `discounted` starts from.
abbrev gross : List Component → ℕ
gross = sum_of (λ c. component_unit c * c.item.quantity)

components_of-update :
    (id : ℕ) (f : Product → Product) (db : Database) (items : List BundleItem)
    → KeepsKind f
    → KeepsPrice f
    → (gross (components_of (update_product id f db) items) ≡ gross (components_of db items))
      × (length (components_of (update_product id f db) items) ≡ length (components_of db items))
unfolding components_of
components_of-update id f db [] keeps price = (refl, refl)
components_of-update id f db (bi ∷ items) keeps price =
    let rest = components_of-update id f db items keeps price in
    let row = find-updated bi.component_product_id id f db.products keeps in
    elim (Option-cases (find (λ p. p.id == bi.component_product_id) db.products)) [
      | inl none_found ↦ ground arith
      | inr (p, found) ↦ ground (arith, price p)
    ]

derived_price-eq :
    (cs ds : List Component) (percent : Option ℕ)
    → gross cs ≡ gross ds
    → length cs ≡ length ds
    → derived_price cs percent ≡ derived_price ds percent
unfolding derived_price discounted
derived_price-eq [] [] percent g l = refl
derived_price-eq [] (d ∷ ds) percent g l = absurd (omega arith)
derived_price-eq (c ∷ cs) [] percent g l = absurd (omega arith)
derived_price-eq (c ∷ cs) (d ∷ ds) percent g l = rw g refl

compute-update :
    (x id : ℕ) (percent : Option ℕ) (f : Product → Product) (db : Database)
    → KeepsKind f
    → KeepsPrice f
    → compute_derived_price (update_product id f db) x percent ≡ compute_derived_price db x percent
unfolding compute_derived_price bundle_components
compute-update x id percent f db keeps price =
    let (g, l) = components_of-update id f db (items_of x db) keeps price in
    derived_price-eq (components_of (update_product id f db) (items_of x db))
      (components_of db (items_of x db)) percent g l

-- An edit that leaves the price leaves every other bundle as it was priced.
pub edit-IsPriced :
    (x id : ℕ) (f : Product → Product) (db : Database)
    → KeepsKind f
    → KeepsPrice f
    → (id == x) ≡ false
    → IsPriced x db
    → IsPriced x (update_product id f db)
edit-IsPriced x id f db keeps price ne priced p e d c k =
    let same : find_bundle x db.products ≡ some p =
      ground (arith, find_bundle-update x id f db.products keeps) in
    priced p same d c (sym (compute-update x id p.bundle_discount_percent f db keeps price) ∙ k)

pub edited-KeepsKind : (dto : UpdateProductDto) → KeepsKind (edited dto)
edited-KeepsKind dto p = (refl, refl)

pub edited-KeepsPrice : (dto : UpdateProductDto) → dto.price ≡ none → KeepsPrice (edited dto)
edited-KeepsPrice dto e p = rw e refl
