-- ===== src/Products/BundlePricing.antt =====
-- apps/api/src/products/bundle-pricing.service.ts: the price of a bundle that follows its components.
pub mod Stable
pub mod Recalculated
pub mod Affected
use punto_de_venta_local_con.Base.{
  ℕ, ◌+◌, ◌-◌, ◌*◌, ◌/◌, min, max, Bool, true, false, not, ◌&&◌, Option, none, some, List, [], ◌∷◌,
  ◌++◌, map, ◌==◌, if◌then◌else◌, or_else, ⊤,
}
use punto_de_venta_local_con.Base.Lists.{find, filter, any, update_where, sum_of, length}
use punto_de_venta_local_con.Base.Outcome.{Result, bad_request, bundle_without_components, throw_if}
use punto_de_venta_local_con.Schema.{
  Database, Product, BundleItem, BundlePricingMode, derived, manual, is_bundle,
}
use punto_de_venta_local_con.Orders.Lines.{Component, bundle_components, variant_price}

-- `RecalculatedBundle`, and the entries of a price sync.
pub record Repriced : Type 0 where
  pub product_id : ℕ
  pub price : ℕ

-- `componentVariant?.price ?? componentProduct.price`
abbrev pub component_unit : Component → ℕ
component_unit c = or_else (variant_price c.variant) c.product.price

abbrev pub clamp_percent : Option ℕ → ℕ
clamp_percent percent = min (max (or_else percent 0) 0) 10_000

-- `round2(sum * (1 - percent / 100))`, to cents: the sum is in hundred-thousandths of a peso, the
-- percentage in hundredths.
unfoldable pub discounted : List Component → Option ℕ → ℕ
discounted components percent =
    (sum_of (λ c. component_unit c * c.item.quantity) components * (10_000 - clamp_percent percent)
      + 5_000_000)
    / 10_000_000

unfoldable pub derived_price : List Component → Option ℕ → Option ℕ
unfolding discounted
derived_price [] percent = none
derived_price (c ∷ components) percent = some (discounted (c ∷ components) percent)

-- `computeDerivedPrice`
unfoldable pub compute_derived_price : Database → ℕ → Option ℕ → Option ℕ
unfolding derived_price
compute_derived_price db bundle percent = derived_price (bundle_components db bundle) percent

abbrev pub is_derived : BundlePricingMode → Bool
is_derived derived = true
is_derived manual = false

-- `product.update({ where: { id }, data })`
abbrev pub update_product : ℕ → (Product → Product) → Database → Database
update_product id f db = record db { products = update_where (λ p. p.id == id) f db.products }

abbrev pub with_price : ℕ → Product → Product
with_price price p = record p { price = price }

abbrev pub to_manual : Product → Product
to_manual p = record p { bundle_pricing_mode = manual }

-- `findFirst({ where: { id, type: BUNDLE } })`
abbrev pub find_bundle : ℕ → List Product → Option Product
find_bundle id = find (λ p. p.id == id && is_bundle p.product_type)

-- The writes of `recalculateOne`, for the price computed.
unfoldable pub reprice : Product → Option ℕ → Database → List Repriced × Database
reprice bundle none db = ([], update_product bundle.id to_manual db)
reprice bundle (some price) db = if bundle.price == price then ([], db) else (
  record { product_id = bundle.id; price = price } ∷ [],
  update_product bundle.id (with_price price) db,
)

unfoldable pub recalculate_bundle : Option Product → Database → List Repriced × Database
unfolding reprice compute_derived_price
recalculate_bundle none db = ([], db)
recalculate_bundle (some bundle) db =
    if is_derived bundle.bundle_pricing_mode
    then reprice bundle (compute_derived_price db bundle.id bundle.bundle_discount_percent) db
    else ([], db)

-- `recalculateOne`; `null` is the empty list.
unfoldable pub recalculate_one : ℕ → Database → List Repriced × Database
unfolding recalculate_bundle
recalculate_one id db = recalculate_bundle (find_bundle id db.products) db

-- `distinct`
unfoldable pub distinct : List ℕ → List ℕ
distinct [] = []
distinct (x ∷ xs) = let rest = distinct xs in x ∷ filter (λ y. not (y == x)) rest

abbrev pub has_derived : ℕ → List Product → Bool
has_derived id = any (λ p. p.id == id && is_derived p.bundle_pricing_mode)

-- The query of `recalculateForComponents`.
unfoldable pub affected : List ℕ → Database → List ℕ
unfolding distinct
affected ids db = distinct (
    map (λ (bi : BundleItem). bi.bundle_product_id)
      (filter
        (λ bi.
          any (λ id. id == bi.component_product_id) ids
          && has_derived bi.bundle_product_id db.products)
        db.bundle_items))

-- Its loop.
unfoldable pub recalculate_all : List ℕ → Database → List Repriced × Database
unfolding recalculate_one
recalculate_all [] db = ([], db)
recalculate_all (id ∷ ids) db =
    let one = recalculate_one id db in
    let rest = recalculate_all ids one.1 in (one.0 ++ rest.0, rest.1)

-- `recalculateForComponents`; for no component the query finds nothing.
unfoldable pub recalculate_for_components : List ℕ → Database → List Repriced × Database
unfolding affected recalculate_all
recalculate_for_components ids db = recalculate_all (affected ids db) db

-- `assertCanUseDerived`
unfoldable pub assert_can_use_derived : ℕ → Database → Result ⊤
assert_can_use_derived bundle db =
    throw_if (length (filter (λ bi. bi.bundle_product_id == bundle) db.bundle_items) == 0)
      (bad_request bundle_without_components)
