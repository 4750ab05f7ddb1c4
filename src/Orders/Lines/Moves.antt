-- ===== src/Orders/Lines/Moves.antt =====
-- The stock movements of the lines of a sale, as its order rows record them.
use mathlib.Core.List.{append_assoc}
use mathlib.Core.Path.{ap₂}
use punto_de_venta_local_con.Base.{
  ℕ, ◌+◌, ◌*◌, ◌≤◌, ◌≡◌, refl, ap, Bool, false, Option, none, some, List, [], ◌∷◌, ◌++◌, ◌==◌, ◌&&◌,
  if◌then◌else◌, arith, Bool-cases, Option-cases, inl, inr,
}
use punto_de_venta_local_con.Base.Lists.{find, All}
use punto_de_venta_local_con.Base.Outcome.{ok, >>=-eq-ok, ok-injective}
use punto_de_venta_local_con.Schema.{
  Database, Product, BundleItem, StockLevel, OrderItem, OrderItemBundleComponent, is_bundle,
}
use punto_de_venta_local_con.Stock.Batches.{Move, take_all, take_all_nil, take_all_seq}
use punto_de_venta_local_con.Orders.Lines.{
  Component, Fulfilment, ItemDto, stock_target, components_of, bundle_components, take_tracked,
  take_components, take_bundle, fulfil,
}

-- How many products have an id.
unfoldable pub product_rows : ℕ → List Product → ℕ
product_rows id [] = 0
product_rows id (p ∷ products) = (if p.id == id then 1 else 0) + product_rows id products

abbrev pub tracks_in : ℕ → List Product → Bool
tracks_in id products = elim (find (λ p. p.id == id) products) [
  | none ↦ false
  | some p ↦ p.track_stock
]

-- Whether the product of an id has its stock tracked.
unfoldable pub tracks : Database → ℕ → Bool
tracks db id = tracks_in id db.products

abbrev pub tracked_move : Database → ℕ → ℕ → Option ℕ → ℕ → List Move
tracked_move db store product variant quantity =
    if tracks db product then (stock_target store product variant, quantity) ∷ [] else []

unfoldable pub component_moves : Database → ℕ → List OrderItemBundleComponent → List Move
component_moves db store [] = []
component_moves db store (bc ∷ rest) =
    tracked_move db store bc.component_product_id bc.component_variant_id bc.quantity
    ++ component_moves db store rest

-- The movements of a line of an order, from what the order's rows say.
unfoldable pub item_moves : Database → ℕ → OrderItem → List Move
item_moves db store item =
    if is_bundle item.product_type
    then component_moves db store item.bundle_components
    else tracked_move db store item.product_id item.variant_id (item.quantity * 1000)

tracks-products : (d db : Database) (id : ℕ) → d.products ≡ db.products → tracks d id ≡ tracks db id
unfolding tracks
tracks-products d db id e = ap (tracks_in id) e

component_moves-products :
    (d db : Database) (store : ℕ) (bcs : List OrderItemBundleComponent)
    → d.products ≡ db.products
    → component_moves d store bcs ≡ component_moves db store bcs
unfolding component_moves
component_moves-products d db store [] e = refl
component_moves-products d db store (bc ∷ bcs) e =
    rw (tracks-products d db bc.component_product_id e, component_moves-products d db store bcs e)

item_moves-products :
    (d db : Database) (store : ℕ) (item : OrderItem)
    → d.products ≡ db.products
    → item_moves d store item ≡ item_moves db store item
unfolding item_moves
item_moves-products d db store item e = rw (
  tracks-products d db item.product_id e,
  component_moves-products d db store item.bundle_components e,
)

unfoldable pub order_moves : Database → ℕ → List OrderItem → List Move
order_moves db store [] = []
order_moves db store (item ∷ items) = item_moves db store item ++ order_moves db store items

pub order_moves-append :
    (db : Database) (store : ℕ) (xs ys : List OrderItem)
    → order_moves db store (xs ++ ys) ≡ order_moves db store xs ++ order_moves db store ys
unfolding order_moves
order_moves-append db store [] ys = refl
order_moves-append db store (x ∷ xs) ys = simp (order_moves-append db store xs ys, append_assoc)

-- The movements depend on the database by its products only.
pub order_moves-products :
    (d db : Database) (store : ℕ) (items : List OrderItem)
    → d.products ≡ db.products
    → order_moves d store items ≡ order_moves db store items
unfolding order_moves
order_moves-products d db store [] e = refl
order_moves-products d db store (item ∷ items) e =
    ap₂ (◌++◌ {A = Move}) (item_moves-products d db store item e)
      (order_moves-products d db store items e)

-- The tracked decrement is the movement that the order's rows record.
take_tracked-moves :
    (db : Database) (store product : ℕ) (variant : Option ℕ) (quantity : ℕ)
    (levels : List StockLevel) {f : Fulfilment}
    → take_tracked store (tracks db product) product variant quantity levels ≡ ok f
    → take_all (tracked_move db store product variant quantity) levels ≡ ok f.levels
unfolding take_tracked take_all
take_tracked-moves db store product variant quantity levels e = ground arith

-- Each component is joined with the product of its id.
abbrev IsJoined : Database → List Component → Type 0
IsJoined db = All λ c. tracks db c.item.component_product_id ≡ c.product.track_stock

components_of-IsJoined :
    (db : Database) (items : List BundleItem) → IsJoined db (components_of db items)
unfolding components_of tracks
components_of-IsJoined db [] = tt
components_of-IsJoined db (bi ∷ items) =
    elim (Option-cases (find (λ p. p.id == bi.component_product_id) db.products)) [
      | inl e ↦ rw (e, components_of) (components_of-IsJoined db items)
      | inr (p, e) ↦
          rw (e, components_of) (rw (e, tracks, tracks_in), components_of-IsJoined db items)
    ]

take_components-moves :
    (db : Database) (store quantity : ℕ) (cs : List Component) (levels : List StockLevel)
    {f : Fulfilment}
    → IsJoined db cs
    → take_components store quantity cs levels ≡ ok f
    → take_all (component_moves db store f.components) levels ≡ ok f.levels
unfolding take_components component_moves
take_components-moves db store quantity [] levels j e = rw (← ok-injective e) (take_all_nil levels)
take_components-moves db store quantity (c ∷ cs) levels {f} j e =
    let product = c.item.component_product_id in
    let variant = c.item.component_variant_id in
    let required = c.item.quantity * quantity in
    let (one, taken, e₁) =
      >>=-eq-ok (take_tracked store c.product.track_stock product variant required levels) _ e in
    let (rest, taken_rest, e₂) = >>=-eq-ok (take_components store quantity cs one.levels) _ e₁ in
    let first =
      take_tracked-moves db store product variant required levels {f = one} (rw (← j.0) at taken) in
    let later = take_components-moves db store quantity cs one.levels {f = rest} j.1 taken_rest in
    rw (← ok-injective e₂) (take_all_seq _ _ levels first later)

take_bundle-moves :
    (db : Database) (store quantity : ℕ) (cs : List Component) (levels : List StockLevel)
    {f : Fulfilment}
    → IsJoined db cs
    → take_bundle store quantity cs levels ≡ ok f
    → take_all (component_moves db store f.components) levels ≡ ok f.levels
unfolding take_bundle
take_bundle-moves db store quantity [] levels j e = cc
take_bundle-moves db store quantity (c ∷ cs) levels j e =
    take_components-moves db store quantity (c ∷ cs) levels j e

-- In a catalogue with unique ids the product found with more conditions is the product of the id.
abbrev pub HasUniqueIds : Database → Type 0
HasUniqueIds db = (id : ℕ) → product_rows id db.products ≤ 1

find_no_rows :
    (id : ℕ) (products : List Product)
    → product_rows id products ≡ 0
    → find (λ p. p.id == id && p.is_active) products ≡ none
unfolding product_rows
find_no_rows id [] h = refl
find_no_rows id (p ∷ products) h = ground (arith, find_no_rows id products)

find_active→find :
    (id : ℕ) (products : List Product) {p : Product}
    → product_rows id products ≤ 1
    → find (λ p. p.id == id && p.is_active) products ≡ some p
    → find (λ p. p.id == id) products ≡ some p
unfolding product_rows
find_active→find id [] h e = cc
find_active→find id (q ∷ products) {p} h e =
    ground (arith, find_no_rows id products, find_active→find id products {p = p})

found_id :
    (id : ℕ) (products : List Product) {p : Product}
    → find (λ p. p.id == id) products ≡ some p
    → p.id ≡ id
found_id id [] e = cc
found_id id (q ∷ products) {p} e = ground (arith, found_id id products {p = p})

pub tracks_found :
    (db : Database) (id : ℕ) {p : Product}
    → HasUniqueIds db
    → find (λ p. p.id == id && p.is_active) db.products ≡ some p
    → tracks db p.id ≡ p.track_stock
unfolding tracks
tracks_found db id {p} u e =
    let found = find_active→find id db.products (u id) e in
    rw (found_id id db.products found) (rw (found, tracks, tracks_in))

-- The stock that a line takes is what its order row says.
pub fulfil-item_moves :
    (db : Database) (store : ℕ) (product : Product) (dto : ItemDto) (levels : List StockLevel)
    (item : OrderItem) {f : Fulfilment}
    → tracks db product.id ≡ product.track_stock
    → fulfil db store product dto levels ≡ ok f
    → item.product_id ≡ product.id
    → item.variant_id ≡ dto.variant_id
    → item.product_type ≡ product.product_type
    → item.quantity ≡ dto.quantity
    → item.bundle_components ≡ f.components
    → take_all (item_moves db store item) levels ≡ ok f.levels
unfolding fulfil item_moves
fulfil-item_moves db store product dto levels item {f} t e ep ev et eq ec =
    elim (Bool-cases (is_bundle product.product_type)) [
      | inl bundle ↦
          rw (et, bundle, ec)
            (take_bundle-moves db store dto.quantity (bundle_components db product.id) levels
              {f = f} (components_of-IsJoined db _) (rw bundle at e))
      | inr plain ↦
          rw (et, plain, ep, ev, eq)
            (take_tracked-moves db store product.id dto.variant_id (dto.quantity * 1000) levels
              {f = f} (rw t (rw plain at e)))
    ]
