-- ===== src/Purchases/Costs.antt =====
-- The last cost that a purchase leaves on what it bought.
use punto_de_venta_local_con.Purchases.{stored_purchase_item}
use punto_de_venta_local_con.Base.{map}
use punto_de_venta_local_con.Base.{
  ℕ, ◌≡◌, refl, sym, ap, ◌∙◌, subst, ◌&&◌, Option, none, some, List, [], ◌∷◌, ◌++◌, arith, ◌==◌,
  if◌then◌else◌, same_id,
}
use punto_de_venta_local_con.Base.Lists.{find}
use punto_de_venta_local_con.Base.Outcome.{ok, >>=-eq-ok, ok-injective}
use punto_de_venta_local_con.Schema.{
  Database, Product, ProductVariant, Purchase, PurchaseItem, AuthUser,
}
use punto_de_venta_local_con.Purchases.{
  PurchaseItemDto, CreatePurchaseDto, Receipt, no_receipt, purchase_item, cost_product,
  cost_variant, write_cost, add_receipt, purchase_line, purchase_lines, PurchaseCreated,
  attempt_create_purchase,
}
use punto_de_venta_local_con.Purchases.Received.{
  purchase_line-eq_ok, attempt_create_purchase-IsPurchased,
}

-- The cost of a product after the rows of a purchase, in their order: of those that name no variant.
unfoldable pub product_cost_after : ℕ → ℕ → List PurchaseItem → ℕ
product_cost_after id cost [] = cost
product_cost_after id cost (i ∷ items) =
    product_cost_after id
      (if same_id i.variant_id none && i.product_id == id then i.unit_cost else cost) items

-- The cost of a variant, likewise.
unfoldable pub variant_cost_after : ℕ → Option ℕ → List PurchaseItem → Option ℕ
variant_cost_after id cost [] = cost
variant_cost_after id cost (i ∷ items) =
    variant_cost_after id (if same_id i.variant_id (some id) then some i.unit_cost else cost) items

product_cost_after-append :
    (id cost : ℕ) (xs ys : List PurchaseItem)
    → product_cost_after id cost (xs ++ ys)
      ≡ product_cost_after id (product_cost_after id cost xs) ys
unfolding product_cost_after
product_cost_after-append id cost [] ys = refl
product_cost_after-append id cost (x ∷ xs) ys =
    product_cost_after-append id
      (if same_id x.variant_id none && x.product_id == id then x.unit_cost else cost) xs ys

variant_cost_after-append :
    (id : ℕ) (cost : Option ℕ) (xs ys : List PurchaseItem)
    → variant_cost_after id cost (xs ++ ys)
      ≡ variant_cost_after id (variant_cost_after id cost xs) ys
unfolding variant_cost_after
variant_cost_after-append id cost [] ys = refl
variant_cost_after-append id cost (x ∷ xs) ys =
    variant_cost_after-append id (if same_id x.variant_id (some id) then some x.unit_cost else cost)
      xs ys

abbrev pub find_product : ℕ → List Product → Option Product
find_product id = find (λ p. p.id == id)

abbrev pub find_row : ℕ → List ProductVariant → Option ProductVariant
find_row id = find (λ v. v.id == id)

find_product-cost :
    (id other cost : ℕ) (p : Product) (ps : List Product)
    → find_product id ps ≡ some p
    → find_product id (cost_product other cost ps)
      ≡ some (record p { cost_price = if other == id then cost else p.cost_price })
find_product-cost id other cost p [] e = cc
find_product-cost id other cost p (q ∷ ps) e = ground (arith, find_product-cost id other cost p ps)

find_row-cost :
    (id other cost : ℕ) (v : ProductVariant) (vs : List ProductVariant)
    → find_row id vs ≡ some v
    → find_row id (cost_variant other cost vs)
      ≡ some (record v { cost_price = if other == id then some cost else v.cost_price })
find_row-cost id other cost v [] e = cc
find_row-cost id other cost v (w ∷ vs) e = ground (arith, find_row-cost id other cost v vs)

-- What the loop keeps of the costs.
abbrev IsCosted : Database → Receipt → Type 0
IsCosted db r =
    ((id : ℕ) (p : Product)
      → find_product id db.products ≡ some p
      → find_product id r.database.products
        ≡ some (record p { cost_price = product_cost_after id p.cost_price r.items_data }))
    × ((id : ℕ) (v : ProductVariant)
        → find_row id db.variants ≡ some v
        → find_row id r.database.variants
          ≡ some (record v { cost_price = variant_cost_after id v.cost_price r.items_data }))

add_receipt-IsCosted :
    (db : Database) (store : ℕ) (product : Product) (variant : Option ProductVariant)
    (dto : PurchaseItemDto) (r : Receipt)
    → IsCosted db r
    → IsCosted db (add_receipt store product variant dto r)
unfolding add_receipt write_cost purchase_item product_cost_after variant_cost_after
add_receipt-IsCosted db store product none dto r (hp, hv) = (
  λ id p e. ground (
    arith,
    product_cost_after-append id p.cost_price r.items_data (purchase_item product none dto ∷ []),
    find_product-cost id product.id dto.unit_cost
        (record p { cost_price = product_cost_after id p.cost_price r.items_data })
        r.database.products (hp id p e),
  ),
  λ id v e. ground (
    arith,
    hv id v e,
    variant_cost_after-append id v.cost_price r.items_data (purchase_item product none dto ∷ []),
  ),
)
add_receipt-IsCosted db store product (some w) dto r (hp, hv) = (
  λ id p e. ground (
    arith,
    hp id p e,
    product_cost_after-append id p.cost_price r.items_data
        (purchase_item product (some w) dto ∷ []),
  ),
  λ id v e. ground (
    arith,
    variant_cost_after-append id v.cost_price r.items_data
        (purchase_item product (some w) dto ∷ []),
    find_row-cost id w.id dto.unit_cost
        (record v { cost_price = variant_cost_after id v.cost_price r.items_data })
        r.database.variants (hv id v e),
  ),
)

purchase_lines-IsCosted :
    (db : Database) (store : ℕ) (items : List PurchaseItemDto) (r : Receipt) {r' : Receipt}
    → purchase_lines store items r ≡ ok r'
    → IsCosted db r
    → IsCosted db r'
unfolding purchase_lines
purchase_lines-IsCosted db store [] r h c = subst (IsCosted db) (ok-injective h) c
purchase_lines-IsCosted db store (dto ∷ rest) r h c =
    let (r₁, h₁, h₂) = >>=-eq-ok (purchase_line store dto r) _ h in
    let (product, variant, _, _, e) = purchase_line-eq_ok store dto r h₁ in
    purchase_lines-IsCosted db store rest r₁ h₂
      (subst (IsCosted db) (sym e) (add_receipt-IsCosted db store product variant dto r c))

no_receipt-IsCosted : (db : Database) → IsCosted db (no_receipt db)
unfolding product_cost_after variant_cost_after
no_receipt-IsCosted db = (λ id p e. e, λ id v e. e)

product_cost-stored :
    (id cost : ℕ) (items : List PurchaseItem)
    → product_cost_after id cost (map stored_purchase_item items) ≡ product_cost_after id cost items
unfolding product_cost_after
product_cost-stored id cost [] = refl
product_cost-stored id cost (i ∷ items) =
    product_cost-stored id
      (if same_id i.variant_id none && i.product_id == id then i.unit_cost else cost) items

variant_cost-stored :
    (id : ℕ) (cost : Option ℕ) (items : List PurchaseItem)
    → variant_cost_after id cost (map stored_purchase_item items) ≡ variant_cost_after id cost items
unfolding variant_cost_after
variant_cost-stored id cost [] = refl
variant_cost-stored id cost (i ∷ items) =
    variant_cost-stored id (if same_id i.variant_id (some id) then some i.unit_cost else cost) items

-- After a purchase every product and variant is as it was but for its cost, which is the unit cost of
-- the last row for it, and the cost that it had if no row is: a row for a variant sets the variant's cost
-- and not the product's.
pub purchase_costs :
    (rivals : List Purchase) (actor : AuthUser) (dto : CreatePurchaseDto) (db : Database)
    {created : PurchaseCreated}
    → attempt_create_purchase rivals actor dto db ≡ ok created
    → ((id : ℕ) (p : Product)
        → find_product id db.products ≡ some p
        → find_product id created.database.products
          ≡ some
              (record p { cost_price = product_cost_after id p.cost_price created.purchase.items }))
      × ((id : ℕ) (v : ProductVariant)
          → find_row id db.variants ≡ some v
          → find_row id created.database.variants
            ≡ some (record v {
              cost_price = variant_cost_after id v.cost_price created.purchase.items;
            }))
purchase_costs rivals actor dto db {created} h =
    let made = attempt_create_purchase-IsPurchased rivals actor dto db h in
    let r = made.receipt in
    let costed : IsCosted db r =
      purchase_lines-IsCosted db dto.store_id dto.items (no_receipt db) made.lines
        (no_receipt-IsCosted db) in
    let (hp, hv) = costed in
    let items : created.purchase.items ≡ map stored_purchase_item r.items_data =
      ap (λ (p : Purchase). p.items) made.purchase in
    (
      λ id p e.
          ap (find_product id) made.products
          ∙ hp id p e
          ∙ ap (λ cost. some (record p { cost_price = cost }))
              (sym (
                ap (product_cost_after id p.cost_price) items
                ∙ product_cost-stored id p.cost_price r.items_data)),
      λ id v e.
          ap (find_row id) made.variants
          ∙ hv id v e
          ∙ ap (λ cost. some (record v { cost_price = cost }))
              (sym (
                ap (variant_cost_after id v.cost_price) items
                ∙ variant_cost-stored id v.cost_price r.items_data)),
    )
