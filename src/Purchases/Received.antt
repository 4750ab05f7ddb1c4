-- ===== src/Purchases/Received.antt =====
-- What a purchase brings in: its rows, its total, its number and the stock.
use punto_de_venta_local_con.Base.{
  ℕ, ◌*◌, ◌≡◌, refl, sym, subst, false, Option, some, List, [], ◌∷◌, ◌++◌, ◌==◌, if◌then◌else◌,
}
use punto_de_venta_local_con.Base.Lists.{find, any, sum_of}
use punto_de_venta_local_con.Base.Outcome.{
  ok, not_found, store_missing, supplier_missing, product_missing, unique_violation, or_throw,
  throw_if, or_throw-eq-ok, throw_if-eq-ok, >>=-eq-ok, >>-eq-ok, ok-injective,
}
use punto_de_venta_local_con.Schema.{
  Database, Product, ProductVariant, Purchase, PurchaseItem, AuthUser,
}
use punto_de_venta_local_con.Stock.Batches.{Move, return_all}
use punto_de_venta_local_con.Orders.Lines.{stock_target}
use punto_de_venta_local_con.Orders.Lines.Moves.{tracks}
use punto_de_venta_local_con.Purchases.{
  PurchaseItemDto, CreatePurchaseDto, Receipt, no_receipt, purchased_variant, add_receipt,
  purchase_line, purchase_lines, has_purchase_number, new_purchase, PurchaseCreated, write_purchase,
  attempt_create_purchase,
}

-- The stock that the rows of a purchase stand for: of the products that track it.
unfoldable pub purchase_moves : Database → ℕ → List PurchaseItem → List Move
purchase_moves db store [] = []
purchase_moves db store (i ∷ items) =
    (if tracks db i.product_id
      then (stock_target store i.product_id i.variant_id, i.quantity * 1000) ∷ []
      else [])
    ++ purchase_moves db store items

-- What the loop keeps up to each of its turns.
pub record IsReceipt (db : Database) (store : ℕ) (r : Receipt) : Type 0 where
  pub moves : r.stock_targets ≡ purchase_moves db store r.items_data
  pub total : r.total ≡ sum_of (λ i. i.subtotal) r.items_data
  pub tracked : (id : ℕ) → tracks r.database id ≡ tracks db id
  pub levels : r.database.stock_levels ≡ db.stock_levels
  pub purchases : r.database.purchases ≡ db.purchases

-- The steps of a turn of the loop.
pub purchase_line-eq_ok :
    (store : ℕ) (dto : PurchaseItemDto) (r : Receipt) {r' : Receipt}
    → purchase_line store dto r ≡ ok r'
    → (product : Product) × (variant : Option ProductVariant) × (find
          (λ p. p.id == dto.product_id)
          r.database.products
        ≡ some product)
      × (purchased_variant r.database product dto ≡ ok variant)
      × (r' ≡ add_receipt store product variant dto r)
unfolding purchase_line
purchase_line-eq_ok store dto r h =
    let (product, e₁, k₁) =
      >>=-eq-ok
        (or_throw (find (λ p. p.id == dto.product_id) r.database.products)
          (not_found product_missing))
        _ h in
    let (variant, e₂, k₂) = >>=-eq-ok (purchased_variant r.database product dto) _ k₁ in
    (product, variant, or_throw-eq-ok _ _ e₁, e₂, sym (ok-injective k₂))

-- The steps of a purchase that went through.
pub record IsPurchased (rivals : List Purchase) (actor : AuthUser) (dto : CreatePurchaseDto)
    (db : Database) (created : PurchaseCreated) : Type 0 where
  pub receipt : Receipt
  pub lines : purchase_lines dto.store_id dto.items (no_receipt db) ≡ ok receipt
  pub purchase : created.purchase ≡ new_purchase actor dto receipt
  pub fresh :
      any
        (has_purchase_number created.purchase.store_id created.purchase.purchase_number)
        (rivals ++ receipt.database.purchases)
      ≡ false
  pub levels :
      created.database.stock_levels ≡ return_all receipt.stock_targets receipt.database.stock_levels
  pub products : created.database.products ≡ receipt.database.products
  pub variants : created.database.variants ≡ receipt.database.variants

pub attempt_create_purchase-IsPurchased :
    (rivals : List Purchase) (actor : AuthUser) (dto : CreatePurchaseDto) (db : Database)
    {created : PurchaseCreated}
    → attempt_create_purchase rivals actor dto db ≡ ok created
    → IsPurchased rivals actor dto db created
unfolding attempt_create_purchase write_purchase
attempt_create_purchase-IsPurchased rivals actor dto db h =
    let (_, _, h₁) =
      >>=-eq-ok (or_throw (find (λ s. s.id == dto.store_id) db.stores) (not_found store_missing)) _
        h in
    let (_, _, h₂) =
      >>=-eq-ok
        (or_throw (find (λ s. s.id == dto.supplier_id) db.suppliers) (not_found supplier_missing)) _
        h₁ in
    let (r, lines, h₃) = >>=-eq-ok (purchase_lines dto.store_id dto.items (no_receipt db)) _ h₂ in
    let p = new_purchase actor dto r in
    let (free, done) =
      >>-eq-ok
        (throw_if
          (any (has_purchase_number p.store_id p.purchase_number) (rivals ++ r.database.purchases))
          unique_violation)
        _ h₃ in
    subst (IsPurchased rivals actor dto db) (ok-injective done) (record {
      receipt = r;
      lines = lines;
      purchase = refl;
      fresh = throw_if-eq-ok _ unique_violation free;
      levels = refl;
      products = refl;
      variants = refl;
    })
