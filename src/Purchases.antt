-- ===== src/Purchases.antt =====
-- apps/api/src/purchases/purchases.service.ts: goods received from a supplier.
pub mod Received
pub mod Costs
mod Tests
use punto_de_venta_local_con.Base.{
  ℕ, zero, suc, ◌+◌, ◌*◌, max, Bool, true, false, ◌&&◌, Option, none, some, List, [], ◌∷◌, ◌++◌,
  String, map, ◌==◌, if◌then◌else◌,
}
use punto_de_venta_local_con.Base.Lists.{find, any, update_where}
use punto_de_venta_local_con.Base.Outcome.{
  Result, ok, err, not_found, unique_violation, store_missing, supplier_missing, product_missing,
  variant_missing, ◌>>=◌, ◌>>◌, throw_if, or_throw,
}
use punto_de_venta_local_con.Schema.{
  Database, Product, ProductVariant, Purchase, PurchaseItem, AuthUser, AuditAction, stored_money,
}
use punto_de_venta_local_con.Stock.{StockTarget}
use punto_de_venta_local_con.Stock.Batches.{Move, return_all}
use punto_de_venta_local_con.Orders.Lines.{StockSyncEntry, sync_entry, stock_target, line_sku}

-- `CreatePurchaseItemDto`
pub record PurchaseItemDto : Type 0 where
  pub product_id : ℕ
  pub variant_id : Option ℕ
  pub quantity : ℕ
  pub unit_cost : ℕ

-- `CreatePurchaseDto`
pub record CreatePurchaseDto : Type 0 where
  pub store_id : ℕ
  pub supplier_id : ℕ
  pub invoice_number : Option String
  pub notes : Option String
  pub items : List PurchaseItemDto

abbrev pub max_purchase_number_attempts : ℕ
max_purchase_number_attempts = 3

-- The variables of the loop over the items, with the database as its updates leave it.
pub record Receipt : Type 0 where
  pub total : ℕ
  pub items_data : List PurchaseItem
  pub stock_targets : List Move
  pub woo_sync_entries : List StockSyncEntry
  pub database : Database

abbrev pub no_receipt : Database → Receipt
no_receipt db = record {
  total = 0;
  items_data = [];
  stock_targets = [];
  woo_sync_entries = [];
  database = db;
}

-- `itemDto.variantId ? findFirst(...) : null`, and the exception of an unknown variant.
unfoldable pub purchased_variant :
    Database → Product → PurchaseItemDto → Result (Option ProductVariant)
purchased_variant db product dto = elim dto.variant_id [
  | none ↦ ok none
  | some id ↦ do
    v ←
        or_throw (find (λ v. v.id == id && v.product_id == product.id) db.variants)
          (not_found variant_missing)
    ok (some v)
]

abbrev pub bought_variant : Option ProductVariant → Option ℕ
bought_variant none = none
bought_variant (some v) = some v.id

-- The row that `itemsData.push` adds.
unfoldable pub purchase_item : Product → Option ProductVariant → PurchaseItemDto → PurchaseItem
purchase_item product variant dto = record {
  product_id = product.id;
  variant_id = bought_variant variant;
  product_name = product.name;
  sku = line_sku product variant;
  quantity = dto.quantity;
  unit_cost = dto.unit_cost;
  subtotal = dto.quantity * dto.unit_cost;
}

abbrev pub cost_product : ℕ → ℕ → List Product → List Product
cost_product id cost = update_where (λ p. p.id == id) (λ p. record p { cost_price = cost })

abbrev pub cost_variant : ℕ → ℕ → List ProductVariant → List ProductVariant
cost_variant id cost = update_where (λ v. v.id == id) (λ v. record v { cost_price = some cost })

-- The last cost of what was bought, on its variant or else on the product.
unfoldable pub write_cost : Product → Option ProductVariant → ℕ → Database → Database
write_cost product none cost db = record db { products = cost_product product.id cost db.products }
write_cost product (some v) cost db = record db { variants = cost_variant v.id cost db.variants }

-- The stock that a line of a tracked product brings, in millionths.
unfoldable pub received : ℕ → Product → Option ProductVariant → PurchaseItemDto → List Move
received store product variant dto =
    if product.track_stock
    then (stock_target store product.id (bought_variant variant), dto.quantity * 1000) ∷ []
    else []

unfoldable pub received_sync : Product → Option ProductVariant → List StockSyncEntry
received_sync product variant =
    if product.track_stock then sync_entry product.id (bought_variant variant) ∷ [] else []

unfoldable pub add_receipt :
    ℕ → Product → Option ProductVariant → PurchaseItemDto → Receipt → Receipt
unfolding purchase_item write_cost received received_sync
add_receipt store product variant dto r = record {
  total = r.total + dto.quantity * dto.unit_cost;
  items_data = r.items_data ++ purchase_item product variant dto ∷ [];
  stock_targets = r.stock_targets ++ received store product variant dto;
  woo_sync_entries = r.woo_sync_entries ++ received_sync product variant;
  database = write_cost product variant dto.unit_cost r.database;
}

-- One turn of the loop.
unfoldable pub purchase_line : ℕ → PurchaseItemDto → Receipt → Result Receipt
unfolding purchased_variant add_receipt
purchase_line store dto r = do
  product ←
      or_throw (find (λ p. p.id == dto.product_id) r.database.products) (not_found product_missing)
  variant ← purchased_variant r.database product dto
  ok (add_receipt store product variant dto r)

unfoldable pub purchase_lines : ℕ → List PurchaseItemDto → Receipt → Result Receipt
unfolding purchase_line
purchase_lines store [] r = ok r
purchase_lines store (dto ∷ rest) r = purchase_line store dto r >>= purchase_lines store rest

-- `getNextPurchaseNumber`, less one.
unfoldable pub max_purchase_number : ℕ → List Purchase → ℕ
max_purchase_number store [] = 0
max_purchase_number store (p ∷ purchases) =
    max (if p.store_id == store then p.purchase_number else 0) (max_purchase_number store purchases)

abbrev pub has_purchase_number : ℕ → ℕ → Purchase → Bool
has_purchase_number store number p = p.store_id == store && p.purchase_number == number

-- The row as its columns store it.
abbrev pub stored_purchase_item : PurchaseItem → PurchaseItem
stored_purchase_item i = record i { subtotal = stored_money i.subtotal }

abbrev pub new_purchase : AuthUser → CreatePurchaseDto → Receipt → Purchase
new_purchase actor dto r = record {
  id = r.database.next_id;
  store_id = dto.store_id;
  supplier_id = dto.supplier_id;
  user_id = actor.user_id;
  purchase_number = suc (max_purchase_number dto.store_id r.database.purchases);
  invoice_number = dto.invoice_number;
  total = stored_money r.total;
  notes = dto.notes;
  items = map stored_purchase_item r.items_data;
}

pub record PurchaseCreated : Type 0 where
  pub purchase : Purchase
  pub sync : List StockSyncEntry
  pub database : Database

-- The insert, with the purchases that other transactions have committed since the number was read; then
-- the increments of stock, and the audit.
unfoldable pub write_purchase :
    List Purchase → AuthUser → CreatePurchaseDto → Receipt → Result PurchaseCreated
unfolding max_purchase_number
write_purchase rivals actor dto r = do
  let purchase = new_purchase actor dto r
  throw_if
      (any (has_purchase_number purchase.store_id purchase.purchase_number)
        (rivals ++ r.database.purchases))
      unique_violation
  ok (record {
    purchase = purchase;
    sync = r.woo_sync_entries;
    database = record (r.database) {
      purchases = purchase ∷ rivals ++ r.database.purchases;
      stock_levels = return_all r.stock_targets r.database.stock_levels;
      audit_logs =
          record {
            store_id = some dto.store_id;
            user_id = actor.user_id;
            action = AuditAction.purchase_create;
            entity_id = purchase.id;
          }
          ∷ r.database.audit_logs;
      next_id = suc r.database.next_id;
    };
  })

-- `attemptCreate`
unfoldable pub attempt_create_purchase :
    List Purchase → AuthUser → CreatePurchaseDto → Database → Result PurchaseCreated
unfolding purchase_lines write_purchase
attempt_create_purchase rivals actor dto db = do
  store ← or_throw (find (λ s. s.id == dto.store_id) db.stores) (not_found store_missing)
  supplier ←
      or_throw (find (λ s. s.id == dto.supplier_id) db.suppliers) (not_found supplier_missing)
  receipt ← purchase_lines dto.store_id dto.items (no_receipt db)
  write_purchase rivals actor dto receipt

-- The attempts of `create`: a clash of numbers starts over, any other exception ends the call.
unfoldable pub create_purchase_attempts :
    ℕ
    → (ℕ → List Purchase)
    → AuthUser
    → CreatePurchaseDto
    → Database
    → Result PurchaseCreated × Database
unfolding attempt_create_purchase
create_purchase_attempts zero rivals actor dto db = (err unique_violation, db)
create_purchase_attempts (suc left) rivals actor dto db =
    let committed = record db { purchases = rivals left ++ db.purchases } in
    let again = create_purchase_attempts left rivals actor dto committed in
    elim (attempt_create_purchase (rivals left) actor dto db) [
      | ok created ↦ (ok created, created.database)
      | err unique_violation ↦ again
      | err e ↦ (err e, committed)
    ]

-- `create`
unfoldable pub create_purchase :
    (ℕ → List Purchase)
    → AuthUser
    → CreatePurchaseDto
    → Database
    → Result PurchaseCreated × Database
unfolding create_purchase_attempts
create_purchase rivals = create_purchase_attempts max_purchase_number_attempts rivals
