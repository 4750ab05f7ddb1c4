-- ===== src/Products/BulkPrice.antt =====
-- apps/api/src/products/products-bulk-price.service.ts: a change of many prices by one rule.
pub mod Chunks
pub mod Applied
use punto_de_venta_local_con.Base.{
  ℕ, zero, suc, ◌+◌, ◌-◌, ◌*◌, ◌/◌, max, Bool, true, false, not, ◌&&◌, Option, none, some, List, [],
  ◌∷◌, ◌++◌, map, String, ◌==◌, if◌then◌else◌, same_id,
}
use punto_de_venta_local_con.Base.Int.{ℤ, pos, pos_part, ◌+ℤ◌}
use punto_de_venta_local_con.Base.Lists.{filter, length}
use punto_de_venta_local_con.Schema.{Database, Product}
use punto_de_venta_local_con.Products.BundlePricing.{
  Repriced, is_derived, update_product, with_price, recalculate_for_components,
}

-- `CHUNK_SIZE`
abbrev pub chunk_size : ℕ
chunk_size = 200

-- `BulkPriceMode`
pub data BulkPriceMode : Type 0 where
  percent fixed_delta : BulkPriceMode

-- `BulkPriceUpdateDto`; a percentage is in hundredths of a percent point, a difference in cents.
pub record BulkPriceUpdateDto : Type 0 where
  pub category_id : Option ℕ
  pub mode : BulkPriceMode
  pub value : ℤ

abbrev pub in_category : Option ℕ → Product → Bool
in_category none p = true
in_category (some id) p = same_id p.category_id (some id)

-- `targetsWhere`
unfoldable pub is_target : BulkPriceUpdateDto → Product → Bool
is_target dto p =
    p.is_active && in_category dto.category_id p && not (is_derived p.bundle_pricing_mode)

-- `computeNewPrice`: rounded to cents, and not below zero.
unfoldable pub new_price : BulkPriceMode → ℤ → ℕ → ℕ
new_price percent value old = (old * pos_part (pos 10_000 +ℤ value) + 5000) / 10_000
new_price fixed_delta value old = pos_part (pos old +ℤ value)

unfoldable pub compute_new_price : ℕ → BulkPriceUpdateDto → ℕ
unfolding new_price
compute_new_price old dto = new_price dto.mode dto.value old

-- `PriceSample`
pub record PriceSample : Type 0 where
  pub id : ℕ
  pub sku : String
  pub name : String
  pub old_price : ℕ
  pub sample_price : ℕ

abbrev pub take {ℓ} : {A : Type ℓ} → ℕ → List A → List A
take zero xs = []
take (suc n) [] = []
take (suc n) (x ∷ xs) = x ∷ take n xs

abbrev pub drop {ℓ} : {A : Type ℓ} → ℕ → List A → List A
drop zero xs = xs
drop (suc n) [] = []
drop (suc n) (x ∷ xs) = drop n xs

abbrev pub sample_of : BulkPriceUpdateDto → Product → PriceSample
sample_of dto p = record {
  id = p.id;
  sku = p.sku;
  name = p.name;
  old_price = p.price;
  sample_price = compute_new_price p.price dto;
}

pub record Preview : Type 0 where
  pub affected_count : ℕ
  pub sample : List PriceSample

-- `preview`, for the order that the query sorts the rows into.
unfoldable pub preview : (List Product → List Product) → BulkPriceUpdateDto → Database → Preview
unfolding is_target compute_new_price
preview by_name dto db = record {
  affected_count = length (filter (is_target dto) db.products);
  sample = map (sample_of dto) (take 10 (by_name (filter (is_target dto) db.products)));
}

-- The updates of a chunk, of the rows that were read before.
unfoldable pub price_chunk : BulkPriceUpdateDto → List Product → Database → List Repriced × Database
unfolding compute_new_price
price_chunk dto [] db = ([], db)
price_chunk dto (t ∷ chunk) db =
    let price = compute_new_price t.price dto in
    let rest = price_chunk dto chunk (update_product t.id (with_price price) db) in
    (record { product_id = t.id; price = price } ∷ rest.0, rest.1)

abbrev pub ids_of : List Product → List ℕ
ids_of = map (λ (p : Product). p.id)

-- The transaction of a chunk.
unfoldable pub apply_chunk : BulkPriceUpdateDto → List Product → Database → List Repriced × Database
unfolding price_chunk recalculate_for_components
apply_chunk dto chunk db =
    let priced = price_chunk dto chunk db in
    let bundles = recalculate_for_components (ids_of chunk) priced.1 in
    (priced.0 ++ bundles.0, bundles.1)

-- `targets.slice(i, i + CHUNK_SIZE)` until the targets are used up; each turn takes at least one.
unfoldable pub chunks_of {ℓ} : {A : Type ℓ} → ℕ → List A → List (List A)
chunks_of zero xs = []
chunks_of (suc fuel) [] = []
chunks_of (suc fuel) (x ∷ xs) = take chunk_size (x ∷ xs) ∷ chunks_of fuel (drop chunk_size (x ∷ xs))

pub record Progress : Type 0 where
  pub updated : ℕ
  pub sync_targets : List Repriced
  pub database : Database

unfoldable pub apply_chunks : BulkPriceUpdateDto → List (List Product) → Progress → Progress
unfolding apply_chunk
apply_chunks dto [] p = p
apply_chunks dto (chunk ∷ chunks) p =
    let done = apply_chunk dto chunk p.database in
    apply_chunks dto chunks (record {
      updated = p.updated + length chunk;
      sync_targets = p.sync_targets ++ done.0;
      database = done.1;
    })

-- `new Map(...)`: the last price of each id, where the first one stood.
unfoldable pub set_last : Repriced → List Repriced → List Repriced
set_last t [] = t ∷ []
set_last t (s ∷ entries) =
    let rest = set_last t entries in if s.product_id == t.product_id then t ∷ entries else s ∷ rest

unfoldable pub last_prices : List Repriced → List Repriced → List Repriced
unfolding set_last
last_prices [] entries = entries
last_prices (t ∷ targets) entries = last_prices targets (set_last t entries)

-- `apply`, while no other request writes products between its transactions: the count, the prices for
-- the online shops and the database.
unfoldable pub apply : BulkPriceUpdateDto → Database → Progress
unfolding is_target chunks_of apply_chunks last_prices
apply dto db =
    let targets = filter (is_target dto) db.products in
    let done =
      apply_chunks dto (chunks_of (length targets) targets)
        (record { updated = 0; sync_targets = []; database = db }) in
    record done { sync_targets = last_prices done.sync_targets [] }
