-- ===== src/Products/Creation/Rows.antt =====
-- How the loops over variants, components and entries of stock add rows.
use punto_de_venta_local_con.Base.{
  ℕ, suc, ◌+◌, ◌≡◌, sym, ap, subst, Bool, not, Option, none, some, List, [], ◌∷◌, ◌++◌, arith, ◌==◌,
  same_id, Bool-cases, inl, inr, if◌then◌else◌,
}
use punto_de_venta_local_con.Base.Int.{pos}
use punto_de_venta_local_con.Base.Lists.{filter, any, length}
use punto_de_venta_local_con.Base.Outcome.{
  Result, ok, err, not_found, store_missing, unique_violation, ◌>>=◌, >>=-eq-ok, >>-eq-ok, throw_if,
  ok-injective,
}
use punto_de_venta_local_con.Schema.{Database, ProductVariant, StockLevel, BundleItem}
use punto_de_venta_local_con.Products.BundlePricing.Stable.{items_of}
use punto_de_venta_local_con.Products.Catalogue.{
  BundleItemDto, new_item, run_unique, create_bundle_item_in_tx,
}
use punto_de_venta_local_con.Products.Catalogue.Composition.{created-eq}
use punto_de_venta_local_con.Products.Creation.{
  StockEntryDto, CreateVariantDto, with_level, create_levels, variant_taken, new_variant,
  insert_variant, create_variant_in_tx, create_variants, create_items,
}

-- How many variants, components and rows of stock a product has of its own.
abbrev pub variants_count : ℕ → Database → ℕ
variants_count id db = length (filter (λ (v : ProductVariant). v.product_id == id) db.variants)

abbrev pub items_count : ℕ → Database → ℕ
items_count id db = length (items_of id db)

abbrev pub levels_count : ℕ → Database → ℕ
levels_count id db =
    length (filter (λ (l : StockLevel). same_id l.product_id (some id)) db.stock_levels)

-- The counts of a product grow by the numbers given.
abbrev pub Grows : ℕ → ℕ → ℕ → ℕ → Database → Database → Type 0
Grows id v i l db db' =
    (variants_count id db' ≡ v + variants_count id db)
    × (items_count id db' ≡ i + items_count id db)
    × (levels_count id db' ≡ l + levels_count id db)

length-filter_last {ℓ} :
    {A : Type ℓ} (p : A → Bool) (xs : List A) (x : A)
    → length (filter p (xs ++ x ∷ [])) ≡ (if p x then 1 else 0) + length (filter p xs)
length-filter_last p [] x = ground arith
length-filter_last p (y ∷ xs) x = ground (arith, length-filter_last p xs x)

pub create_levels-Grows :
    (id : ℕ) (product variant : Option ℕ) (entries : List StockEntryDto) (db : Database)
    {db' : Database}
    → create_levels product variant entries db ≡ ok db'
    → Grows id 0 0 (if same_id product (some id) then length entries else 0) db db'
unfolding create_levels
create_levels-Grows id product variant [] db e =
    subst (Grows id 0 0 (if same_id product (some id) then 0 else 0) db) (ok-injective e)
      (omega arith, omega arith, ground arith)
create_levels-Grows id product variant (entry ∷ entries) db {db' = db'} e =
    let next = with_level product variant entry db in
    let (store, e1) =
      >>-eq-ok
        (throw_if (not (any (λ s. s.id == entry.store_id) db.stores)) (not_found store_missing))
        (create_levels product variant entries next) e in
    let (v, i, l) = create_levels-Grows id product variant entries next {db' = db'} e1 in
    let one =
      length-filter_last (λ (row : StockLevel). same_id row.product_id (some id)) db.stock_levels
        record {
          store_id = entry.store_id;
          product_id = product;
          variant_id = variant;
          quantity = pos entry.quantity;
          min_alert_stock = entry.min_alert_stock;
        } in
    (ground arith, ground arith, ground arith)

inserted_variant-eq :
    (product : ℕ) (dto : CreateVariantDto) (db : Database) {db' : Database}
    → run_unique (insert_variant product dto db) ≡ ok db'
    → record db {
      variants = db.variants ++ new_variant product dto db ∷ [];
      next_id = suc db.next_id;
    }
      ≡ db'
unfolding insert_variant
inserted_variant-eq product dto db {db' = db'} e =
    elim (Bool-cases (variant_taken dto db.variants)) [
      | inl taken ↦ ground arith
      | inr free ↦ ok-injective (
          subst
            (λ b.
              run_unique (
                if b
                then err unique_violation
                else ok (record db {
                  variants = db.variants ++ new_variant product dto db ∷ [];
                  next_id = suc db.next_id;
                }))
              ≡ ok db')
            free e)
    ]

create_variant-Grows :
    (product : ℕ) (dto : CreateVariantDto) (db : Database) {created : ProductVariant × Database}
    → create_variant_in_tx product dto db ≡ ok created
    → Grows product 1 0 0 db created.1
unfolding create_variant_in_tx
create_variant-Grows product dto db {created = created} e =
    let done : Database → Result (ProductVariant × Database) =
      λ stocked. ok (new_variant product dto db, stocked) in
    let stock : Database → Result Database =
      create_levels none (some db.next_id) dto.initial_stock in
    let (mid, made, e1) =
      >>=-eq-ok (run_unique (insert_variant product dto db)) (λ m. stock m >>= done) e in
    let (stocked, filled, e2) = >>=-eq-ok (stock mid) done e1 in
    let same = inserted_variant-eq product dto db {db' = mid} made in
    let (v, i, l) =
      create_levels-Grows product none (some db.next_id) dto.initial_stock mid {db' = stocked}
        filled in
    let one =
      length-filter_last (λ (row : ProductVariant). row.product_id == product) db.variants
        (new_variant product dto db) in
    let (v1, i1, l1) : Grows product 1 0 0 db mid =
      subst (Grows product 1 0 0 db) same (ground arith, omega arith, omega arith) in
    subst (Grows product 1 0 0 db) (ap (λ (c : ProductVariant × Database). c.1) (ok-injective e2))
      (ground arith, ground arith, ground arith)

pub create_variants-Grows :
    (product : ℕ) (dtos : List CreateVariantDto) (db : Database) {db' : Database}
    → create_variants product dtos db ≡ ok db'
    → Grows product (length dtos) 0 0 db db'
unfolding create_variants
create_variants-Grows product [] db e =
    subst (Grows product 0 0 0 db) (ok-injective e) (omega arith, omega arith, omega arith)
create_variants-Grows product (dto ∷ dtos) db {db' = db'} e =
    let (created, made, e1) =
      >>=-eq-ok (create_variant_in_tx product dto db)
        (λ created. create_variants product dtos created.1) e in
    let (v, i, l) = create_variant-Grows product dto db {created = created} made in
    let (vs, is, ls) = create_variants-Grows product dtos created.1 {db' = db'} e1 in
    (ground arith, ground arith, ground arith)

pub create_items-Grows :
    (product : ℕ) (dtos : List BundleItemDto) (db : Database) {db' : Database}
    → create_items product dtos db ≡ ok db'
    → Grows product 0 (length dtos) 0 db db'
unfolding create_items
create_items-Grows product [] db e =
    subst (Grows product 0 0 0 db) (ok-injective e) (omega arith, omega arith, omega arith)
create_items-Grows product (dto ∷ dtos) db {db' = db'} e =
    let (created, made, e1) =
      >>=-eq-ok (create_bundle_item_in_tx product dto db)
        (λ created. create_items product dtos created.1) e in
    let (p, found, simple, same) = created-eq product dto db made in
    let one =
      length-filter_last (λ (row : BundleItem). row.bundle_product_id == product) db.bundle_items
        (new_item product dto db) in
    let (v, i, l) : Grows product 0 1 0 db created.1 =
      subst (Grows product 0 1 0 db) (sym same) (omega arith, ground arith, omega arith) in
    let (vs, is, ls) = create_items-Grows product dtos created.1 {db' = db'} e1 in
    (ground arith, ground arith, ground arith)
