-- ===== src/Products/Creation/Shape.antt =====
-- The rows that are created with a product.
use punto_de_venta_local_con.Base.{
  ℕ, suc, ◌≤◌, ◌≡◌, refl, subst, false, not, none, some, List, [], ◌∷◌, ◌++◌, arith, same_id_refl,
  Bool-cases, inl, inr, if◌then◌else◌, ⊤,
}
use punto_de_venta_local_con.Base.Lists.{length}
use punto_de_venta_local_con.Base.Outcome.{
  Result, ok, err, unique_violation, ◌>>=◌, ◌>>◌, >>=-eq-ok, >>-eq-ok, ok-injective,
}
use punto_de_venta_local_con.Schema.{Database, Product, ProductType}
use punto_de_venta_local_con.Products.Catalogue.{run_unique, assert_category_exists}
use punto_de_venta_local_con.Products.Creation.{
  CreateProductDto, has_rows, assert_shape_of, assert_type_shape, create_rows, new_product,
  product_taken_by, insert_product, create_product,
}
use punto_de_venta_local_con.Products.Creation.Rows.{
  variants_count, items_count, levels_count, create_levels-Grows, create_variants-Grows,
  create_items-Grows,
}

no_rows {ℓ} : {A : Type ℓ} (xs : List A) → has_rows xs ≡ false → length xs ≡ 0
no_rows [] h = refl
no_rows (x ∷ xs) h = cc

some_rows {ℓ} : {A : Type ℓ} (xs : List A) → not (has_rows xs) ≡ false → 1 ≤ length xs
some_rows [] h = cc
some_rows (x ∷ xs) h = omega arith

-- The rows of stock that a new product gets for itself.
abbrev pub own_stock : ProductType → CreateProductDto → ℕ
own_stock ProductType.simple dto = length dto.initial_stock
own_stock _ dto = 0

-- What a product of each type has of variants, components and rows of stock.
abbrev pub IsShaped : ProductType → ℕ → ℕ → ℕ → Type 0
IsShaped ProductType.simple variants items levels = (variants ≡ 0) × (items ≡ 0)
IsShaped ProductType.variable variants items levels = (1 ≤ variants) × (items ≡ 0) × (levels ≡ 0)
IsShaped ProductType.bundle variants items levels = (variants ≡ 0) × (1 ≤ items) × (levels ≡ 0)

-- No row refers to the id that the next row takes.
abbrev pub IsFresh : Database → Type 0
IsFresh db =
    (variants_count db.next_id db ≡ 0)
    × (items_count db.next_id db ≡ 0)
    × (levels_count db.next_id db ≡ 0)

abbrev Filled : ProductType → ℕ → CreateProductDto → Database → Type 0
Filled type id dto db =
    (variants_count id db ≡ length dto.variants)
    × (items_count id db ≡ length dto.bundle_items)
    × (levels_count id db ≡ own_stock type dto)
    × IsShaped type (variants_count id db) (items_count id db) (levels_count id db)

create_rows-Filled :
    (type : ProductType) (id : ℕ) (dto : CreateProductDto) (db : Database) {db' : Database}
    → assert_shape_of type dto ≡ ok tt
    → (variants_count id db ≡ 0) × (items_count id db ≡ 0) × (levels_count id db ≡ 0)
    → create_rows type id dto db ≡ ok db'
    → Filled type id dto db'
unfolding assert_shape_of create_rows
create_rows-Filled ProductType.simple id dto db {db' = db'} shape (v0, i0, l0) e =
    let variants = no_rows dto.variants (ground arith) in
    let items = no_rows dto.bundle_items (ground arith) in
    let (v, i, l) = create_levels-Grows id (some id) none dto.initial_stock db {db' = db'} e in
    let own = same_id_refl (some id) in
    (ground arith, ground arith, ground arith, (ground arith, ground arith))
create_rows-Filled ProductType.variable id dto db {db' = db'} shape (v0, i0, l0) e =
    let variants = some_rows dto.variants (ground arith) in
    let items = no_rows dto.bundle_items (ground arith) in
    let (v, i, l) = create_variants-Grows id dto.variants db {db' = db'} e in
    (ground arith, ground arith, ground arith, (ground arith, ground arith, ground arith))
create_rows-Filled ProductType.bundle id dto db {db' = db'} shape (v0, i0, l0) e =
    let items = some_rows dto.bundle_items (ground arith) in
    let variants = no_rows dto.variants (ground arith) in
    let (v, i, l) = create_items-Grows id dto.bundle_items db {db' = db'} e in
    (ground arith, ground arith, ground arith, (ground arith, ground arith, ground arith))

inserted_product-eq :
    (dto : CreateProductDto) (db : Database) {db' : Database}
    → run_unique (insert_product dto db) ≡ ok db'
    → record db { products = db.products ++ new_product dto db ∷ []; next_id = suc db.next_id }
      ≡ db'
unfolding insert_product
inserted_product-eq dto db {db' = db'} e =
    elim (Bool-cases (product_taken_by (new_product dto db) db.products)) [
      | inl taken ↦ ground arith
      | inr free ↦ ok-injective (
          subst
            (λ b.
              run_unique (
                if b
                then err unique_violation
                else ok (record db {
                  products = db.products ++ new_product dto db ∷ [];
                  next_id = suc db.next_id;
                }))
              ≡ ok db')
            free e)
    ]

-- Where no row refers to the id that a new product takes, a product whose creation goes through has as
-- many variants and components as were asked for and, if it is simple, a row of stock of its own for each
-- entry; a simple product has neither variants nor components, a variable one has a variant and no
-- components, a bundle has a component and no variants, and the last two have no stock of their own.
pub create_shape :
    (quota : Result ⊤) (dto : CreateProductDto) (db : Database) (p : Product) (db' : Database)
    → IsFresh db
    → create_product quota dto db ≡ ok (p, db')
    → (variants_count p.id db' ≡ length dto.variants)
      × (items_count p.id db' ≡ length dto.bundle_items)
      × (levels_count p.id db' ≡ own_stock p.product_type dto)
      × IsShaped p.product_type
          (variants_count p.id db')
          (items_count p.id db')
          (levels_count p.id db')
unfolding create_product
create_shape quota dto db p db' fresh e =
    let done : Database → Result (Product × Database) = λ filled. ok (new_product dto db, filled) in
    let rows : Database → Result Database = create_rows dto.product_type db.next_id dto in
    let insert = run_unique (insert_product dto db) >>= λ inserted. rows inserted >>= done in
    let (shape, e1) =
      >>-eq-ok (assert_type_shape dto)
        (quota >> (assert_category_exists dto.category_id db >> insert)) e in
    let (paid, e2) = >>-eq-ok quota (assert_category_exists dto.category_id db >> insert) e1 in
    let (category, e3) = >>-eq-ok (assert_category_exists dto.category_id db) insert e2 in
    let (inserted, made, e4) =
      >>=-eq-ok (run_unique (insert_product dto db)) (λ inserted. rows inserted >>= done) e3 in
    let (filled, stored, e5) = >>=-eq-ok (rows inserted) done e4 in
    let same = inserted_product-eq dto db {db' = inserted} made in
    let zero : (variants_count db.next_id inserted ≡ 0)
        × (items_count db.next_id inserted ≡ 0)
        × (levels_count db.next_id inserted ≡ 0) =
      subst
        (λ d.
          (variants_count db.next_id d ≡ 0)
          × (items_count db.next_id d ≡ 0)
          × (levels_count db.next_id d ≡ 0))
        same fresh in
    subst (λ (r : Product × Database). Filled r.0.product_type r.0.id dto r.1) (ok-injective e5)
      (create_rows-Filled dto.product_type db.next_id dto inserted {db' = filled} shape zero stored)
