-- ===== src/Products/BulkPrice/Applied.antt =====
-- The bundles after a change of many prices.
use punto_de_venta_local_con.Base.{
  ℕ, ◌+◌, ◌≤◌, ◌≡◌, refl, sym, ap, subst, ◌∙◌, Bool, true, false, ◌⊎◌, List, [], ◌∷◌, ◌++◌, arith,
  ◌==◌, Bool-cases, inl, inr,
}
use punto_de_venta_local_con.Base.Lists.{filter, All, length}
use punto_de_venta_local_con.Schema.{Database, Product, BundleItem}
use punto_de_venta_local_con.Orders.Lines.Moves.{product_rows, HasUniqueIds}
use punto_de_venta_local_con.Products.BundlePricing.{has_derived, update_product, with_price}
use punto_de_venta_local_con.Products.BundlePricing.Stable.{
  IsFlat, KeepsKind, has_component, items_of, update_product-IsFlat,
}
use punto_de_venta_local_con.Products.BundlePricing.Recalculated.{
  IsPriced, has_derived-update, update_product-IsPriced,
}
use punto_de_venta_local_con.Products.BundlePricing.Affected.{
  touches, manual-IsPriced, recalculate_for_components-IsPriced,
}
use punto_de_venta_local_con.Products.BulkPrice.{
  BulkPriceUpdateDto, is_target, compute_new_price, price_chunk, ids_of, apply_chunk, chunks_of,
  Progress, apply_chunks, apply,
}
use punto_de_venta_local_con.Products.BulkPrice.Chunks.{concat, chunks_of-concat}

-- The products of a list are not derived bundles.
abbrev AreManual : List Product → Database → Type 0
AreManual ts db = All (λ t. has_derived t.id db.products ≡ false) ts

touches-of :
    (t x : ℕ) (ids : List ℕ) (items : List BundleItem)
    → has_component t (filter (λ bi. bi.bundle_product_id == x) items) ≡ true
    → touches (t ∷ ids) x items ≡ true
touches-of t x ids [] h = cc
touches-of t x ids (bi ∷ items) h = ground (arith, touches-of t x ids items)

touches-cons :
    (t x : ℕ) (ids : List ℕ) (items : List BundleItem)
    → touches ids x items ≡ true
    → touches (t ∷ ids) x items ≡ true
touches-cons t x ids [] h = cc
touches-cons t x ids (bi ∷ items) h = ground (arith, touches-cons t x ids items)

with_price-kind : (price : ℕ) → KeepsKind (with_price price)
with_price-kind price p = (refl, refl)

still_manual :
    (t : Product) (ts : List Product) (price : ℕ) (db : Database)
    → AreManual ts db
    → AreManual ts (update_product t.id (with_price price) db)
still_manual t [] price db h = tt
still_manual t (u ∷ ts) price db (h, hs) = (
  has_derived-update u.id t.id (with_price price) db.products (with_price-kind price) (λ p d. d) h,
  still_manual t ts price db hs,
)

-- One product of a chunk takes its new price.
one-IsPriced :
    (t : Product) (price x : ℕ) (ids : List ℕ) (db : Database)
    → has_derived t.id db.products ≡ false
    → IsPriced x db
    → (touches (t.id ∷ ids) x db.bundle_items ≡ true)
      ⊎ IsPriced x (update_product t.id (with_price price) db)
one-IsPriced t price x ids db manual priced =
    elim (Bool-cases (has_component t.id (items_of x db))) [
      | inl part ↦ inl (touches-of t.id x ids db.bundle_items part)
      | inr apart ↦ elim (Bool-cases (x == t.id)) [
        | inl same ↦
            let e : t.id ≡ x = ground arith in
            inr (
              manual-IsPriced x (update_product t.id (with_price price) db) (
                has_derived-update x t.id (with_price price) db.products (with_price-kind price)
                  (λ p d. d) (subst (λ y. has_derived y db.products ≡ false) e manual)))
        | inr other ↦ inr (
            update_product-IsPriced x t.id (with_price price) db (with_price-kind price) apart other
              priced)
      ]
    ]

-- What a step of the change keeps.
record Keeps (db db' : Database) : Type 0 where
  flat : IsFlat db'
  items : db'.bundle_items ≡ db.bundle_items
  manuals : (y : ℕ) → has_derived y db.products ≡ false → has_derived y db'.products ≡ false

price_chunk-Keeps :
    (dto : BulkPriceUpdateDto) (chunk : List Product) (db : Database)
    → IsFlat db
    → AreManual chunk db
    → Keeps db (price_chunk dto chunk db).1
      × ((x : ℕ)
          → IsPriced x db
          → (touches (ids_of chunk) x db.bundle_items ≡ true)
            ⊎ IsPriced x (price_chunk dto chunk db).1)
unfolding price_chunk
price_chunk-Keeps dto [] db flat manual =
    (record { flat = flat; items = refl; manuals = λ y h. h }, λ x p. inr p)
price_chunk-Keeps dto (t ∷ chunk) db flat (manual, manuals) =
    let price = compute_new_price t.price dto in
    let next = update_product t.id (with_price price) db in
    let (kept, rest) =
      price_chunk-Keeps dto chunk next
        (update_product-IsFlat t.id (with_price price) db (with_price-kind price) flat)
        (still_manual t chunk price db manuals) in
    (
      record {
        flat = kept.flat;
        items = kept.items;
        manuals = λ y h. kept.manuals y (
            has_derived-update y t.id (with_price price) db.products (with_price-kind price)
              (λ p d. d) h);
      },
      λ x p. elim (one-IsPriced t price x (ids_of chunk) db manual p) [
        | inl touched ↦ inl touched
        | inr now_priced ↦ elim (rest x now_priced) [
          | inl touched ↦ inl (touches-cons t.id x (ids_of chunk) db.bundle_items touched)
          | inr done ↦ inr done
        ]
      ],
    )

apply_chunk-Keeps :
    (dto : BulkPriceUpdateDto) (chunk : List Product) (db : Database)
    → IsFlat db
    → AreManual chunk db
    → Keeps db (apply_chunk dto chunk db).1
      × ((x : ℕ) → IsPriced x db → IsPriced x (apply_chunk dto chunk db).1)
unfolding apply_chunk
apply_chunk-Keeps dto chunk db flat manual =
    let (kept, priced) = price_chunk-Keeps dto chunk db flat manual in
    let (a, b, c, d) =
      recalculate_for_components-IsPriced (ids_of chunk) (price_chunk dto chunk db).1 kept.flat in
    (
      record { flat = a; items = b ∙ kept.items; manuals = λ y h. c y (kept.manuals y h) },
      λ x p. elim (priced x p) [
        | inl touched ↦ d x (inl (ap (touches (ids_of chunk) x) kept.items ∙ touched))
        | inr done ↦ d x (inr done)
      ],
    )

kept_manual :
    (ts : List Product) (db db' : Database) → Keeps db db' → AreManual ts db → AreManual ts db'
kept_manual [] db db' k h = tt
kept_manual (t ∷ ts) db db' k (h, hs) = (k.manuals t.id h, kept_manual ts db db' k hs)

manual_first :
    (xs ys : List Product) (db : Database)
    → AreManual (xs ++ ys) db
    → AreManual xs db × AreManual ys db
manual_first [] ys db h = (tt, h)
manual_first (x ∷ xs) ys db (h, hs) = let (a, b) = manual_first xs ys db hs in ((h, a), b)

apply_chunks-IsPriced :
    (dto : BulkPriceUpdateDto) (chunks : List (List Product)) (p : Progress)
    → IsFlat p.database
    → AreManual (concat chunks) p.database
    → (IsFlat (apply_chunks dto chunks p).database)
      × ((apply_chunks dto chunks p).updated ≡ p.updated + length (concat chunks))
      × ((x : ℕ) → IsPriced x p.database → IsPriced x (apply_chunks dto chunks p).database)
unfolding apply_chunks
apply_chunks-IsPriced dto [] p flat manual = (flat, omega arith, λ x h. h)
apply_chunks-IsPriced dto (chunk ∷ chunks) p flat manual =
    let (here, later) = manual_first chunk (concat chunks) p.database manual in
    let (kept, priced) = apply_chunk-Keeps dto chunk p.database flat here in
    let done = apply_chunk dto chunk p.database in
    let next : Progress = record {
      updated = p.updated + length chunk;
      sync_targets = p.sync_targets ++ done.0;
      database = done.1;
    } in
    let (a, b, c) =
      apply_chunks-IsPriced dto chunks next kept.flat
        (kept_manual (concat chunks) p.database done.1 kept later) in
    (a, omega (arith, b, length-concat chunk (concat chunks)), λ x h. c x (priced x h))
  where
    length-concat : (xs ys : List Product) → length (xs ++ ys) ≡ length xs + length ys
    length-concat [] ys = omega arith
    length-concat (x ∷ xs) ys = omega (arith, length-concat xs ys)

-- With no row of an id none of the rows is derived, nor the target of it.
absent_derived : (id : ℕ) (ps : List Product) → product_rows id ps ≡ 0 → has_derived id ps ≡ false
unfolding product_rows
absent_derived id [] h = refl
absent_derived id (p ∷ ps) h = ground (arith, absent_derived id ps)

absent_target :
    (q : Product) (test : Product → Bool) (ps rest : List Product)
    → product_rows q.id ps ≡ 0
    → All (λ t. has_derived t.id rest ≡ false) (filter test ps)
    → All (λ t. has_derived t.id (q ∷ rest) ≡ false) (filter test ps)
unfolding product_rows
absent_target q test [] rest h a = tt
absent_target q test (p ∷ ps) rest h a = elim (Bool-cases (test p)) [
  | inl chosen ↦
      let a' : (has_derived p.id rest ≡ false)
          × All (λ t. has_derived t.id rest ≡ false) (filter test ps) =
        rw chosen at a in
      rw chosen (ground arith, absent_target q test ps rest (ground arith) a'.1)
  | inr left ↦ rw left (absent_target q test ps rest (ground arith) (rw left at a))
]

targets_manual :
    (dto : BulkPriceUpdateDto) (ps : List Product)
    → ((id : ℕ) → product_rows id ps ≤ 1)
    → All (λ t. has_derived t.id ps ≡ false) (filter (is_target dto) ps)
unfolding product_rows is_target
targets_manual dto [] unique = tt
targets_manual dto (q ∷ ps) unique =
    let fewer : (id : ℕ) → product_rows id ps ≤ 1 = λ id. ground (arith, unique id) in
    let none_left : product_rows q.id ps ≡ 0 = ground (arith, unique q.id) in
    let rest = absent_target q (is_target dto) ps ps none_left (targets_manual dto ps fewer) in
    elim (Bool-cases (is_target dto q)) [
      | inl chosen ↦ rw chosen (ground (arith, absent_derived q.id ps none_left), rest)
      | inr left ↦ rw left rest
    ]

-- Where product ids are unique and no component of a bundle is a bundle, a change of many prices keeps
-- every derived bundle at the price of its components, if it was so priced: also where components
-- of one bundle stand in several chunks. It counts every product that the rule selects once.
pub bulk_apply-IsPriced :
    (dto : BulkPriceUpdateDto) (db : Database)
    → HasUniqueIds db
    → IsFlat db
    → ((x : ℕ) → IsPriced x db → IsPriced x (apply dto db).database)
      × ((apply dto db).updated ≡ length (filter (is_target dto) db.products))
unfolding apply
bulk_apply-IsPriced dto db unique flat =
    let targets = filter (is_target dto) db.products in
    let start : Progress = record { updated = 0; sync_targets = []; database = db } in
    let (all, _) = chunks_of-concat (length targets) targets (omega arith) in
    let manual : AreManual (concat (chunks_of (length targets) targets)) db =
      subst (λ ts. AreManual ts db) (sym all) (targets_manual dto db.products unique) in
    let (_, count, priced) =
      apply_chunks-IsPriced dto (chunks_of (length targets) targets) start flat manual in
    (priced, omega (arith, count, ap (λ (ts : List Product). length ts) all))
