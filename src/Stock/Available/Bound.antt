-- ===== src/Stock/Available/Bound.antt =====
-- How far the stock of its components bounds the number of bundles.
use native.Mathlib.Nat.{le-div_iff_mul-le}
use punto_de_venta_local_con.Base.{
  ℕ, ◌*◌, ◌≤◌, ◌<◌, ◌≡◌, ◌↔◌, refl, true, Option, none, some, List, [], ◌∷◌, arith, ⊤, Bool-cases,
  inl, inr, ◌⊎◌,
}
use punto_de_venta_local_con.Base.Int.{ℤ, pos, negsuc, ◌≤ℤ◌, int_laws}
use punto_de_venta_local_con.Base.Lists.{All}
use punto_de_venta_local_con.Schema.{StockLevel}
use punto_de_venta_local_con.Stock.{StockTarget, find_stock_level}
use punto_de_venta_local_con.Stock.View.{on_hand, rows_at, on_hand_no_rows, IsKeyed}
use punto_de_venta_local_con.Orders.Lines.{Component, stock_target}
use punto_de_venta_local_con.Stock.Available.{
  quantity_at, floor_div, possible_bundles, lower, min_available, bundle_result,
}

-- With one row at most, the row's quantity is the quantity on hand.
quantity_at-on_hand :
    (t : StockTarget) (levels : List StockLevel)
    → rows_at t levels ≤ 1
    → quantity_at t levels ≡ on_hand t levels
unfolding quantity_at on_hand rows_at find_stock_level
quantity_at-on_hand t [] h = refl
quantity_at-on_hand t (l ∷ levels) h =
    grind (int_laws, quantity_at-on_hand t levels, on_hand_no_rows t levels)

le_floor_div_iff :
    (n : ℕ) (q : ℤ) (d : ℕ) → 0 < n → 0 < d → (pos n ≤ℤ floor_div q d) ↔ (pos (n * d) ≤ℤ q)
unfolding floor_div
le_floor_div_iff n (pos m) d p h =
    let law = le-div_iff_mul-le {k = d} {x = n} {y = m} h in
    (λ e. omega (arith, law.0 (omega arith)), λ e. omega (arith, law.1 (omega arith)))
le_floor_div_iff n (negsuc m) d p h = (λ e. absurd (omega arith), λ e. absurd (omega arith))

-- The row that a component is taken from.
abbrev pub target : ℕ → Component → StockTarget
target store c = stock_target store c.item.component_product_id c.item.component_variant_id

module _ (store n : ℕ) where
  -- The stock of a component is enough for `n` bundles.
  abbrev pub Enough : List StockLevel → Component → Type 0
  Enough levels c =
      c.product.track_stock ≡ true
      → pos (c.item.quantity * (n * 1000)) ≤ℤ on_hand (target store c) levels

  abbrev pub AtLeast : Option ℤ → Type 0
  AtLeast none = ⊤
  AtLeast (some least) = pos n ≤ℤ least

  pub AtLeast-result :
      (least : Option ℤ)
      → 0 < n
      → AtLeast least ↔ (
          ((bundle_result least).is_unlimited ≡ true)
          ⊎ (pos (n * 1_000_000) ≤ℤ (bundle_result least).quantity))
  AtLeast-result none p = ground arith
  AtLeast-result (some (pos m)) p = ground arith
  AtLeast-result (some (negsuc m)) p = ground arith

  possible_iff :
      (levels : List StockLevel) (c : Component)
      → IsKeyed levels
      → 0 < n
      → 0 < c.item.quantity
      → (pos n ≤ℤ possible_bundles store levels c)
        ↔ (pos (c.item.quantity * (n * 1000)) ≤ℤ on_hand (target store c) levels)
  unfolding possible_bundles
  possible_iff levels c k p h =
      let law =
        le_floor_div_iff n (quantity_at (target store c) levels) (c.item.quantity * 1000) p
          (omega arith) in
      let same = quantity_at-on_hand (target store c) levels (k (target store c)) in
      let swap : n * (c.item.quantity * 1000) ≡ c.item.quantity * (n * 1000) = omega arith in
      rw (← same, ← swap) law

  AtLeast-lower :
      (least : Option ℤ) (possible : ℤ)
      → AtLeast (lower least possible) ↔ (AtLeast least × (pos n ≤ℤ possible))
  AtLeast-lower none possible = ground arith
  AtLeast-lower (some least) possible = ground arith

  pub min_available_iff :
      (levels : List StockLevel) (cs : List Component) (least : Option ℤ)
      → IsKeyed levels
      → 0 < n
      → All (λ c. 0 < c.item.quantity) cs
      → AtLeast (min_available store levels cs least) ↔ (AtLeast least × All (Enough levels) cs)
  unfolding min_available
  min_available_iff levels [] least k p h = (λ a. (a, tt), λ a. a.0)
  min_available_iff levels (c ∷ cs) least k p (h, hs) = elim (Bool-cases c.product.track_stock) [
    | inl tracked ↦
        let possible = possible_bundles store levels c in
        let rest = min_available_iff levels cs (lower least possible) k p hs in
        let one = possible_iff levels c k p h in
        let both = AtLeast-lower least possible in
        rw tracked (
          λ a.
              let (l, others) = rest.0 a in
              let (before, enough) = both.0 l in (before, (λ t. one.0 enough, others)),
          λ (before, (enough, others)). rest.1 (both.1 (before, one.1 (enough refl)), others),
        )
    | inr untracked ↦
        let rest = min_available_iff levels cs least k p hs in
        rw untracked (
          λ a. let (before, others) = rest.0 a in (before, (λ t. absurd (cc), others)),
          λ (before, (_, others)). rest.1 (before, others),
        )
  ]
