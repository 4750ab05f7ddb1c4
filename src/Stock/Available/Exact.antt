-- ===== src/Stock/Available/Exact.antt =====
-- The availability of a bundle against what a sale can take.
use punto_de_venta_local_con.Base.{
  ℕ, ◌*◌, ◌≤◌, ◌<◌, ◌≡◌, ◌↔◌, refl, true, false, none, List, [], ◌∷◌, arith, ⊤, Bool-cases, inl,
  inr, ◌==◌, ◌⊎◌, ap,
}
use punto_de_venta_local_con.Base.Int.{pos, ◌≤ℤ◌, ◌+ℤ◌, int_laws, neg}
use punto_de_venta_local_con.Base.Lists.{All}
use punto_de_venta_local_con.Schema.{StockLevel}
use punto_de_venta_local_con.Stock.{StockTarget, decrement_stock_guarded}
use punto_de_venta_local_con.Stock.Moves.{share, affected, taken, decrement_stock_guarded_lem}
use punto_de_venta_local_con.Stock.Guarded.{
  decrement_refused_iff, decrement_effect, decrement-IsKeyed,
}
use punto_de_venta_local_con.Base.Outcome.{
  ok, err, bad_request, stock_insufficient, >>=-eq-ok, >>=-ok, ok-injective,
}
use punto_de_venta_local_con.Stock.View.{on_hand, rows_at, IsKeyed, same_target}
use punto_de_venta_local_con.Orders.Lines.{
  Component, Fulfilment, sync_entry, take_tracked, take_components, take_bundle,
}
use punto_de_venta_local_con.Stock.Available.{min_available, get_bundle_available_stock}
use punto_de_venta_local_con.Stock.Available.Bound.{
  target, Enough, AtLeast-result, min_available_iff,
}

-- No two components are taken from the same row.
unfoldable pub AreApart : ℕ → List Component → Type 0
AreApart store [] = ⊤
AreApart store (c ∷ cs) =
    All (λ d. same_target (target store c) (target store d) ≡ false) cs × AreApart store cs

decrement-cases :
    (t : StockTarget) (q : ℕ) (levels : List StockLevel)
    → ((levels' : List StockLevel) × (decrement_stock_guarded t q levels ≡ ok levels'))
      ⊎ (decrement_stock_guarded t q levels ≡ err (bad_request stock_insufficient))
decrement-cases t q levels =
    rw (decrement_stock_guarded_lem t q levels) (elim (Bool-cases (affected t q levels == 0)) [
      | inl short ↦ inr (rw short refl)
      | inr through ↦ inl (taken t q levels, rw through refl)
    ])

module _ (store n : ℕ) where
  decrement_passes :
      (t : StockTarget) (q : ℕ) (levels : List StockLevel)
      → rows_at t levels ≤ 1
      → 0 < q
      → pos q ≤ℤ on_hand t levels
      → (levels' : List StockLevel) × (decrement_stock_guarded t q levels ≡ ok levels')
  decrement_passes t q levels h p enough =
      let refused = decrement_refused_iff t q levels h p in
      elim (decrement-cases t q levels) [
        | inl through ↦ through
        | inr short ↦ absurd (refused.0 short enough)
      ]

  Enough-apart :
      (t : StockTarget) (q : ℕ) (levels levels' : List StockLevel) (cs : List Component)
      → ((u : StockTarget) → on_hand u levels' +ℤ pos (share t q u) ≡ on_hand u levels)
      → All (λ d. same_target t (target store d) ≡ false) cs
      → All (Enough store n levels) cs
      → All (Enough store n levels') cs
  Enough-apart t q levels levels' [] moved apart enough = tt
  Enough-apart t q levels levels' (d ∷ cs) moved (a, apart) (e, enough) = (
    λ tracked. let same = moved (target store d) in let before = e tracked in grind int_laws,
    Enough-apart t q levels levels' cs moved apart enough,
  )

  Enough-before :
      (t : StockTarget) (q : ℕ) (levels levels' : List StockLevel) (cs : List Component)
      → ((u : StockTarget) → on_hand u levels' +ℤ pos (share t q u) ≡ on_hand u levels)
      → All (Enough store n levels') cs
      → All (Enough store n levels) cs
  Enough-before t q levels levels' [] moved enough = tt
  Enough-before t q levels levels' (d ∷ cs) moved (e, enough) = (
    λ tracked. let same = moved (target store d) in let after = e tracked in grind int_laws,
    Enough-before t q levels levels' cs moved enough,
  )

  take_components-Enough :
      (levels : List StockLevel) (cs : List Component) {f : Fulfilment}
      → IsKeyed levels
      → take_components store (n * 1000) cs levels ≡ ok f
      → All (Enough store n levels) cs
  unfolding take_components take_tracked
  take_components-Enough levels [] k e = tt
  take_components-Enough levels (c ∷ cs) {f} k e = elim (Bool-cases c.product.track_stock) [
    | inl tracked ↦
        let required = c.item.quantity * (n * 1000) in
        let (one, taken_one, e₁) =
          >>=-eq-ok
            (take_tracked store c.product.track_stock c.item.component_product_id
              c.item.component_variant_id required levels)
            _ e in
        let (left, decremented, same) =
          >>=-eq-ok (decrement_stock_guarded (target store c) required levels) _
            (rw tracked at taken_one) in
        let (enough, moved, _) =
          decrement_effect (target store c) required levels (k (target store c)) decremented in
        let levels_eq : left ≡ one.levels = ap (λ (f : Fulfilment). f.levels) (ok-injective same) in
        let (rest, taken_rest, _) =
          >>=-eq-ok (take_components store (n * 1000) cs one.levels) _ e₁ in
        let keyed = decrement-IsKeyed (target store c) required levels k decremented in
        let after =
          take_components-Enough left cs {f = rest} keyed (rw (← levels_eq) at taken_rest) in
        (λ t. enough, Enough-before (target store c) required levels left cs moved after)
    | inr untracked ↦
        let required = c.item.quantity * (n * 1000) in
        let (one, taken_one, e₁) =
          >>=-eq-ok
            (take_tracked store c.product.track_stock c.item.component_product_id
              c.item.component_variant_id required levels)
            _ e in
        let same = ok-injective (rw untracked at taken_one) in
        let levels_eq : levels ≡ one.levels = ap (λ (f : Fulfilment). f.levels) same in
        let (rest, taken_rest, _) =
          >>=-eq-ok (take_components store (n * 1000) cs one.levels) _ e₁ in
        (
          λ t. absurd (cc),
          take_components-Enough levels cs {f = rest} k (rw (← levels_eq) at taken_rest),
        )
  ]

  Enough-take_components :
      (levels : List StockLevel) (cs : List Component)
      → IsKeyed levels
      → 0 < n
      → All (λ c. 0 < c.item.quantity) cs
      → AreApart store cs
      → All (Enough store n levels) cs
      → (f : Fulfilment) × (take_components store (n * 1000) cs levels ≡ ok f)
  unfolding take_components take_tracked AreApart
  Enough-take_components levels [] k p h apart enough =
      (record { components = []; sync = []; levels = levels }, refl)
  Enough-take_components levels (c ∷ cs) k p (h, hs) (a, apart) (enough, others) =
      let product = c.item.component_product_id in
      let variant = c.item.component_variant_id in
      let required = c.item.quantity * (n * 1000) in
      elim (Bool-cases c.product.track_stock) [
        | inl tracked ↦
            let (left, decremented) =
              decrement_passes (target store c) required levels (k (target store c)) (grind arith)
                (enough tracked) in
            let (_, moved, _) =
              decrement_effect (target store c) required levels (k (target store c)) decremented in
            let keyed = decrement-IsKeyed (target store c) required levels k decremented in
            let (f, rest) =
              Enough-take_components left cs keyed p hs apart
                (Enough-apart (target store c) required levels left cs moved a others) in
            let one : Fulfilment = record {
              components = [];
              sync = sync_entry product variant ∷ [];
              levels = left;
            } in
            >>=-ok (take_tracked store c.product.track_stock product variant required levels) _ one
              (rw (tracked, decremented) refl)
              (>>=-ok (take_components store (n * 1000) cs left) _ f rest (_, refl))
        | inr untracked ↦
            let (f, rest) = Enough-take_components levels cs k p hs apart others in
            let one : Fulfilment = record { components = []; sync = []; levels = levels } in
            >>=-ok (take_tracked store c.product.track_stock product variant required levels) _ one
              (rw untracked refl)
              (>>=-ok (take_components store (n * 1000) cs levels) _ f rest (_, refl))
      ]

-- Whole units: the numbers that the code's doubles divide and multiply without an error of rounding.
abbrev pub AreWhole : List StockLevel → List Component → Type 0
AreWhole levels cs =
    All
      (λ l.
        (n : ℕ) × ((l.quantity ≡ pos (n * 1_000_000)) ⊎ (l.quantity ≡ neg (pos (n * 1_000_000)))))
      levels
    × All (λ c. (n : ℕ) × (c.item.quantity ≡ n * 1_000)) cs

-- Where stock and components are counted in whole units, with at most one row of stock for each target,
-- a bundle of components in positive quantities, no two of them of one row, is available without limit or
-- in a quantity of at least a positive n exactly if a sale of n of it finds the stock of every component.
pub bundle_availability_exact :
    (store n : ℕ) (levels : List StockLevel) (c : Component) (cs : List Component)
    → AreWhole levels (c ∷ cs)
    → IsKeyed levels
    → 0 < n
    → All (λ d. 0 < d.item.quantity) (c ∷ cs)
    → AreApart store (c ∷ cs)
    → let r = get_bundle_available_stock store levels (c ∷ cs) in
      ((r.is_unlimited ≡ true) ⊎ (pos (n * 1_000_000) ≤ℤ r.quantity))
      ↔ ((f : Fulfilment) × (take_bundle store (n * 1000) (c ∷ cs) levels ≡ ok f))
unfolding get_bundle_available_stock take_bundle
bundle_availability_exact store n levels c cs whole k p h apart =
    let least = min_available store levels (c ∷ cs) none in
    let bound = min_available_iff store n levels (c ∷ cs) none k p h in
    let result = AtLeast-result store n least p in
    (
      λ a. Enough-take_components store n levels (c ∷ cs) k p h apart (bound.0 (result.1 a)).1,
      λ (f, e). result.0 (bound.1 (tt, take_components-Enough store n levels (c ∷ cs) {f = f} k e)),
    )
