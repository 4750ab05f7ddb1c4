-- ===== src/Products/BulkPrice/Chunks.antt =====
-- The loop over the chunks takes every target once, in order.
use punto_de_venta_local_con.Base.{
  ℕ, zero, suc, ◌-◌, ◌≤◌, ◌≡◌, refl, ap, ◌∙◌, List, [], ◌∷◌, ◌++◌, arith,
}
use punto_de_venta_local_con.Base.Lists.{length, All}
use punto_de_venta_local_con.Products.BulkPrice.{take, drop, chunk_size, chunks_of}

module _ {ℓ} {A : Type ℓ} where
  abbrev pub concat : List (List A) → List A
  concat [] = []
  concat (xs ∷ xss) = xs ++ concat xss

  take-drop : (n : ℕ) (xs : List A) → take n xs ++ drop n xs ≡ xs
  take-drop zero xs = refl
  take-drop (suc n) [] = refl
  take-drop (suc n) (x ∷ xs) = ap (λ l. x ∷ l) (take-drop n xs)

  length-drop : (n : ℕ) (xs : List A) → length (drop n xs) ≡ length xs - n
  length-drop zero xs = omega arith
  length-drop (suc n) [] = omega arith
  length-drop (suc n) (x ∷ xs) = omega (arith, length-drop n xs)

  length-take : (n : ℕ) (xs : List A) → length (take n xs) ≤ n
  length-take zero xs = omega arith
  length-take (suc n) [] = omega arith
  length-take (suc n) (x ∷ xs) = omega (arith, length-take n xs)

  -- As many turns as there are targets are enough for all of them, in chunks of at most 200.
  pub chunks_of-concat :
      (fuel : ℕ) (xs : List A)
      → length xs ≤ fuel
      → (concat (chunks_of fuel xs) ≡ xs) × All (λ c. length c ≤ 200) (chunks_of fuel xs)
  unfolding chunks_of
  chunks_of-concat zero [] h = (refl, tt)
  chunks_of-concat zero (x ∷ xs) h = absurd (omega arith)
  chunks_of-concat (suc fuel) [] h = (refl, tt)
  chunks_of-concat (suc fuel) (x ∷ xs) h =
      let shorter : length (drop chunk_size (x ∷ xs)) ≤ fuel =
        omega (arith, length-drop chunk_size (x ∷ xs)) in
      let (all, small) = chunks_of-concat fuel (drop chunk_size (x ∷ xs)) shorter in
      (
        ap (λ l. take chunk_size (x ∷ xs) ++ l) all ∙ take-drop chunk_size (x ∷ xs),
        (length-take chunk_size (x ∷ xs), small),
      )
