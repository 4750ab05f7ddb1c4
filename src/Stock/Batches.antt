-- ===== src/Stock/Batches.antt =====
-- Movements of several targets in a row: what a sale takes, and what its cancellation returns.
use punto_de_venta_local_con.Base.{arith, ℕ, ◌+◌, ◌≡◌, refl, List, [], ◌∷◌, ◌++◌, subst}
use punto_de_venta_local_con.Base.Int.{pos, ◌+ℤ◌, ◌≤ℤ◌, int_laws}
use punto_de_venta_local_con.Base.Outcome.{Result, ok, ◌>>=◌, >>=-eq-ok, >>=_assoc, ok-injective}
use punto_de_venta_local_con.Schema.{StockLevel}
use punto_de_venta_local_con.Stock.{StockTarget, increment_stock, decrement_stock_guarded}
use punto_de_venta_local_con.Stock.View.{on_hand, IsKeyed}
use punto_de_venta_local_con.Stock.Moves.{share, on_hand-increment_stock, rows_at-increment_stock}
use punto_de_venta_local_con.Stock.Guarded.{decrement_effect, decrement-IsKeyed, on_hand_same}

-- A quantity, in millionths, at a target.
abbrev pub Move : Type 0
Move = StockTarget × ℕ

unfoldable pub take_all : List Move → List StockLevel → Result (List StockLevel)
take_all [] levels = ok levels
take_all ((t, q) ∷ moves) levels = decrement_stock_guarded t q levels >>= take_all moves

unfoldable pub return_all : List Move → List StockLevel → List StockLevel
return_all [] levels = levels
return_all ((t, q) ∷ moves) levels = return_all moves (increment_stock t q levels)

-- The total that the movements move at a target.
unfoldable pub moved : List Move → StockTarget → ℕ
moved [] u = 0
moved ((t, q) ∷ moves) u = share t q u + moved moves u

take_all-append :
    (xs ys : List Move) (levels : List StockLevel)
    → take_all (xs ++ ys) levels ≡ (take_all xs levels >>= take_all ys)
unfolding take_all
take_all-append [] ys levels = refl
take_all-append ((t, q) ∷ xs) ys levels =
    >>=_assoc (decrement_stock_guarded t q levels) (take_all xs) (take_all ys) (take_all (xs ++ ys))
      (take_all-append xs ys)

pub take_all_nil : (levels : List StockLevel) → take_all [] levels ≡ ok levels
unfolding take_all
take_all_nil levels = refl

-- Two sequences that go through one after the other.
pub take_all_seq :
    (xs ys : List Move) (levels : List StockLevel) {middle levels' : List StockLevel}
    → take_all xs levels ≡ ok middle
    → take_all ys middle ≡ ok levels'
    → take_all (xs ++ ys) levels ≡ ok levels'
take_all_seq xs ys levels e f = rw (take_all-append xs ys levels, e) f

pub return_all-append :
    (xs ys : List Move) (levels : List StockLevel)
    → return_all (xs ++ ys) levels ≡ return_all ys (return_all xs levels)
unfolding return_all
return_all-append [] ys levels = refl
return_all-append ((t, q) ∷ xs) ys levels = return_all-append xs ys (increment_stock t q levels)

pub take_all-IsKeyed :
    (moves : List Move) (levels : List StockLevel) {levels' : List StockLevel}
    → IsKeyed levels
    → take_all moves levels ≡ ok levels'
    → IsKeyed levels'
unfolding take_all
take_all-IsKeyed [] levels k e = subst IsKeyed (ok-injective e) k
take_all-IsKeyed ((t, q) ∷ moves) levels k e =
    let (l, taken_one, rest) = >>=-eq-ok (decrement_stock_guarded t q levels) (take_all moves) e in
    take_all-IsKeyed moves l (decrement-IsKeyed t q levels k taken_one) rest

-- A sequence that goes through takes away, at every target, the sum of its movements there.
pub on_hand-take_all :
    (moves : List Move) (levels : List StockLevel) {levels' : List StockLevel}
    → IsKeyed levels
    → take_all moves levels ≡ ok levels'
    → (u : StockTarget) → on_hand u levels' +ℤ pos (moved moves u) ≡ on_hand u levels
unfolding take_all moved
on_hand-take_all [] levels k e u = rw (← ok-injective e) (omega int_laws)
on_hand-take_all ((t, q) ∷ moves) levels k e u =
    let (l, taken_one, rest) = >>=-eq-ok (decrement_stock_guarded t q levels) (take_all moves) e in
    grind (
      int_laws,
      (decrement_effect t q levels (k t) taken_one).1 u,
      on_hand-take_all moves l (decrement-IsKeyed t q levels k taken_one) rest u,
    )

-- Returning the movements adds them back, at every target.
pub on_hand-return_all :
    (moves : List Move) (levels : List StockLevel) (u : StockTarget)
    → on_hand u (return_all moves levels) ≡ on_hand u levels +ℤ pos (moved moves u)
unfolding return_all moved
on_hand-return_all [] levels u = omega int_laws
on_hand-return_all ((t, q) ∷ moves) levels u = grind (
  int_laws,
  on_hand-return_all moves (increment_stock t q levels) u,
  on_hand-increment_stock t u q levels,
)

-- Guarded decrements never take a target below zero.
pub take_all_nonneg :
    (moves : List Move) (levels : List StockLevel) {levels' : List StockLevel}
    → IsKeyed levels
    → take_all moves levels ≡ ok levels'
    → (u : StockTarget) → pos 0 ≤ℤ on_hand u levels
    → pos 0 ≤ℤ on_hand u levels'
unfolding take_all
take_all_nonneg [] levels k e u h = rw (← ok-injective e) h
take_all_nonneg ((t, q) ∷ moves) levels k e u h =
    let (l, taken_one, rest) = >>=-eq-ok (decrement_stock_guarded t q levels) (take_all moves) e in
    let (enough, after, _) = decrement_effect t q levels (k t) taken_one in
    let left : pos 0 ≤ℤ on_hand u l = grind (int_laws, after u, on_hand_same t u levels) in
    take_all_nonneg moves l (decrement-IsKeyed t q levels k taken_one) rest u left

pub return_all-IsKeyed :
    (moves : List Move) (levels : List StockLevel)
    → IsKeyed levels
    → IsKeyed (return_all moves levels)
unfolding return_all
return_all-IsKeyed [] levels k = k
return_all-IsKeyed ((t, q) ∷ moves) levels k =
    return_all-IsKeyed moves (increment_stock t q levels)
      λ u. ground (arith, rows_at-increment_stock t u q levels, k u)
