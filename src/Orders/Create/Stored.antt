-- ===== src/Orders/Create/Stored.antt =====
-- The rows of a sale as their columns store them: the amounts in whole cents.
use punto_de_venta_local_con.Base.{ℕ, ◌+◌, ◌*◌, ◌≤◌, ◌≡◌, refl, List, [], ◌∷◌, map, arith}
use punto_de_venta_local_con.Base.Lists.{length, sum_of}
use punto_de_venta_local_con.Schema.{Database, OrderItem, stored_money_bounds}
use punto_de_venta_local_con.Orders.Lines.Moves.{order_moves, item_moves}
use punto_de_venta_local_con.Orders.Create.{stored_item}

-- Two amounts within half a cent of each other.
abbrev pub IsNear : ℕ → ℕ → Type 0
IsNear a b = (a ≤ b + 500) × (b ≤ a + 500)

-- A stored row and the row that it stores: the same but for its amounts, which are near.
abbrev pub Stores : OrderItem → OrderItem → Type 0
Stores i row =
    (i ≡ record row { discount_amount = i.discount_amount; subtotal = i.subtotal; total = i.total })
    × IsNear i.discount_amount row.discount_amount
    × IsNear i.subtotal row.subtotal
    × IsNear i.total row.total

abbrev pub StoresAll : List OrderItem → List OrderItem → Type 0
StoresAll [] [] = Unit
StoresAll (i ∷ items) (row ∷ rows) = Stores i row × StoresAll items rows
StoresAll _ _ = ⊥

pub StoresAll-stored_item : (rows : List OrderItem) → StoresAll (map stored_item rows) rows
StoresAll-stored_item [] = tt
StoresAll-stored_item (row ∷ rows) = (
  (
    refl,
    stored_money_bounds row.discount_amount,
    stored_money_bounds row.subtotal,
    stored_money_bounds row.total,
  ),
  StoresAll-stored_item rows,
)

-- Rows that are rounded one by one come to their sums within half a cent for each.
pub stored_rows_bounds :
    (items : List OrderItem)
    → let rows = map stored_item items in
      (sum_of (λ i. i.total) rows ≤ sum_of (λ i. i.total) items + length rows * 500)
      × (sum_of (λ i. i.total) items ≤ sum_of (λ i. i.total) rows + length rows * 500)
      × (sum_of (λ i. i.subtotal) rows ≤ sum_of (λ i. i.subtotal) items + length rows * 500)
      × (sum_of (λ i. i.subtotal) items ≤ sum_of (λ i. i.subtotal) rows + length rows * 500)
stored_rows_bounds [] = (omega arith, omega arith, omega arith, omega arith)
stored_rows_bounds (i ∷ items) =
    let (t₁, t₂, s₁, s₂) = stored_rows_bounds items in
    let (t₃, t₄) = stored_money_bounds i.total in
    let (s₃, s₄) = stored_money_bounds i.subtotal in
    (omega arith, omega arith, omega arith, omega arith)

-- The rows move the same stock after their amounts are stored.
pub order_moves-stored :
    (db : Database) (store : ℕ) (items : List OrderItem)
    → order_moves db store (map stored_item items) ≡ order_moves db store items
unfolding order_moves item_moves
order_moves-stored db store [] = refl
order_moves-stored db store (i ∷ items) = simp (order_moves-stored db store items)
