-- ===== src/Customers/Account/Balance.antt =====
-- The guarded update of the balance.
use punto_de_venta_local_con.Base.{
  ℕ, ◌+◌, ◌≤◌, ◌<◌, ◌≡◌, ◌↔◌, refl, false, none, some, List, [], ◌∷◌, ◌==◌, if◌then◌else◌, arith,
}
use punto_de_venta_local_con.Base.Int.{ℤ, pos, ◌+ℤ◌, int_laws}
use punto_de_venta_local_con.Base.Lists.{find, filter, length, update_where}
use punto_de_venta_local_con.Base.Outcome.{
  ok, err, not_found, bad_request, customer_missing, credit_limit_exceeded,
}
use punto_de_venta_local_con.Schema.{Customer}
use punto_de_venta_local_con.Customers.Account.{
  may_move, move_balance, update_balance, within_credit,
}

-- The balance of a customer: the sum over the rows of the id, of which there is one at most.
unfoldable pub balance_of : ℕ → List Customer → ℤ
balance_of id [] = pos 0
balance_of id (c ∷ customers) =
    (if c.id == id then c.account_balance else pos 0) +ℤ balance_of id customers

unfoldable pub rows_of : ℕ → List Customer → ℕ
rows_of id [] = 0
rows_of id (c ∷ customers) = (if c.id == id then 1 else 0) + rows_of id customers

-- `id` is the primary key.
abbrev pub IsKeyed : List Customer → Type 0
IsKeyed customers = (id : ℕ) → rows_of id customers ≤ 1

unfoldable pub moved_rows : ℕ → ℤ → List Customer → List Customer
moved_rows id delta customers = update_where (may_move id delta) (move_balance delta) customers

unfoldable pub affected : ℕ → ℤ → List Customer → ℕ
affected id delta customers = length (filter (may_move id delta) customers)

balance_of_no_rows :
    (id : ℕ) (customers : List Customer)
    → rows_of id customers ≡ 0
    → (balance_of id customers ≡ pos 0)
unfolding balance_of rows_of
balance_of_no_rows id [] h = refl
balance_of_no_rows id (c ∷ customers) h = grind (int_laws, balance_of_no_rows id customers)

affected_no_rows :
    (id : ℕ) (delta : ℤ) (customers : List Customer)
    → rows_of id customers ≡ 0
    → (affected id delta customers ≡ 0) × (moved_rows id delta customers ≡ customers)
unfolding affected rows_of may_move moved_rows
affected_no_rows id delta [] h = (refl, refl)
affected_no_rows id delta (c ∷ customers) h = ground (arith, affected_no_rows id delta customers)

rows_of-moved_rows :
    (id j : ℕ) (delta : ℤ) (customers : List Customer)
    → rows_of j (moved_rows id delta customers) ≡ rows_of j customers
unfolding rows_of moved_rows
rows_of-moved_rows id j delta [] = refl
rows_of-moved_rows id j delta (c ∷ customers) =
    ground (arith, rows_of-moved_rows id j delta customers)

-- The amount that a movement of one customer's account moves another's balance.
abbrev pub share : ℕ → ℤ → ℕ → ℤ
share id delta j = if id == j then delta else pos 0

balance_of-moved_rows :
    (id j : ℕ) (delta : ℤ) (customers : List Customer)
    → rows_of id customers ≤ 1
    → 0 < affected id delta customers
    → balance_of j (moved_rows id delta customers) ≡ balance_of j customers +ℤ share id delta j
unfolding balance_of rows_of moved_rows affected may_move
balance_of-moved_rows id j delta [] h p = absurd (omega arith)
balance_of-moved_rows id j delta (c ∷ customers) h p =
    grind
      (int_laws, balance_of-moved_rows id j delta customers, affected_no_rows id delta customers)

pub balance_of_found :
    (id : ℕ) (customers : List Customer) {c : Customer}
    → rows_of id customers ≤ 1
    → find (λ r. r.id == id) customers ≡ some c
    → balance_of id customers ≡ c.account_balance
unfolding balance_of rows_of
balance_of_found id [] h e = cc
balance_of_found id (r ∷ customers) h e =
    grind (int_laws, balance_of_found id customers, balance_of_no_rows id customers)

affected_of_found :
    (id : ℕ) (delta : ℤ) (customers : List Customer) {c : Customer}
    → rows_of id customers ≤ 1
    → find (λ r. r.id == id) customers ≡ some c
    → affected id delta customers ≡ (if within_credit c delta then 1 else 0)
unfolding affected rows_of may_move
affected_of_found id delta [] h e = cc
affected_of_found id delta (r ∷ customers) {c} h e =
    ground
      (arith, affected_of_found id delta customers {c = c}, affected_no_rows id delta customers)

update_balance_lem :
    (id : ℕ) (delta : ℤ) (customers : List Customer)
    → update_balance id delta customers ≡ (
        if affected id delta customers == 0
        then elim (find (λ c. c.id == id) customers) [
          | none ↦ err (not_found customer_missing)
          | some exists ↦ err (bad_request credit_limit_exceeded)
        ]
        else ok (moved_rows id delta customers))
unfolding update_balance affected moved_rows
update_balance_lem id delta customers = refl

-- With one row at most for the id, the movement of a customer that is found is refused exactly if
-- it is positive and raises the balance above the customer's credit limit.
pub update_balance_refused_iff :
    (id : ℕ) (delta : ℤ) (customers : List Customer) {c : Customer}
    → rows_of id customers ≤ 1
    → find (λ r. r.id == id) customers ≡ some c
    → (update_balance id delta customers ≡ err (bad_request credit_limit_exceeded))
      ↔ (within_credit c delta ≡ false)
update_balance_refused_iff id delta customers {c} h e =
    rw (update_balance_lem id delta customers)
      (ground (arith, affected_of_found id delta customers {c = c} h e))

-- With one row at most for the id, a movement that goes through adds its amount to the customer's
-- balance and to no other, and adds or drops no customer.
pub update_balance_effect :
    (id : ℕ) (delta : ℤ) (customers : List Customer) {customers' : List Customer}
    → rows_of id customers ≤ 1
    → update_balance id delta customers ≡ ok customers'
    → ((j : ℕ) → balance_of j customers' ≡ balance_of j customers +ℤ share id delta j)
      × ((j : ℕ) → rows_of j customers' ≡ rows_of j customers)
update_balance_effect id delta customers {customers'} h e =
    let through = rw (update_balance_lem id delta customers) at e in
    let found : 0 < affected id delta customers = ground arith in
    let same : moved_rows id delta customers ≡ customers' = ground arith in
    (
      λ j. rw (← same) (balance_of-moved_rows id j delta customers h found),
      λ j. rw (← same) (rows_of-moved_rows id j delta customers),
    )
