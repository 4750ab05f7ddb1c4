-- ===== src/Orders/Create/Retry.antt =====
-- The attempts of `create`: when they start over, and what they leave behind.
use punto_de_venta_local_con.Base.{
  ℕ, zero, suc, ◌+◌, ◌-◌, ◌<◌, ◌≡◌, ◌≢◌, ◌↔◌, refl, sym, ap, subst, ◌==◌, Bool-cases, Bool, true,
  false, List, [], ◌∷◌, ◌++◌, ◌||◌, arith, inl, inr,
}
use punto_de_venta_local_con.Base.Lists.{any}
use punto_de_venta_local_con.Base.Outcome.{
  Result, ok, err, Error, Result-cases, unique_violation, not_found, bad_request, forbidden,
  conflict, row_missing,
}
use punto_de_venta_local_con.Schema.{Database, Order, AuthUser}
use punto_de_venta_local_con.Orders.Lines.{Cart}
use punto_de_venta_local_con.Orders.Create.{
  CreateOrderDto, Created, max_order_number, has_number, new_order, insert_order, attempt_create,
  commit_rivals, create_attempts, create, max_order_number_attempts,
}

-- A number above the greatest of the store is free.
above_max_free :
    (store number : ℕ) (orders : List Order)
    → max_order_number store orders < number
    → any (has_number store number) orders ≡ false
unfolding max_order_number
above_max_free store number [] h = refl
above_max_free store number (o ∷ orders) h = ground (arith, above_max_free store number orders)

any-append : (p : Order → Bool) (xs ys : List Order) → any p (xs ++ ys) ≡ (any p xs || any p ys)
any-append p [] ys = refl
any-append p (x ∷ xs) ys = ground (arith, any-append p xs ys)

-- The insert of a sale is refused exactly if another transaction has taken its number meanwhile.
pub insert_order_refused_iff :
    (rivals : List Order) (actor : AuthUser) (dto : CreateOrderDto) (cart : Cart) (db : Database)
    → (insert_order rivals (new_order db actor dto cart) dto cart db ≡ err unique_violation) ↔ (
        any (has_number dto.store_id (suc (max_order_number dto.store_id db.orders))) rivals ≡ true)
unfolding insert_order
insert_order_refused_iff rivals actor dto cart db =
    let number = suc (max_order_number dto.store_id db.orders) in
    let free = above_max_free dto.store_id number db.orders (omega arith) in
    rw (any-append (has_number dto.store_id number) rivals db.orders, free) (ground arith)

-- What `create` sees when it has made `k` attempts: the orders that other transactions committed during
-- each of them, and nothing of its own.
abbrev pub seen : (ℕ → List Order) → Database → ℕ → Database
seen rivals db zero = db
seen rivals db (suc k) = record (seen rivals db k) {
  orders = rivals (3 - suc k) ++ (seen rivals db k).orders;
}

-- The attempt after `k` others.
abbrev pub attempt_after :
    (ℕ → List Order) → AuthUser → CreateOrderDto → Database → ℕ → Result Created
attempt_after rivals actor dto db k =
    attempt_create (rivals (3 - suc k)) actor dto (seen rivals db k)

-- The first `k` attempts clashed with the number of another order.
abbrev pub Clashed : (ℕ → List Order) → AuthUser → CreateOrderDto → Database → ℕ → Type 0
Clashed rivals actor dto db k =
    (j : ℕ) → j < k → attempt_after rivals actor dto db j ≡ err unique_violation

-- How the call ends: with an attempt that went through, with one that threw anything but a clash, or
-- with three clashes.
pub data IsOutcome (rivals : ℕ → List Order) (actor : AuthUser) (dto : CreateOrderDto)
    (db : Database) : Result Created × Database → Type 0 where
  through :
      (k : ℕ) (created : Created)
      → k < 3
      → Clashed rivals actor dto db k
      → attempt_after rivals actor dto db k ≡ ok created
      → IsOutcome rivals actor dto db (ok created, created.database)
  thrown :
      (k : ℕ) (e : Error)
      → k < 3
      → Clashed rivals actor dto db k
      → attempt_after rivals actor dto db k ≡ err e
      → e ≢ unique_violation
      → IsOutcome rivals actor dto db (err e, seen rivals db (suc k))
  used_up :
      Clashed rivals actor dto db 3
      → IsOutcome rivals actor dto db (err unique_violation, seen rivals db 3)

Clashed-suc :
    (rivals : ℕ → List Order) (actor : AuthUser) (dto : CreateOrderDto) (db : Database) (k : ℕ)
    → Clashed rivals actor dto db k
    → attempt_after rivals actor dto db k ≡ err unique_violation
    → Clashed rivals actor dto db (suc k)
Clashed-suc rivals actor dto db k before now j h = elim (Bool-cases (j == k)) [
  | inl last ↦
      let same : k ≡ j = ground arith in
      subst (λ i. attempt_after rivals actor dto db i ≡ err unique_violation) same now
  | inr other ↦ before j (ground arith)
]

-- The attempts left, after `k` clashes.
create_attempts-IsOutcome :
    (left k : ℕ) (rivals : ℕ → List Order) (actor : AuthUser) (dto : CreateOrderDto) (db : Database)
    → left + k ≡ 3
    → Clashed rivals actor dto db k
    → IsOutcome rivals actor dto db (create_attempts left rivals actor dto (seen rivals db k))
unfolding create_attempts
create_attempts-IsOutcome zero k rivals actor dto db three before =
    let all : k ≡ 3 = omega arith in
    rw all (used_up (subst (Clashed rivals actor dto db) all before))
create_attempts-IsOutcome (suc left) k rivals actor dto db three before =
    let turn : left ≡ 3 - suc k = omega arith in
    let now = seen rivals db k in
    let sees : commit_rivals (rivals left) now ≡ seen rivals db (suc k) =
      ap (λ i. commit_rivals (rivals i) now) turn in
    let made : (r : Result Created)
        → attempt_create (rivals left) actor dto now ≡ r
        → attempt_after rivals actor dto db k ≡ r =
      λ r e. subst (λ i. attempt_create (rivals i) actor dto now ≡ r) turn e in
    let threw : (e : Error)
        → attempt_create (rivals left) actor dto now ≡ err e
        → e ≢ unique_violation
        → IsOutcome rivals actor dto db (err e, commit_rivals (rivals left) now) =
      λ e h other.
        subst (λ d. IsOutcome rivals actor dto db (err e, d)) (sym sees)
          (thrown k e (omega arith) before (made (err e) h) other) in
    elim (Result-cases (attempt_create (rivals left) actor dto now)) [
      | inl (created, went) ↦
          rw (went, create_attempts)
            (through k created (omega arith) before (made (ok created) went))
      | inr (unique_violation, clash) ↦
          rw (clash, create_attempts)
            (subst (λ d. IsOutcome rivals actor dto db (create_attempts left rivals actor dto d))
              (sym sees)
              (create_attempts-IsOutcome left (suc k) rivals actor dto db (omega arith)
                (Clashed-suc rivals actor dto db k before (made (err unique_violation) clash))))
      | inr (not_found r, e) ↦ rw (e, create_attempts) (threw (not_found r) e (λ h. cc))
      | inr (bad_request r, e) ↦ rw (e, create_attempts) (threw (bad_request r) e (λ h. cc))
      | inr (forbidden r, e) ↦ rw (e, create_attempts) (threw (forbidden r) e (λ h. cc))
      | inr (conflict r, e) ↦ rw (e, create_attempts) (threw (conflict r) e (λ h. cc))
      | inr (row_missing, e) ↦ rw (e, create_attempts) (threw row_missing e (λ h. cc))
    ]

-- `create` makes at most three attempts, each over the database with the orders that other transactions
-- committed during the ones before, and starts over exactly after a clash of numbers. It returns the
-- sale and the database of the first attempt that goes through; or throws what the first attempt threw
-- that met anything but a clash, or the clash of the third, and then leaves the database as it was but
-- for the others' orders.
pub create-IsOutcome :
    (rivals : ℕ → List Order) (actor : AuthUser) (dto : CreateOrderDto) (db : Database)
    → IsOutcome rivals actor dto db (create rivals actor dto db)
unfolding create
create-IsOutcome rivals actor dto db =
    create_attempts-IsOutcome max_order_number_attempts 0 rivals actor dto db refl
      (λ j h. absurd (omega arith))
