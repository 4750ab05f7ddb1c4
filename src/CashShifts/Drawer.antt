-- ===== src/CashShifts/Drawer.antt =====
-- The cash that a shift's drawer should hold, and what moves it.
use punto_de_venta_local_con.Base.{
  ℕ, ◌+◌, ◌-◌, ◌≤◌, ◌≡◌, refl, sym, ap, ◌∙◌, Bool, true, false, not, some, List, [], ◌∷◌, ◌==◌,
  ◌&&◌, same_id, if◌then◌else◌, arith, subst,
}
use punto_de_venta_local_con.Base.Int.{ℤ, pos, neg, ◌+ℤ◌, int_laws}
use punto_de_venta_local_con.Base.Lists.{find, filter, sum_of}
use punto_de_venta_local_con.Base.Outcome.{
  ok, bad_request, shift_already_closed, throw_if, >>=-eq-ok, >>-eq-ok, throw_if-eq-ok,
  ok-injective, or_throw-eq-ok,
}
use punto_de_venta_local_con.Schema.{
  Database, CashShift, CashMovement, CashMovementType, Order, Payment, AuthUser, is_cash, is_opened,
  is_cancelled, is_inflow,
}
use punto_de_venta_local_con.Orders.Create.{total_paid}
use punto_de_venta_local_con.CashShifts.{
  require_shift, assert_can_operate, add_movement, cash_paid, non_cash_paid, net_cash,
  compute_summary, cash_sales_total, total_inflows, total_outflows, is_sale_of,
}

paid_split :
    (payments : List Payment)
    → total_paid payments
      ≡ sum_of (λ p. p.amount) (filter (λ p. is_cash p.method) payments)
        + sum_of (λ p. p.amount) (filter (λ p. not (is_cash p.method)) payments)
paid_split [] = refl
paid_split (p ∷ payments) = ground (arith, paid_split payments)

-- A sale whose payments cover its total leaves in the drawer what the total exceeds the other payments
-- by, whatever change was given, and never more than was paid in cash.
pub net_cash_covers :
    (o : Order)
    → o.total ≤ total_paid o.payments
    → (net_cash o ≡ o.total - non_cash_paid o) × (net_cash o ≤ cash_paid o)
unfolding net_cash
net_cash_covers o h = let split = paid_split o.payments in ground arith

-- An inflow adds, an outflow takes away.
abbrev pub signed : CashMovementType → ℕ → ℤ
signed CashMovementType.inflow amount = pos amount
signed CashMovementType.outflow amount = neg (pos amount)

-- The movements of a shift, each with its sign.
unfoldable pub signed_sum : ℕ → List CashMovement → ℤ
signed_sum shift [] = pos 0
signed_sum shift (m ∷ movements) =
    (if m.cash_shift_id == shift then signed m.movement_type m.amount else pos 0)
    +ℤ signed_sum shift movements

signed_step :
    (own : Bool) (movement_type : CashMovementType) (amount : ℕ) (sum : ℤ) (inflows outflows : ℕ)
    → sum +ℤ pos outflows ≡ pos inflows
    → (if own then signed movement_type amount else pos 0)
        +ℤ sum
        +ℤ pos ((if own && not (is_inflow movement_type) then amount else 0) + outflows)
      ≡ pos ((if own && is_inflow movement_type then amount else 0) + inflows)
signed_step false movement_type amount sum inflows outflows h = grind int_laws
signed_step true CashMovementType.inflow amount sum inflows outflows h = grind int_laws
signed_step true CashMovementType.outflow amount sum inflows outflows h = grind int_laws

sum_of-first :
    (chosen : Bool) (m : CashMovement) (rest : List CashMovement)
    → sum_of (λ n. n.amount) (if chosen then m ∷ rest else rest)
      ≡ (if chosen then m.amount else 0) + sum_of (λ n. n.amount) rest
sum_of-first chosen m rest = ground arith

signed_sum-eq :
    (shift : ℕ) (movements : List CashMovement)
    → signed_sum shift movements +ℤ pos (total_outflows shift movements)
      ≡ pos (total_inflows shift movements)
unfolding signed_sum
signed_sum-eq shift [] = grind int_laws
signed_sum-eq shift (m ∷ movements) =
    let own = m.cash_shift_id == shift in
    let inflow = is_inflow m.movement_type in
    let outs : total_outflows shift (m ∷ movements)
        ≡ (if own && not inflow then m.amount else 0) + total_outflows shift movements =
      sum_of-first (own && not inflow) m _ in
    let ins : total_inflows shift (m ∷ movements)
        ≡ (if own && inflow then m.amount else 0) + total_inflows shift movements =
      sum_of-first (own && inflow) m _ in
    let step =
      signed_step own m.movement_type m.amount (signed_sum shift movements)
        (total_inflows shift movements) (total_outflows shift movements)
        (signed_sum-eq shift movements) in
    ap (λ n. signed_sum shift (m ∷ movements) +ℤ pos n) outs ∙ step ∙ ap pos (sym ins)

-- The cash that a sale leaves in the drawer: what was paid in cash less the change, which is what all the
-- payments exceed the total by.
abbrev pub cash_less_change : Order → ℕ
cash_less_change o =
    sum_of (λ p. p.amount) (filter (λ p. is_cash p.method) o.payments)
    - (total_paid o.payments - o.total)

pub net_cash-eq : (o : Order) → net_cash o ≡ cash_less_change o
unfolding net_cash
net_cash-eq o = let split = paid_split o.payments in ground arith

-- What a shift should hold: what it began with, its movements, and the cash of its live sales.
abbrev pub drawer_content : Database → CashShift → ℤ
drawer_content db shift =
    pos shift.initial_amount
    +ℤ signed_sum shift.id db.cash_movements
    +ℤ pos (
        sum_of cash_less_change (
          filter (λ o. same_id o.cash_shift_id (some shift.id) && not (is_cancelled o.status))
            db.orders))

sum_of-net_cash : (orders : List Order) → sum_of net_cash orders ≡ sum_of cash_less_change orders
sum_of-net_cash [] = refl
sum_of-net_cash (o ∷ orders) =
    let one = net_cash-eq o in let rest = sum_of-net_cash orders in omega arith

pub expected_cash-eq :
    (db : Database) (shift : CashShift)
    → (compute_summary db shift).expected_cash ≡ drawer_content db shift
unfolding compute_summary cash_sales_total
expected_cash-eq db shift =
    let moved = signed_sum-eq shift.id db.cash_movements in
    let sold = sum_of-net_cash (filter (is_sale_of shift.id) db.orders) in
    rw sold (grind (int_laws, moved))

summary_moved :
    (m : CashMovement) (db : Database) (shift : CashShift)
    → (compute_summary (record db { cash_movements = m ∷ db.cash_movements }) shift).expected_cash
      ≡ (compute_summary db shift).expected_cash
        +ℤ (if m.cash_shift_id == shift.id then signed m.movement_type m.amount else pos 0)
unfolding compute_summary
summary_moved m db shift = grind int_laws

-- A movement of cash goes through on an open shift only, and moves the cash that this shift should hold
-- by its amount, and no other shift's.
pub add_movement_effect :
    (actor : AuthUser) (id : ℕ) (movement_type : CashMovementType) (amount : ℕ) (db : Database)
    {movement : CashMovement} {db' : Database}
    → add_movement actor id movement_type amount db ≡ ok (movement, db')
    → ((shift : CashShift) × (find (λ s. s.id == id) db.cash_shifts ≡ some shift)
        × (is_opened shift.status ≡ true))
      × ((shift : CashShift)
          → (compute_summary db' shift).expected_cash
            ≡ (compute_summary db shift).expected_cash
              +ℤ (if id == shift.id then signed movement_type amount else pos 0))
unfolding add_movement
add_movement_effect actor id movement_type amount db {movement} {db'} e =
    let (shift, found, e₁) = >>=-eq-ok (require_shift db id) _ e in
    let (_, e₂) = >>-eq-ok (assert_can_operate actor shift) _ e₁ in
    let (opened, e₃) =
      >>-eq-ok (throw_if (not (is_opened shift.status)) (bad_request shift_already_closed)) _ e₂ in
    let stays = throw_if-eq-ok _ _ opened in
    let m : CashMovement = record {
      cash_shift_id = id;
      user_id = actor.user_id;
      movement_type = movement_type;
      amount = amount;
    } in
    (
      (shift, or_throw-eq-ok _ _ found, ground arith),
      λ s.
          subst
            (λ (d : CashMovement × Database).
              (compute_summary d.1 s).expected_cash
              ≡ (compute_summary db s).expected_cash
                +ℤ (if id == s.id then signed movement_type amount else pos 0))
            (ok-injective e₃) (summary_moved m db s),
    )
