-- ===== src/CashShifts/Lifecycle.antt =====
-- The state machine of a shift: open once per register, closed once and for all.
use punto_de_venta_local_con.Base.{
  ℕ, ◌+◌, ◌≤◌, ◌≡◌, refl, ap, subst, true, false, not, some, List, [], ◌∷◌, ◌++◌, ◌==◌,
  if◌then◌else◌, arith,
}
use punto_de_venta_local_con.Base.Int.{ℤ, pos, ◌+ℤ◌, ◌-ℤ◌, int_laws}
use punto_de_venta_local_con.Base.Lists.{find, any, update_where}
use punto_de_venta_local_con.Base.Outcome.{
  ok, not_found, bad_request, conflict, register_missing, register_inactive, register_in_use,
  shift_already_closed, throw_if, or_throw, >>=-eq-ok, >>-eq-ok, throw_if-eq-ok, or_throw-eq-ok,
  ok-injective,
}
use punto_de_venta_local_con.Schema.{Database, CashRegister, CashShift, AuthUser, is_opened}
use punto_de_venta_local_con.CashShifts.Drawer.{drawer_content, expected_cash-eq}
use punto_de_venta_local_con.CashShifts.{
  is_active, is_open_at, new_shift, open_shift, require_shift, assert_can_operate, compute_summary,
  close_shift, close,
}

-- How many shifts of a register are open.
unfoldable pub open_at : ℕ → List CashShift → ℕ
open_at register [] = 0
open_at register (s ∷ shifts) = (if is_open_at register s then 1 else 0) + open_at register shifts

-- Every register has at most one open shift.
abbrev pub IsSingle : List CashShift → Type 0
IsSingle shifts = (register : ℕ) → open_at register shifts ≤ 1

none_open :
    (register : ℕ) (shifts : List CashShift)
    → any (is_open_at register) shifts ≡ false
    → open_at register shifts ≡ 0
unfolding open_at
none_open register [] h = refl
none_open register (s ∷ shifts) h = ground (arith, none_open register shifts)

found_id :
    (id : ℕ) (registers : List CashRegister) {register : CashRegister}
    → find (λ r. r.id == id) registers ≡ some register
    → register.id ≡ id
found_id id [] e = cc
found_id id (r ∷ registers) {register} e =
    ground (arith, found_id id registers {register = register})

-- Where every register has at most one open shift after what other transactions committed since the
-- check, it has so after a shift is opened, which is open at its register and put in front of the
-- others.
pub open_shift-IsSingle :
    (rivals : List CashShift) (actor : AuthUser) (register_id initial_amount : ℕ) (db : Database)
    {shift : CashShift} {db' : Database}
    → IsSingle (rivals ++ db.cash_shifts)
    → open_shift rivals actor register_id initial_amount db ≡ ok (shift, db')
    → IsSingle db'.cash_shifts
      × (is_open_at register_id shift ≡ true)
      × (db'.cash_shifts ≡ shift ∷ rivals ++ db.cash_shifts)
unfolding open_shift open_at
open_shift-IsSingle rivals actor register_id initial_amount db {shift} {db'} single e =
    let (register, found, e₁) =
      >>=-eq-ok
        (or_throw (find (λ r. r.id == register_id) db.cash_registers) (not_found register_missing))
        _ e in
    let (_, e₂) =
      >>-eq-ok (throw_if (not (is_active register.status)) (bad_request register_inactive)) _ e₁ in
    let (_, e₃) =
      >>-eq-ok (throw_if (any (is_open_at register_id) db.cash_shifts) (conflict register_in_use)) _
        e₂ in
    let (free, e₄) =
      >>-eq-ok
        (throw_if (any (is_open_at register.id) (rivals ++ db.cash_shifts))
          (conflict register_in_use))
        _ e₃ in
    let same = ok-injective e₄ in
    let new = new_shift db actor register initial_amount in
    let none_there = none_open register.id (rivals ++ db.cash_shifts) (throw_if-eq-ok _ _ free) in
    let id = found_id register_id db.cash_registers (or_throw-eq-ok _ _ found) in
    subst
      (λ (d : CashShift × Database).
        IsSingle d.1.cash_shifts
        × (is_open_at register_id d.0 ≡ true)
        × (d.1.cash_shifts ≡ d.0 ∷ rivals ++ db.cash_shifts))
      same (λ r. ground (arith, none_there, single r), ground (arith, id), refl)

abbrev closing_of : Database → ℕ → ℕ → CashShift → CashShift → CashShift
closing_of db actual_cash now shift =
    close_shift actual_cash now (compute_summary db shift).expected_cash

find-close :
    (id actual_cash now : ℕ) (expected : ℤ) (shifts : List CashShift) {shift : CashShift}
    → find (λ s. s.id == id) shifts ≡ some shift
    → find
        (λ s. s.id == id)
        (update_where (λ s. s.id == id) (close_shift actual_cash now expected) shifts)
      ≡ some (close_shift actual_cash now expected shift)
find-close id actual_cash now expected [] e = cc
find-close id actual_cash now expected (s ∷ shifts) {shift} e =
    ground (arith, find-close id actual_cash now expected shifts {shift = shift})

open_at-close :
    (register id actual_cash now : ℕ) (expected : ℤ) (shifts : List CashShift)
    → open_at register
        (update_where (λ s. s.id == id) (close_shift actual_cash now expected) shifts)
      ≤ open_at register shifts
unfolding open_at
open_at-close register id actual_cash now expected [] = omega arith
open_at-close register id actual_cash now expected (s ∷ shifts) =
    ground (arith, open_at-close register id actual_cash now expected shifts)

-- A close that goes through finds the shift open; writes down the cash that it should hold, which is what
-- it began with, its movements with their signs and the cash less the change of its sales that are not
-- cancelled, the cash that was counted, and the difference between the two; leaves the shift closed in
-- its place; and opens no shift of any register.
pub close_effect :
    (actor : AuthUser) (id actual_cash now : ℕ) (db : Database) {closed : CashShift}
    {db' : Database}
    → close actor id actual_cash now db ≡ ok (closed, db')
    → (shift : CashShift) × (difference : ℤ) × (find (λ s. s.id == id) db.cash_shifts ≡ some shift)
      × (is_opened shift.status ≡ true)
      × (is_opened closed.status ≡ false)
      × (closed.actual_cash ≡ some actual_cash)
      × (closed.expected_cash ≡ some (drawer_content db shift))
      × (closed.difference ≡ some difference)
      × (drawer_content db shift +ℤ difference ≡ pos actual_cash)
      × (find (λ s. s.id == id) db'.cash_shifts ≡ some closed)
      × ((register : ℕ) → open_at register db'.cash_shifts ≤ open_at register db.cash_shifts)
unfolding close
close_effect actor id actual_cash now db {closed} {db'} e =
    let (shift, found, e₁) = >>=-eq-ok (require_shift db id) _ e in
    let (_, e₂) = >>-eq-ok (assert_can_operate actor shift) _ e₁ in
    let (opened, e₃) =
      >>-eq-ok (throw_if (not (is_opened shift.status)) (bad_request shift_already_closed)) _ e₂ in
    let stays = throw_if-eq-ok _ _ opened in
    let there = or_throw-eq-ok _ _ found in
    let expected = (compute_summary db shift).expected_cash in
    subst
      (λ (d : CashShift × Database).
        (shift : CashShift) × (difference : ℤ) × (find (λ s. s.id == id) db.cash_shifts
          ≡ some shift)
        × (is_opened shift.status ≡ true)
        × (is_opened d.0.status ≡ false)
        × (d.0.actual_cash ≡ some actual_cash)
        × (d.0.expected_cash ≡ some (drawer_content db shift))
        × (d.0.difference ≡ some difference)
        × (drawer_content db shift +ℤ difference ≡ pos actual_cash)
        × (find (λ s. s.id == id) d.1.cash_shifts ≡ some d.0)
        × ((register : ℕ) → open_at register d.1.cash_shifts ≤ open_at register db.cash_shifts))
      (ok-injective e₃)
      (
        shift,
        pos actual_cash -ℤ expected,
        there,
        ground arith,
        refl,
        refl,
        ap some (expected_cash-eq db shift),
        refl,
        rw (← expected_cash-eq db shift) (grind int_laws),
        find-close id actual_cash now expected db.cash_shifts {shift = shift} there,
        λ register. open_at-close register id actual_cash now expected db.cash_shifts,
      )
