-- ===== src/Billing/Month.antt =====
-- `Date.setMonth(getMonth() + 1)` on a clock that keeps universal time.
use punto_de_venta_local_con.Base.{
  ℕ, ◌+◌, ◌-◌, ◌*◌, ◌/◌, ◌%◌, ◌≤◌, ◌≡◌, refl, ltb, leb, ◌==◌, Bool, ◌&&◌, ◌||◌, not, arith,
  if◌then◌else◌,
}
use punto_de_venta_local_con.Billing.Status.{ms_per_day}

pub record Month : Type 0 where
  pub year : ℕ
  -- from 1 to 12
  pub month : ℕ

-- The month of a day counted from 1 January 1970: years begin on 1 March, and eras of 400 years
-- have 146,097 days.
unfoldable pub month_of_day : ℕ → Month
month_of_day day =
    let z = day + 719_468 in
    let era = z / 146_097 in
    let doe = z % 146_097 in
    let yoe = (doe + doe / 36_524 - doe / 1_460 - doe / 146_096) / 365 in
    let doy = doe - (365 * yoe + yoe / 4 - yoe / 100) in
    let mp = (5 * doy + 2) / 153 in
    let m = if ltb mp 10 then mp + 3 else mp - 9 in
    record { year = yoe + era * 400 + (if leb m 2 then 1 else 0); month = m }

unfoldable pub is_leap : ℕ → Bool
is_leap y = y % 4 == 0 && (not (y % 100 == 0) || y % 400 == 0)

unfoldable pub days_in_month : Month → ℕ
unfolding is_leap
days_in_month m =
    if m.month == 2
    then (if is_leap m.year then 29 else 28)
    else if m.month == 4 || m.month == 6 || m.month == 9 || m.month == 11
    then 30
    else 31

-- `addOneMonth`: the same day of the next month, and past its end as many days into the one after, so
-- the date moves by the length of its own month.
unfoldable pub add_one_month : ℕ → ℕ
unfolding days_in_month month_of_day
add_one_month from = from + days_in_month (month_of_day (from / ms_per_day)) * ms_per_day

pub days_in_month_bounds : (m : Month) → (28 ≤ days_in_month m) × (days_in_month m ≤ 31)
unfolding days_in_month
days_in_month_bounds m = ground arith

pub add_one_month_bounds :
    (from : ℕ)
    → (from + 28 * ms_per_day ≤ add_one_month from) × (add_one_month from ≤ from + 31 * ms_per_day)
unfolding add_one_month
add_one_month_bounds from = omega (arith, days_in_month_bounds (month_of_day (from / ms_per_day)))

-- 31 January 2025 goes to 3 March, and 15 December 2026 to 15 January.
january : add_one_month (20_119 * ms_per_day) ≡ 20_150 * ms_per_day
unfolding add_one_month
january = refl

december : add_one_month (20_802 * ms_per_day + 5) ≡ 20_833 * ms_per_day + 5
unfolding add_one_month
december = refl
