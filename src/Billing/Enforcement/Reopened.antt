-- ===== src/Billing/Enforcement/Reopened.antt =====
-- A payment reopens what an overdue subscription has closed.
use punto_de_venta_local_con.Base.{
  String, ℕ, ◌+◌, ◌*◌, ◌<◌, ◌≡◌, refl, true, false, not, ◌||◌, some, arith, Bool-cases, inl, inr,
}
use punto_de_venta_local_con.Base.Outcome.{ok}
use punto_de_venta_local_con.Billing.Tenants.{Tenant, active, standard, find_tenant, is_demo}
use punto_de_venta_local_con.Billing.Status.{
  SubscriptionConfig, resolve_subscription, snapshot, ms_per_day,
}
use punto_de_venta_local_con.Billing.Status.Standing.{
  standing, dated, interval, resolve_state-standing,
}
use punto_de_venta_local_con.Billing.Plan.{Service}
use punto_de_venta_local_con.Billing.Payments.{
  PaymentParams, apply_payment, is_approved, snapshot_of, input_of,
}
use punto_de_venta_local_con.Billing.Payments.Effect.{apply_payment_extends}
use punto_de_venta_local_con.Billing.Enforcement.{
  Request, is_always_allowed, check_tenant, check_row, check_subject, subject_of, intercept,
}

in_force_blocks_nothing :
    (t : Tenant) (config : SubscriptionConfig) (now e : ℕ)
    → t.subscription_status ≡ active
    → t.current_period_end ≡ some e
    → now < e
    → ((snapshot_of t config now).blocks_writes ≡ false)
      × ((snapshot_of t config now).blocks_access ≡ false)
unfolding snapshot_of resolve_subscription snapshot standing dated interval
in_force_blocks_nothing t config now e a b h =
    ground (arith, resolve_state-standing (input_of t) config now)

in_force_passes :
    (t : Tenant) (config : SubscriptionConfig) (now e : ℕ) (method : String)
    → t.subscription_status ≡ active
    → t.current_period_end ≡ some e
    → t.plan_tier ≡ standard
    → now < e
    → check_tenant config now method t ≡ ok tt
unfolding check_tenant snapshot_of
in_force_passes t config now e method a b c h =
    let (w, x) = in_force_blocks_nothing t config now e a b h in rw (c, is_demo) (rw x (rw w refl))

-- After an approved payment is applied, every request of the tenant's users, to read or to write and
-- under every policy, passes for the next 28 days, whatever was blocked before.
pub payment_reopens :
    (now : ℕ) (p : PaymentParams) (s : Service) {r : Service}
    → is_approved p.status ≡ true
    → apply_payment now p s ≡ ok (record { applied = true; service = r })
    → (config : SubscriptionConfig) (later : ℕ) (req : Request) → later < now + 28 * ms_per_day
    → subject_of req.user ≡ some p.tenant_id
    → intercept config later req r.platform ≡ ok tt
unfolding intercept check_subject check_row
payment_reopens now p s {r} approved applied config later req soon subject =
    let (t, u, _, found, extended, _, _) = apply_payment_extends now p s applied in
    let (from, to, after, _, _, end, least, _, status, plan) = extended approved in
    let passes = in_force_passes u config later to req.method status end plan (omega arith) in
    elim (Bool-cases (not req.is_http || is_always_allowed req.path)) [
      | inl e ↦ rw e refl
      | inr e ↦ rw e (rw (subject) (rw (found, find_tenant) passes))
    ]
