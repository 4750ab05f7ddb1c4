-- ===== src/Billing/Payments/Effect.antt =====
-- What an applied payment changes.
use punto_de_venta_local_con.Base.{
  ◌≢◌, ◌⊎◌, ℕ, ◌+◌, ◌*◌, ◌≤◌, ◌≡◌, refl, sym, true, false, Option, none, some, ◌∷◌, arith, ◌==◌,
  if◌then◌else◌, inl,
}
use punto_de_venta_local_con.Base.Lists.{any}
use punto_de_venta_local_con.Base.Outcome.{
  Result, row_missing, bad_request, forbidden, conflict, ok, err, or_throw, not_found,
  tenant_missing, unique_violation, >>=-eq-ok, ok-injective, or_throw-eq-ok,
}
use punto_de_venta_local_con.Billing.Tenants.{
  Tenant, SubscriptionEvent, active, past_due, is_demo, find_tenant, update_tenant, standard,
  changed, find_tenant-update, find_tenant-eq_id,
}
use punto_de_venta_local_con.Billing.Plan.{Service}
use punto_de_venta_local_con.Billing.Status.{ms_per_day}
use punto_de_venta_local_con.Billing.Month.{add_one_month_bounds}
use punto_de_venta_local_con.Billing.Payments.{
  PaymentParams, payment_transaction, is_approved, has_payment_id, max_date, settle,
  next_period_end, write_tenants, create_event, caught, apply_payment, payment_event,
  convert_demo_if_paid, extend_period, set_past_due, to_standard,
}

-- The row that the payment leaves.
abbrev pub paid_row : ℕ → PaymentParams → Tenant → Tenant
paid_row now p t =
    if is_approved p.status
    then record t {
      current_period_end = some (next_period_end now t);
      subscription_status = active;
      plan_tier = standard;
      demo_expires_at = if is_demo t.plan_tier then none else t.demo_expires_at;
    }
    else record t { subscription_status = past_due }

pub find_tenant-convert :
    (j : ℕ) (t : Tenant) (s : Service)
    → find_tenant j (convert_demo_if_paid t s).platform.tenants ≡ (
        if is_demo t.plan_tier
        then (if t.id == j
            then changed to_standard (find_tenant j s.platform.tenants)
            else find_tenant j s.platform.tenants)
        else find_tenant j s.platform.tenants)
unfolding convert_demo_if_paid
find_tenant-convert j t s =
    ground (arith, find_tenant-update j t.id to_standard (λ u. refl) s.platform.tenants)

pub find_tenant-settle :
    (now j : ℕ) (p : PaymentParams) (t : Tenant) (s : Service)
    → find_tenant p.tenant_id s.platform.tenants ≡ some t
    → find_tenant j (settle now p t s).platform.tenants
      ≡ (if p.tenant_id == j then some (paid_row now p t) else find_tenant j s.platform.tenants)
unfolding settle
find_tenant-settle now j p t s e = ground (
  arith,
  find_tenant-eq_id p.tenant_id t s.platform.tenants e,
  find_tenant-convert j t
      (write_tenants (update_tenant p.tenant_id (extend_period (next_period_end now t))) s),
  find_tenant-update j p.tenant_id (extend_period (next_period_end now t)) (λ u. refl)
      s.platform.tenants,
  find_tenant-update j p.tenant_id set_past_due (λ u. refl) s.platform.tenants,
)

-- A recorded event leaves the tenants as they are, and is the first of the events.
pub create_event-eq_ok :
    (event : SubscriptionEvent) (s : Service) {r : Service}
    → create_event event s ≡ ok r
    → (r.platform.tenants ≡ s.platform.tenants)
      × (r.cache ≡ s.cache)
      × (r.platform.events ≡ event ∷ s.platform.events)
      × (any (has_payment_id event.mp_payment_id) s.platform.events ≡ false)
unfolding create_event
create_event-eq_ok event s h = ground arith

-- The steps of a transaction that succeeded.
pub payment_transaction-eq_ok :
    (now : ℕ) (p : PaymentParams) (s : Service) {r : Service}
    → payment_transaction now p s ≡ ok r
    → (t : Tenant) × (recorded : Service) × (find_tenant p.tenant_id s.platform.tenants ≡ some t)
      × (create_event
            (payment_event p (if is_approved p.status then some (next_period_end now t) else none))
            s
          ≡ ok recorded)
      × (r ≡ settle now p t recorded)
unfolding payment_transaction
payment_transaction-eq_ok now p s h =
    let (t, e₁, k₁) =
      >>=-eq-ok (or_throw (find_tenant p.tenant_id s.platform.tenants) (not_found tenant_missing)) _
        h in
    let (recorded, e₂, k₂) =
      >>=-eq-ok
        (create_event
          (payment_event p (if is_approved p.status then some (next_period_end now t) else none)) s)
        _ k₁ in
    (
      t,
      recorded,
      or_throw-eq-ok (find_tenant p.tenant_id s.platform.tenants) _ e₁,
      e₂,
      sym (ok-injective k₂),
    )

-- The row of the tenant that paid, after its payment, and those of all others.
pub payment_transaction_rows :
    (now : ℕ) (p : PaymentParams) (s : Service) {r : Service}
    → payment_transaction now p s ≡ ok r
    → (t : Tenant) × (find_tenant p.tenant_id s.platform.tenants ≡ some t)
      × ((j : ℕ)
          → find_tenant j r.platform.tenants ≡ (
              if p.tenant_id == j
              then some (paid_row now p t)
              else find_tenant j s.platform.tenants))
payment_transaction_rows now p s h =
    let (t, recorded, e₁, e₂, e₃) = payment_transaction-eq_ok now p s h in
    let (same, _, _, _) = create_event-eq_ok _ s e₂ in
    (
      t,
      e₁,
      λ j. rw (e₃) (rw (find_tenant-settle now j p t recorded (rw (same) e₁)) (rw (same) refl)),
    )

caught_applied :
    (s : Service) (call : Result Service) {r : Service}
    → caught s call ≡ ok (record { applied = true; service = r })
    → call ≡ ok r
unfolding caught
caught_applied s (ok after) h = cc
caught_applied s (err unique_violation) h = cc
caught_applied s (err row_missing) h = cc
caught_applied s (err (not_found x)) h = cc
caught_applied s (err (bad_request x)) h = cc
caught_applied s (err (forbidden x)) h = cc
caught_applied s (err (conflict x)) h = cc

pub max_date_bounds :
    (paid : Option ℕ) (now : ℕ)
    → (now ≤ max_date paid now)
      × ((e : ℕ) → paid ≡ some e → e ≤ max_date paid now)
      × ((max_date paid now ≡ now) ⊎ (paid ≡ some (max_date paid now)))
unfolding max_date
max_date_bounds none now = (omega arith, λ e h. cc, inl refl)
max_date_bounds (some a) now = (ground arith, λ e h. ground arith, ground arith)

pub paid_row_cases :
    (now : ℕ) (p : PaymentParams) (t : Tenant)
    → (is_approved p.status ≡ true
        → ((paid_row now p t).current_period_end ≡ some (next_period_end now t))
          × ((paid_row now p t).subscription_status ≡ active)
          × ((paid_row now p t).plan_tier ≡ standard))
      × (is_approved p.status ≡ false
          → ((paid_row now p t).current_period_end ≡ t.current_period_end)
            × ((paid_row now p t).subscription_status ≡ past_due))
paid_row_cases now p t = (λ a. (rw a refl, rw a refl, rw a refl), λ a. (rw a refl, rw a refl))

pub next_period_end_bounds :
    (now : ℕ) (t : Tenant)
    → (max_date t.current_period_end now + 28 * ms_per_day ≤ next_period_end now t)
      × (next_period_end now t ≤ max_date t.current_period_end now + 31 * ms_per_day)
unfolding next_period_end
next_period_end_bounds now t = add_one_month_bounds (max_date t.current_period_end now)

-- A payment that is applied for the first time: if it is approved, the paid period ends 28 to 31 days
-- after its old end or, where that is missing or past, after now, and the tenant is active and no
-- longer a demo; else the tenant is past due and its period stays. No other tenant changes.
pub apply_payment_extends :
    (now : ℕ) (p : PaymentParams) (s : Service) {r : Service}
    → apply_payment now p s ≡ ok (record { applied = true; service = r })
    → (t : Tenant) × (u : Tenant) × (find_tenant p.tenant_id s.platform.tenants ≡ some t)
      × (find_tenant p.tenant_id r.platform.tenants ≡ some u)
      × (is_approved p.status ≡ true
          → (from : ℕ) × (to : ℕ) × (now ≤ from)
            × ((e : ℕ) → t.current_period_end ≡ some e → e ≤ from)
            × ((from ≡ now) ⊎ (t.current_period_end ≡ some from))
            × (u.current_period_end ≡ some to)
            × (from + 28 * ms_per_day ≤ to)
            × (to ≤ from + 31 * ms_per_day)
            × (u.subscription_status ≡ active)
            × (u.plan_tier ≡ standard))
      × (is_approved p.status ≡ false
          → (u.current_period_end ≡ t.current_period_end) × (u.subscription_status ≡ past_due))
      × ((j : ℕ)
          → j ≢ p.tenant_id
          → find_tenant j r.platform.tenants ≡ find_tenant j s.platform.tenants)
unfolding apply_payment
apply_payment_extends now p s h =
    let (t, e, rows) = payment_transaction_rows now p s (caught_applied s _ h) in
    let (accepted, refused) = paid_row_cases now p t in
    let (b₁, b₂, b₃) = max_date_bounds t.current_period_end now in
    let (m₁, m₂) = next_period_end_bounds now t in
    (
      t,
      paid_row now p t,
      e,
      ground (arith, rows p.tenant_id),
      λ a. (
        max_date t.current_period_end now,
        next_period_end now t,
        b₁,
        b₂,
        b₃,
        (accepted a).0,
        m₁,
        m₂,
        (accepted a).1,
        (accepted a).2,
      ),
      refused,
      λ j ne. ground (arith, rows j),
    )
