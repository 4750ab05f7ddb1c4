-- ===== src/Billing/Payments/Notices.antt =====
-- What the notice of a subscription's state changes.
use punto_de_venta_local_con.Base.{
  ◌≢◌, ℕ, ◌≡◌, refl, ap, ◌∙◌, false, none, some, ◌∷◌, arith, ◌==◌, if◌then◌else◌,
}
use punto_de_venta_local_con.Base.Outcome.{
  ok, throw_if, or_throw, row_missing, unique_violation, >>=-eq-ok, >>-eq-ok, or_throw-eq-ok,
}
use punto_de_venta_local_con.Billing.Tenants.{
  Tenant, SubscriptionEvent, SubscriptionStatus, is_demo, find_tenant, update_tenant,
  find_tenant-update, find_tenant-eq_id,
}
use punto_de_venta_local_con.Billing.Status.{
  SubscriptionConfig, SubscriptionInput, snapshot, resolve_state, resolve_subscription,
  is_cancelled,
}
use punto_de_venta_local_con.Billing.Plan.{Service}
use punto_de_venta_local_con.Billing.Payments.{
  PreapprovalParams, apply_preapproval_status, map_preapproval_status, convert_demo_if_paid,
  set_preapproval, write_tenants, is_active, notice_event, input_of, to_standard, snapshot_of,
}
use punto_de_venta_local_con.Billing.Payments.Effect.{find_tenant-convert, create_event-eq_ok}

-- The row that a notice leaves.
abbrev pub noticed_row : PreapprovalParams → Tenant → Tenant
noticed_row p t =
    let status = map_preapproval_status p.mp_status in
    let written = set_preapproval status p.preapproval_id t in
    if is_active status
    then (if is_demo t.plan_tier then to_standard written else written)
    else written

abbrev pub noticed_service : PreapprovalParams → Tenant → Service → Service
noticed_service p t s =
    let status = map_preapproval_status p.mp_status in
    let written =
      write_tenants (update_tenant p.tenant_id (set_preapproval status p.preapproval_id)) s in
    if is_active status then convert_demo_if_paid t written else written

pub find_tenant-noticed :
    (j : ℕ) (p : PreapprovalParams) (t : Tenant) (s : Service)
    → find_tenant p.tenant_id s.platform.tenants ≡ some t
    → find_tenant j (noticed_service p t s).platform.tenants
      ≡ (if p.tenant_id == j then some (noticed_row p t) else find_tenant j s.platform.tenants)
find_tenant-noticed j p t s e = ground (
  arith,
  find_tenant-eq_id p.tenant_id t s.platform.tenants e,
  find_tenant-convert j t (
      write_tenants
        (update_tenant p.tenant_id
          (set_preapproval (map_preapproval_status p.mp_status) p.preapproval_id))
        s),
  find_tenant-update j p.tenant_id
      (set_preapproval (map_preapproval_status p.mp_status) p.preapproval_id) (λ u. refl)
      s.platform.tenants,
)

noticed_events :
    (p : PreapprovalParams) (t : Tenant) (s : Service)
    → (noticed_service p t s).platform.events ≡ s.platform.events
unfolding convert_demo_if_paid
noticed_events p t s = ground arith

pub apply_preapproval_status_rows :
    (p : PreapprovalParams) (s : Service) {r : Service}
    → apply_preapproval_status p s ≡ ok r
    → (t : Tenant) × (event : SubscriptionEvent) × (find_tenant p.tenant_id s.platform.tenants
        ≡ some t)
      × ((j : ℕ)
          → find_tenant j r.platform.tenants ≡ (
              if p.tenant_id == j
              then some (noticed_row p t)
              else find_tenant j s.platform.tenants))
      × (r.platform.events ≡ event ∷ s.platform.events)
      × (event.mp_payment_id ≡ none)
unfolding apply_preapproval_status
apply_preapproval_status_rows p s h =
    let (t, e₁, k₁) =
      >>=-eq-ok (or_throw (find_tenant p.tenant_id s.platform.tenants) row_missing) _ h in
    let (e₂, k₂) = >>-eq-ok (throw_if _ unique_violation) _ k₁ in
    let (same, _, ev, _) = create_event-eq_ok (notice_event p) (noticed_service p t s) k₂ in
    let e = or_throw-eq-ok (find_tenant p.tenant_id s.platform.tenants) _ e₁ in
    (
      t,
      notice_event p,
      e,
      λ j. rw same (find_tenant-noticed j p t s e),
      rw ev (rw (noticed_events p t s) refl),
      refl,
    )

-- Only whether it is cancelled counts of the stored status.
same_resolved :
    (input : SubscriptionInput) (status : SubscriptionStatus) (config : SubscriptionConfig)
    (now : ℕ)
    → is_cancelled input.subscription_status ≡ false
    → is_cancelled status ≡ false
    → resolve_state (record input { subscription_status = status }) config now
      ≡ resolve_state input config now
unfolding resolve_state
same_resolved input status config now h k = ground arith

same_snapshot :
    (input : SubscriptionInput) (status : SubscriptionStatus) (config : SubscriptionConfig)
    (now : ℕ)
    → is_cancelled input.subscription_status ≡ false
    → is_cancelled status ≡ false
    → resolve_subscription (record input { subscription_status = status }) config now
      ≡ resolve_subscription input config now
unfolding resolve_subscription
same_snapshot input status config now h k =
    ap (λ r. snapshot r input.enforcement_policy config) (same_resolved input status config now h k)

pub noticed_row_input :
    (p : PreapprovalParams) (t : Tenant)
    → input_of (noticed_row p t)
      ≡ record (input_of t) { subscription_status = map_preapproval_status p.mp_status }
noticed_row_input p t = ground arith

-- A notice of a subscription's state that is applied moves no date but that of a demo's end and leaves
-- the policy; and unless the tenant was or becomes cancelled, the state, the days, the warning and the
-- blocks derived for it are the same at every time. No other tenant changes.
pub preapproval_keeps_standing :
    (p : PreapprovalParams) (s : Service) {r : Service}
    → apply_preapproval_status p s ≡ ok r
    → (t : Tenant) × (u : Tenant) × (find_tenant p.tenant_id s.platform.tenants ≡ some t)
      × (find_tenant p.tenant_id r.platform.tenants ≡ some u)
      × (u.current_period_end ≡ t.current_period_end)
      × (u.trial_ends_at ≡ t.trial_ends_at)
      × (u.enforcement_policy ≡ t.enforcement_policy)
      × (is_cancelled t.subscription_status ≡ false
          → is_cancelled (map_preapproval_status p.mp_status) ≡ false
          → (config : SubscriptionConfig) (now : ℕ)
          → snapshot_of u config now ≡ snapshot_of t config now)
      × ((j : ℕ)
          → j ≢ p.tenant_id
          → find_tenant j r.platform.tenants ≡ find_tenant j s.platform.tenants)
unfolding snapshot_of
preapproval_keeps_standing p s h =
    let (t, event, e, rows, _, _) = apply_preapproval_status_rows p s h in
    let same = noticed_row_input p t in
    (
      t,
      noticed_row p t,
      e,
      ground (arith, rows p.tenant_id),
      ap (λ (i : SubscriptionInput). i.current_period_end) same,
      ap (λ (i : SubscriptionInput). i.trial_ends_at) same,
      ap (λ (i : SubscriptionInput). i.enforcement_policy) same,
      λ a b config now.
          ap (λ i. resolve_subscription i config now) same
          ∙ same_snapshot (input_of t) (map_preapproval_status p.mp_status) config now a b,
      λ j ne. ground (arith, rows j),
    )
