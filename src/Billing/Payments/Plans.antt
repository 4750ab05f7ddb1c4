-- ===== src/Billing/Payments/Plans.antt =====
-- The cache of plans through the notices that change a plan.
use punto_de_venta_local_con.Base.{
  ◌≢◌, ℕ, ◌≡◌, refl, sym, ◌∙◌, Bool, true, false, some, List, [], arith, ◌==◌, if◌then◌else◌,
  Bool-cases, inl, inr,
}
use punto_de_venta_local_con.Base.Outcome.{
  Result, ok, err, >>=-eq-ok, >>-eq-ok, or_throw, or_throw-eq-ok, throw_if, row_missing,
  unique_violation,
}
use punto_de_venta_local_con.Billing.Tenants.{
  Tenant, Platform, find_tenant, find_tenant-eq_id, is_demo, standard,
}
use punto_de_venta_local_con.Billing.Plan.{CacheEntry, Service, plan_info, invalidate}
use punto_de_venta_local_con.Billing.Plan.Cache.{
  AreCurrent, IsCoherent, plan_in_row, row_plan, AreCurrent-same, AreCurrent-invalidate,
}
use punto_de_venta_local_con.Billing.Payments.{
  PaymentParams, PreapprovalParams, Notice, payment, preapproval, deliver, kept, settle,
  payment_transaction, apply_preapproval_status, map_preapproval_status, is_active, is_approved,
  convert_demo_if_paid, notice_event, create_event,
}
use punto_de_venta_local_con.Billing.Payments.Effect.{
  paid_row, find_tenant-settle, payment_transaction-eq_ok, create_event-eq_ok,
}
use punto_de_venta_local_con.Billing.Payments.Notices.{
  noticed_row, noticed_service, find_tenant-noticed,
}
use punto_de_venta_local_con.Billing.Payments.Repeats.{deliver_payment}

-- One row replaced in the table.
module _ (id : ℕ) (old new : List Tenant) (t u : Tenant) (cache : List CacheEntry)
    (here : find_tenant id old ≡ some t)
    (rows : (j : ℕ) → find_tenant j new ≡ (if id == j then some u else find_tenant j old)) where
  elsewhere : (j : ℕ) → j ≢ id → plan_in_row j new ≡ plan_in_row j old
  elsewhere j ne =
      let same : find_tenant j new ≡ find_tenant j old = ground (arith, rows j) in
      row_plan j new (find_tenant j old) same ∙ sym (row_plan j old (find_tenant j old) refl)

  AreCurrent-forgotten : AreCurrent old cache → AreCurrent new (invalidate id cache)
  AreCurrent-forgotten = AreCurrent-invalidate id old new cache elsewhere

  same_plan-AreCurrent : plan_info u ≡ plan_info t → AreCurrent old cache → AreCurrent new cache
  same_plan-AreCurrent same = AreCurrent-same old new cache (λ j. elim (Bool-cases (id == j)) [
    | inl e ↦
        let now_u : find_tenant j new ≡ some u = ground (arith, rows j) in
        let was_t : find_tenant j old ≡ some t = ground (arith) in
        row_plan j new (some u) now_u ∙ same ∙ sym (row_plan j old (some t) was_t)
    | inr e ↦ elsewhere j (ground arith)
  ])

settle_cache :
    (now : ℕ) (p : PaymentParams) (t : Tenant) (s : Service)
    → (settle now p t s).cache ≡ (
        if is_approved p.status
        then (if is_demo t.plan_tier then invalidate t.id s.cache else s.cache)
        else s.cache)
unfolding settle convert_demo_if_paid
settle_cache now p t s = ground arith

noticed_cache :
    (p : PreapprovalParams) (t : Tenant) (s : Service)
    → (noticed_service p t s).cache ≡ (
        if is_active (map_preapproval_status p.mp_status)
        then (if is_demo t.plan_tier then invalidate t.id s.cache else s.cache)
        else s.cache)
unfolding convert_demo_if_paid
noticed_cache p t s = ground arith

-- Where the tenant is a demo that has paid its plan is forgotten, else it has not changed.
replaced :
    (paid : Bool) (id : ℕ) (old new : List Tenant) (t u : Tenant) (cache : List CacheEntry)
    → find_tenant id old ≡ some t
    → ((j : ℕ) → find_tenant j new ≡ (if id == j then some u else find_tenant j old))
    → (paid ≡ false → plan_info u ≡ plan_info t)
    → (is_demo t.plan_tier ≡ false → plan_info u ≡ plan_info t)
    → AreCurrent old cache
    → AreCurrent new
        (if paid then (if is_demo t.plan_tier then invalidate t.id cache else cache) else cache)
replaced false id old new t u cache here rows p q h =
    same_plan-AreCurrent id old new t u cache here rows (p refl) h
replaced true id old new t u cache here rows p q h =
    let same : t.id ≡ id = find_tenant-eq_id id t old here in
    elim (Bool-cases (is_demo t.plan_tier)) [
      | inl d ↦ rw (d, is_demo) (rw same (AreCurrent-forgotten id old new t u cache here rows h))
      | inr d ↦ rw (d, is_demo) (same_plan-AreCurrent id old new t u cache here rows (q d) h)
    ]

standard_of : (t : Tenant) → is_demo t.plan_tier ≡ false → t.plan_tier ≡ standard
standard_of t h = ground arith

paid_row_plan :
    (now : ℕ) (p : PaymentParams) (t : Tenant)
    → (is_approved p.status ≡ false → plan_info (paid_row now p t) ≡ plan_info t)
      × (is_demo t.plan_tier ≡ false → plan_info (paid_row now p t) ≡ plan_info t)
unfolding plan_info
paid_row_plan now p t = (λ h. ground arith, λ h. ground arith)

noticed_row_plan :
    (p : PreapprovalParams) (t : Tenant)
    → (is_active (map_preapproval_status p.mp_status) ≡ false
        → plan_info (noticed_row p t) ≡ plan_info t)
      × (is_demo t.plan_tier ≡ false → plan_info (noticed_row p t) ≡ plan_info t)
unfolding plan_info
noticed_row_plan p t = (λ h. ground arith, λ h. ground arith)

payment-IsCoherent :
    (now : ℕ) (p : PaymentParams) (s r : Service)
    → payment_transaction now p s ≡ ok r
    → IsCoherent s
    → IsCoherent r
payment-IsCoherent now p s r h c =
    let (t, recorded, e₁, e₂, e₃) = payment_transaction-eq_ok now p s h in
    let (rows, cached, _, _) = create_event-eq_ok _ s e₂ in
    let (a, b) = paid_row_plan now p t in
    let here : find_tenant p.tenant_id recorded.platform.tenants ≡ some t = rw rows e₁ in
    let c' : IsCoherent recorded = rw rows (rw cached c) in
    rw e₃ (
      rw (settle_cache now p t recorded) (
        replaced (is_approved p.status) p.tenant_id recorded.platform.tenants
          (settle now p t recorded).platform.tenants t (paid_row now p t) recorded.cache here
          (λ j. find_tenant-settle now j p t recorded here) a b c'))

preapproval-IsCoherent :
    (p : PreapprovalParams) (s r : Service)
    → apply_preapproval_status p s ≡ ok r
    → IsCoherent s
    → IsCoherent r
unfolding apply_preapproval_status
preapproval-IsCoherent p s r h c =
    let (t, e₁, k₁) =
      >>=-eq-ok (or_throw (find_tenant p.tenant_id s.platform.tenants) row_missing) _ h in
    let (e₂, k₂) = >>-eq-ok (throw_if _ unique_violation) _ k₁ in
    let (rows, cached, _, _) = create_event-eq_ok (notice_event p) (noticed_service p t s) k₂ in
    let here = or_throw-eq-ok (find_tenant p.tenant_id s.platform.tenants) _ e₁ in
    let (a, b) = noticed_row_plan p t in
    rw rows (
      rw cached (
        rw (noticed_cache p t s) (
          replaced (is_active (map_preapproval_status p.mp_status)) p.tenant_id s.platform.tenants
            (noticed_service p t s).platform.tenants t (noticed_row p t) s.cache here
            (λ j. find_tenant-noticed j p t s here) a b c)))

kept-IsCoherent :
    (s : Service) (call : Result Service)
    → ((r : Service) → call ≡ ok r → IsCoherent s → IsCoherent r)
    → IsCoherent s
    → IsCoherent (kept s call)
kept-IsCoherent s (ok r) h c = h r refl c
kept-IsCoherent s (err e) h c = c

pub deliver-IsCoherent : (n : Notice) (s : Service) → IsCoherent s → IsCoherent (deliver n s)
deliver-IsCoherent (payment now p) s c =
    rw (deliver_payment now p s) (kept-IsCoherent s _ (payment-IsCoherent now p s) c)
deliver-IsCoherent (preapproval p) s c =
    unfold deliver in
    (kept-IsCoherent s (apply_preapproval_status p s) (preapproval-IsCoherent p s) c)

-- The same database behind a service that has just started.
abbrev pub restarted : Platform → Service
restarted p = record { platform = p; cache = [] }

settle_platform :
    (now : ℕ) (p : PaymentParams) (t : Tenant) (s : Service)
    → (settle now p t s).platform ≡ (settle now p t (restarted s.platform)).platform
unfolding settle convert_demo_if_paid
settle_platform now p t s = ground arith

payment_platform :
    (now : ℕ) (p : PaymentParams) (s : Service)
    → (kept s (payment_transaction now p s)).platform
      ≡ (kept (restarted s.platform) (payment_transaction now p (restarted s.platform))).platform
unfolding payment_transaction create_event
payment_platform now p s = ground (arith, settle_platform now p)

preapproval_platform :
    (p : PreapprovalParams) (s : Service)
    → (kept s (apply_preapproval_status p s)).platform
      ≡ (kept (restarted s.platform) (apply_preapproval_status p (restarted s.platform))).platform
unfolding apply_preapproval_status create_event convert_demo_if_paid
preapproval_platform p s = ground (arith)

pub deliver_platform :
    (n : Notice) (s : Service)
    → (deliver n s).platform ≡ (deliver n (restarted s.platform)).platform
deliver_platform (payment now p) s =
    rw (deliver_payment now p s)
      (rw (deliver_payment now p (restarted s.platform)) (payment_platform now p s))
deliver_platform (preapproval p) s = unfold deliver in (preapproval_platform p s)
