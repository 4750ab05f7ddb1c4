-- ===== src/Billing/Payments/History.antt =====
-- What holds after any sequence of notices.
use punto_de_venta_local_con.Base.{
  ℕ, ◌≤◌, ◌≡◌, refl, ap, ◌∙◌, false, Option, none, some, List, [], ◌∷◌, arith, ◌==◌, if◌then◌else◌,
  Bool-cases, inl, inr,
}
use punto_de_venta_local_con.Base.Lists.{any}
use punto_de_venta_local_con.Base.Outcome.{Result, ok, err}
use punto_de_venta_local_con.Billing.Tenants.{Tenant, SubscriptionEvent, find_tenant}
use punto_de_venta_local_con.Billing.Plan.{Service}
use punto_de_venta_local_con.Billing.Status.{SubscriptionInput}
use punto_de_venta_local_con.Billing.Payments.{
  PaymentParams, PreapprovalParams, Notice, payment, preapproval, deliver, deliver_all, kept,
  payment_transaction, apply_preapproval_status, has_payment_id, is_approved, next_period_end,
}
use punto_de_venta_local_con.Billing.Payments.Effect.{
  paid_row, paid_row_cases, payment_transaction-eq_ok, payment_transaction_rows, create_event-eq_ok,
  max_date_bounds, next_period_end_bounds,
}
use punto_de_venta_local_con.Billing.Payments.Repeats.{deliver_payment, settle_events}
use punto_de_venta_local_con.Billing.Payments.Notices.{
  noticed_row, apply_preapproval_status_rows, noticed_row_input,
}

-- No payment is recorded twice.
abbrev pub HasDistinctPayments : List SubscriptionEvent → Type 0
HasDistinctPayments [] = Unit
HasDistinctPayments (e ∷ events) =
    (any (has_payment_id e.mp_payment_id) events ≡ false) × HasDistinctPayments events

-- The second date is there if the first is, and not before it.
abbrev pub IsNotBefore : Option ℕ → Option ℕ → Type 0
IsNotBefore old new = (a : ℕ) → old ≡ some a → (b : ℕ) × (new ≡ some b) × (a ≤ b)

-- Every tenant is still there, with a paid period that ends no earlier.
abbrev pub KeepsPeriods : List Tenant → List Tenant → Type 0
KeepsPeriods old new =
    (j : ℕ) (t : Tenant)
    → find_tenant j old ≡ some t
    → (u : Tenant) × (find_tenant j new ≡ some u)
      × IsNotBefore t.current_period_end u.current_period_end

KeepsPeriods-refl : (ts : List Tenant) → KeepsPeriods ts ts
KeepsPeriods-refl ts j t e = (t, e, λ a h. (a, h, omega arith))

KeepsPeriods-trans :
    (ts us vs : List Tenant) → KeepsPeriods ts us → KeepsPeriods us vs → KeepsPeriods ts vs
KeepsPeriods-trans ts us vs p q j t e =
    let (u, eu, pu) = p j t e in
    let (v, ev, pv) = q j u eu in
    (v, ev, λ a h. let (b, hb, l) = pu a h in let (c, hc, m) = pv b hb in (c, hc, omega arith))

-- One row replaced by one whose period ends no earlier.
KeepsPeriods-of :
    (id : ℕ) (old new : List Tenant) (t u : Tenant)
    → find_tenant id old ≡ some t
    → ((j : ℕ) → find_tenant j new ≡ (if id == j then some u else find_tenant j old))
    → IsNotBefore t.current_period_end u.current_period_end
    → KeepsPeriods old new
KeepsPeriods-of id old new t u e rows later j w ew = elim (Bool-cases (id == j)) [
  | inl same ↦
      let here : find_tenant j new ≡ some u = ground (arith, rows j) in
      let old_row : w ≡ t = ground (arith) in (u, here, rw old_row later)
  | inr other ↦ (w, ground (arith, rows j), λ a h. (a, h, omega arith))
]

paid_row_later :
    (now : ℕ) (p : PaymentParams) (t : Tenant)
    → IsNotBefore t.current_period_end (paid_row now p t).current_period_end
paid_row_later now p t a h =
    let (approved, refused) = paid_row_cases now p t in
    elim (Bool-cases (is_approved p.status)) [
      | inl yes_ ↦
          let (_, before, _) = max_date_bounds t.current_period_end now in
          let below = before a h in
          let (least, _) = next_period_end_bounds now t in
          (next_period_end now t, (approved yes_).0, omega arith)
      | inr no_ ↦ (a, (refused no_).0 ∙ h, omega arith)
    ]

no_payment_id : (events : List SubscriptionEvent) → any (has_payment_id none) events ≡ false
no_payment_id [] = refl
no_payment_id (e ∷ events) = no_payment_id events

abbrev pub Kept : Service → Service → Type 0
Kept s r =
    (HasDistinctPayments s.platform.events → HasDistinctPayments r.platform.events)
    × KeepsPeriods s.platform.tenants r.platform.tenants

Kept-refl : (s : Service) → Kept s s
Kept-refl s = (λ d. d, KeepsPeriods-refl s.platform.tenants)

payment-Kept :
    (now : ℕ) (p : PaymentParams) (s r : Service) → payment_transaction now p s ≡ ok r → Kept s r
payment-Kept now p s r h =
    let (t, e, rows) = payment_transaction_rows now p s h in
    let (u, recorded, _, e₂, e₃) = payment_transaction-eq_ok now p s h in
    let (_, _, ev, fresh) = create_event-eq_ok _ s e₂ in
    (
      λ d. rw e₃ (rw (settle_events now p u recorded) (rw ev (fresh, d))),
      KeepsPeriods-of p.tenant_id s.platform.tenants r.platform.tenants t (paid_row now p t) e rows
          (paid_row_later now p t),
    )

preapproval-Kept :
    (p : PreapprovalParams) (s r : Service) → apply_preapproval_status p s ≡ ok r → Kept s r
preapproval-Kept p s r h =
    let (t, event, e, rows, ev, no_id) = apply_preapproval_status_rows p s h in
    (
      λ d. rw ev (rw no_id (no_payment_id s.platform.events), d),
      KeepsPeriods-of p.tenant_id s.platform.tenants r.platform.tenants t (noticed_row p t) e rows
          (λ a h. (
            a,
            ap (λ (i : SubscriptionInput). i.current_period_end) (noticed_row_input p t) ∙ h,
            omega arith,
          )),
    )

kept_or :
    (s : Service) (call : Result Service)
    → ((r : Service) → call ≡ ok r → Kept s r)
    → Kept s (kept s call)
kept_or s (ok r) h = h r refl
kept_or s (err e) h = Kept-refl s

deliver-Kept : (n : Notice) (s : Service) → Kept s (deliver n s)
deliver-Kept (payment now p) s = rw (deliver_payment now p s) (kept_or s _ (payment-Kept now p s))
deliver-Kept (preapproval p) s =
    unfold deliver in (kept_or s (apply_preapproval_status p s) (preapproval-Kept p s))

-- After any sequence of notices, of payments and of subscriptions' states, in any order, repeated or
-- refused, no payment is recorded twice if none was before, and every tenant is still there with a
-- paid period that ends no earlier.
pub deliver_all_keeps :
    (ns : List Notice) (s : Service)
    → (HasDistinctPayments s.platform.events
        → HasDistinctPayments (deliver_all ns s).platform.events)
      × KeepsPeriods s.platform.tenants (deliver_all ns s).platform.tenants
unfolding deliver_all
deliver_all_keeps [] s = Kept-refl s
deliver_all_keeps (n ∷ ns) s =
    let (d₁, k₁) = deliver-Kept n s in
    let (d₂, k₂) = deliver_all_keeps ns (deliver n s) in
    (
      λ d. d₂ (d₁ d),
      KeepsPeriods-trans s.platform.tenants (deliver n s).platform.tenants
          (deliver_all ns (deliver n s)).platform.tenants k₁ k₂,
    )
