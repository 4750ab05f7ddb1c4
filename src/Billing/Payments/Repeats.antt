-- ===== src/Billing/Payments/Repeats.antt =====
-- A notice of a payment that comes again.
use punto_de_venta_local_con.Base.{
  ℕ, ◌≡◌, ◌≢◌, refl, sym, subst, true, false, if◌then◌else◌, Option, none, some, List, [], ◌∷◌,
  arith, Bool-cases, Option-cases, inl, inr,
}
use punto_de_venta_local_con.Base.Lists.{any}
use punto_de_venta_local_con.Base.Outcome.{
  Result, Error, ok, err, not_found, bad_request, forbidden, conflict, unique_violation,
  row_missing, tenant_missing, ◌>>=◌, Result-cases, or_throw, throw_if, >>=-eq-ok, >>-eq-ok,
}
use punto_de_venta_local_con.Billing.Tenants.{Tenant, find_tenant}
use punto_de_venta_local_con.Billing.Plan.{Service}
use punto_de_venta_local_con.Billing.Payments.{
  payment, preapproval, Notice, deliver, deliver_all, kept, PreapprovalParams,
  apply_preapproval_status, notice_event, map_preapproval_status, is_active, PaymentParams,
  apply_payment, payment_transaction, caught, has_payment_id, create_event, convert_demo_if_paid,
  settle, payment_event,
}
use punto_de_venta_local_con.Billing.Payments.Effect.{
  payment_transaction-eq_ok, payment_transaction_rows, create_event-eq_ok, paid_row,
}

-- Where the payment is recorded and its tenant exists, the transaction is refused.
payment_transaction_repeated :
    (now : ℕ) (p : PaymentParams) (s : Service) (t : Tenant)
    → find_tenant p.tenant_id s.platform.tenants ≡ some t
    → any (has_payment_id (some p.mp_payment_id)) s.platform.events ≡ true
    → payment_transaction now p s ≡ err unique_violation
unfolding payment_transaction create_event
payment_transaction_repeated now p s t e f = rw (e, find_tenant) (rw (f, has_payment_id) refl)

pub settle_events :
    (now : ℕ) (p : PaymentParams) (t : Tenant) (s : Service)
    → (settle now p t s).platform.events ≡ s.platform.events
unfolding settle convert_demo_if_paid
settle_events now p t s = ground arith

-- A refusal by a unique index is the payment's own.
payment_transaction_clash :
    (now : ℕ) (p : PaymentParams) (s : Service)
    → payment_transaction now p s ≡ err unique_violation
    → any (has_payment_id (some p.mp_payment_id)) s.platform.events ≡ true
unfolding payment_transaction create_event
payment_transaction_clash now p s h = ground arith

kept-caught :
    (s : Service) (call : Result Service)
    → kept s (caught s call >>= λ done. ok done.service) ≡ kept s call
unfolding caught
kept-caught s (ok after) = refl
kept-caught s (err unique_violation) = refl
kept-caught s (err row_missing) = refl
kept-caught s (err (not_found x)) = refl
kept-caught s (err (bad_request x)) = refl
kept-caught s (err (forbidden x)) = refl
kept-caught s (err (conflict x)) = refl

pub deliver_payment :
    (now : ℕ) (p : PaymentParams) (s : Service)
    → deliver (payment now p) s ≡ kept s (payment_transaction now p s)
unfolding deliver apply_payment
deliver_payment now p s = kept-caught s (payment_transaction now p s)

payment_transaction_unknown :
    (now : ℕ) (p : PaymentParams) (s : Service)
    → find_tenant p.tenant_id s.platform.tenants ≡ none
    → payment_transaction now p s ≡ err (not_found tenant_missing)
unfolding payment_transaction
payment_transaction_unknown now p s e = rw (e, find_tenant) refl

has_payment_id_self :
    (p : PaymentParams) (e : Option ℕ)
    → has_payment_id (some p.mp_payment_id) (payment_event p e) ≡ true
has_payment_id_self p e = ground arith

-- After a payment has been applied it is recorded, and its tenant is there.
payment_transaction_recorded :
    (now : ℕ) (p : PaymentParams) (s : Service) {r : Service}
    → payment_transaction now p s ≡ ok r
    → (t : Tenant) × (find_tenant p.tenant_id r.platform.tenants ≡ some t)
      × (any (has_payment_id (some p.mp_payment_id)) r.platform.events ≡ true)
payment_transaction_recorded now p s h =
    let (t, e, rows) = payment_transaction_rows now p s h in
    let (u, recorded, e₁, e₂, e₃) = payment_transaction-eq_ok now p s h in
    let (_, _, ev, _) = create_event-eq_ok _ s e₂ in
    (
      paid_row now p t,
      ground (arith, rows p.tenant_id),
      rw e₃ (rw (settle_events now p u recorded) (rw ev (ground (arith)))),
    )

-- A payment is recorded, whatever its status was.
abbrev pub IsRecorded : ℕ → Service → Type 0
IsRecorded id s = any (has_payment_id (some id)) s.platform.events ≡ true

payment_transaction_new :
    (now : ℕ) (p : PaymentParams) (s : Service) (t : Tenant) {e : Error}
    → find_tenant p.tenant_id s.platform.tenants ≡ some t
    → any (has_payment_id (some p.mp_payment_id)) s.platform.events ≡ false
    → payment_transaction now p s ≢ err e
unfolding payment_transaction create_event
payment_transaction_new now p s t found new refused = ground arith

-- The transaction of a payment that is new goes through.
first-IsRecorded :
    (now : ℕ) (p : PaymentParams) (s : Service) (t : Tenant)
    → find_tenant p.tenant_id s.platform.tenants ≡ some t
    → any (has_payment_id (some p.mp_payment_id)) s.platform.events ≡ false
    → IsRecorded p.mp_payment_id (kept s (payment_transaction now p s))
first-IsRecorded now p s t found new = elim (Result-cases (payment_transaction now p s)) [
  | inl (r, went) ↦
      let (_, _, there) = payment_transaction_recorded now p s went in
      rw (went, payment_transaction) there
  | inr (e, refused) ↦ absurd (payment_transaction_new now p s t found new refused)
]

-- A notice of a tenant that exists ends with its payment recorded, by it or before.
payment-IsRecorded :
    (now : ℕ) (p : PaymentParams) (s : Service) (t : Tenant)
    → find_tenant p.tenant_id s.platform.tenants ≡ some t
    → IsRecorded p.mp_payment_id (deliver (payment now p) s)
payment-IsRecorded now p s t found =
    rw (deliver_payment now p s)
      (elim (Bool-cases (any (has_payment_id (some p.mp_payment_id)) s.platform.events)) [
        | inl old ↦ rw (payment_transaction_repeated now p s t found old, payment_transaction) old
        | inr new ↦ first-IsRecorded now p s t found new
      ])

set_preapproval_events :
    (t : Tenant) (p : PreapprovalParams) (s : Service) {r : Service} (id : ℕ)
    → create_event
        (notice_event p)
        (if is_active (map_preapproval_status p.mp_status) then convert_demo_if_paid t s else s)
      ≡ ok r
    → IsRecorded id s
    → IsRecorded id r
unfolding create_event convert_demo_if_paid
set_preapproval_events t p s id e h = ground arith

apply_preapproval_status_kept :
    (id : ℕ) (p : PreapprovalParams) (s : Service) {r : Service}
    → apply_preapproval_status p s ≡ ok r
    → IsRecorded id s
    → IsRecorded id r
unfolding apply_preapproval_status
apply_preapproval_status_kept id p s e h =
    let (t, e₁, k₁) =
      >>=-eq-ok (or_throw (find_tenant p.tenant_id s.platform.tenants) row_missing) _ e in
    let (e₂, k₂) = >>-eq-ok (throw_if _ unique_violation) _ k₁ in
    set_preapproval_events t p _ id k₂ h

-- Events are never taken away.
deliver-IsRecorded :
    (id : ℕ) (n : Notice) (s : Service) → IsRecorded id s → IsRecorded id (deliver n s)
deliver-IsRecorded id (payment now p) s h =
    rw (deliver_payment now p s) (elim (Result-cases (payment_transaction now p s)) [
      | inl (r, went) ↦
          let (u, recorded, _, e₂, e₃) = payment_transaction-eq_ok now p s went in
          let (_, _, ev, _) = create_event-eq_ok _ s e₂ in
          rw (went, payment_transaction)
            (rw e₃ (rw (settle_events now p u recorded) (rw ev (ground (arith)))))
      | inr (e, refused) ↦ rw (refused, payment_transaction) h
    ])
deliver-IsRecorded id (preapproval p) s h =
    unfold deliver in
    (elim (Result-cases (apply_preapproval_status p s)) [
      | inl (r, went) ↦
          rw (went, apply_preapproval_status) (apply_preapproval_status_kept id p s went h)
      | inr (e, refused) ↦ rw (refused, apply_preapproval_status) h
    ])

deliver_all-IsRecorded :
    (id : ℕ) (ns : List Notice) (s : Service) → IsRecorded id s → IsRecorded id (deliver_all ns s)
unfolding deliver_all
deliver_all-IsRecorded id [] s h = h
deliver_all-IsRecorded id (n ∷ ns) s h =
    deliver_all-IsRecorded id ns (deliver n s) (deliver-IsRecorded id n s h)

-- The notice of a recorded payment is refused, or its tenant is not there.
recorded_kept :
    (later : ℕ) (q : PaymentParams) (s : Service)
    → IsRecorded q.mp_payment_id s
    → deliver (payment later q) s ≡ s
recorded_kept later q s h =
    rw (deliver_payment later q s)
      (elim (Option-cases (find_tenant q.tenant_id s.platform.tenants)) [
        | inl missing ↦ rw (payment_transaction_unknown later q s missing, payment_transaction) refl
        | inr (t, found) ↦
            rw (payment_transaction_repeated later q s t found h, payment_transaction) refl
      ])

-- Once the notice of a payment of a tenant that exists has been handled, whatever status it gave, every
-- later notice with its id, for any tenant and after any other notices in between, changes nothing:
-- neither a repetition, which would extend the period again, nor one that says that the payment has been
-- approved since.
pub deliver_payment_once :
    (now later : ℕ) (p q : PaymentParams) (between : List Notice) (s : Service) (t : Tenant)
    → find_tenant p.tenant_id s.platform.tenants ≡ some t
    → q.mp_payment_id ≡ p.mp_payment_id
    → let after = deliver_all between (deliver (payment now p) s) in
      deliver (payment later q) after ≡ after
deliver_payment_once now later p q between s t found same =
    let after = deliver_all between (deliver (payment now p) s) in
    recorded_kept later q after (
      subst (λ id. IsRecorded id after) (sym same)
        (deliver_all-IsRecorded p.mp_payment_id between (deliver (payment now p) s)
          (payment-IsRecorded now p s t found)))
