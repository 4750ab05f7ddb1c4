-- ===== src/Billing/Payments.antt =====
-- apps/api/src/billing/subscription.service.ts: the notices of Mercado Pago and the changes by the
-- platform's staff, applied to a tenant.
pub mod Effect
pub mod Repeats
pub mod Notices
pub mod History
pub mod Plans
use text.Mathlib.Text.{◌==◌ as same_text}
use punto_de_venta_local_con.Base.{
  ℕ, ◌+◌, ◌*◌, ltb, Bool, true, false, not, ◌&&◌, ◌||◌, String, Option, none, some, List, [], ◌∷◌,
  if◌then◌else◌, ◌==◌, is_some, same_id, ⊤,
}
use punto_de_venta_local_con.Base.Int.{ℤ, pos, leb_ℤ, pos_part}
use punto_de_venta_local_con.Base.Lists.{find, any}
use punto_de_venta_local_con.Base.Outcome.{
  Result, ok, err, Error, not_found, tenant_missing, unique_violation, row_missing, throw_if,
  or_throw, ◌>>=◌, ◌>>◌,
}
use punto_de_venta_local_con.Billing.Tenants.{
  SubscriptionStatus, trial, active, past_due, cancelled, EnforcementPolicy, PlanTier, standard,
  Tenant, EventType, mp_subscription_preapproval, mp_payment, manual_update, SubscriptionEvent,
  Platform, is_demo, find_tenant, update_tenant,
}
use punto_de_venta_local_con.Billing.Status.{
  SubscriptionInput, SubscriptionConfig, SubscriptionSnapshot, resolve_subscription, ms_per_day,
}
use punto_de_venta_local_con.Billing.Month.{add_one_month}
use punto_de_venta_local_con.Billing.Plan.{Service, invalidate}

-- An environment variable, with what `Number` makes of its text.
pub data Setting : Type 0 where
  missing empty not_finite : Setting
  number : ℤ → Setting

-- `numericConfig`
unfoldable pub numeric_config : Setting → ℕ → ℕ
numeric_config missing fallback = fallback
numeric_config empty fallback = fallback
numeric_config not_finite fallback = fallback
numeric_config (number parsed) fallback = if leb_ℤ (pos 0) parsed then pos_part parsed else fallback

-- `statusConfig`
unfoldable pub status_config : Setting → Setting → SubscriptionConfig
unfolding numeric_config
status_config grace warn = record {
  grace_days = numeric_config grace 10;
  warn_before_days = numeric_config warn 7;
}

-- `snapshotOf`
abbrev pub input_of : Tenant → SubscriptionInput
input_of t = record {
  subscription_status = t.subscription_status;
  trial_ends_at = t.trial_ends_at;
  current_period_end = t.current_period_end;
  enforcement_policy = t.enforcement_policy;
}

unfoldable pub snapshot_of : Tenant → SubscriptionConfig → ℕ → SubscriptionSnapshot
snapshot_of t config now = resolve_subscription (input_of t) config now

-- `trialEndsAtFromNow`
unfoldable pub trial_ends_at_from_now : Setting → ℕ → ℕ
unfolding numeric_config
trial_ends_at_from_now trial_days now = now + numeric_config trial_days 30 * ms_per_day

-- `mapPreapprovalStatus`
unfoldable pub map_preapproval_status : String → SubscriptionStatus
map_preapproval_status mp_status =
    if same_text mp_status "authorized"
    then active
    else if same_text mp_status "paused"
    then past_due
    else if same_text mp_status "cancelled"
    then cancelled
    else trial

-- `maxDate`
unfoldable pub max_date : Option ℕ → ℕ → ℕ
max_date none b = b
max_date (some a) b = if ltb b a then a else b

abbrev pub write_tenants : (List Tenant → List Tenant) → Service → Service
write_tenants f s = record s { platform = record (s.platform) { tenants = f s.platform.tenants } }

-- `subscriptionEvent.create`, with the unique index on `mpPaymentId`.
abbrev pub has_payment_id : Option ℕ → SubscriptionEvent → Bool
has_payment_id id e = is_some id && same_id e.mp_payment_id id

unfoldable pub create_event : SubscriptionEvent → Service → Result Service
create_event event s = do
  throw_if (any (has_payment_id event.mp_payment_id) s.platform.events) unique_violation
  ok (record s { platform = record (s.platform) { events = event ∷ s.platform.events } })

-- `convertDemoIfPaid`
abbrev pub to_standard : Tenant → Tenant
to_standard t = record t { plan_tier = standard; demo_expires_at = none }

unfoldable pub convert_demo_if_paid : Tenant → Service → Service
convert_demo_if_paid tenant s =
    if is_demo tenant.plan_tier
    then (let written = write_tenants (update_tenant tenant.id to_standard) s in
        record written { cache = invalidate tenant.id s.cache })
    else s

-- `applyPreapprovalStatus`; the unique index on `mpPreapprovalId` refuses the id of another tenant.
pub record PreapprovalParams : Type 0 where
  pub tenant_id : ℕ
  pub preapproval_id : String
  pub mp_status : String

abbrev pub has_preapproval : String → Tenant → Bool
has_preapproval id t = elim t.mp_preapproval_id [ none ↦ false | some other ↦ same_text other id ]

abbrev pub is_active : SubscriptionStatus → Bool
is_active active = true
is_active _ = false

abbrev pub set_preapproval : SubscriptionStatus → String → Tenant → Tenant
set_preapproval status id t = record t { subscription_status = status; mp_preapproval_id = some id }

abbrev pub notice_event : PreapprovalParams → SubscriptionEvent
notice_event p = record {
  tenant_id = p.tenant_id;
  event_type = mp_subscription_preapproval;
  status = p.mp_status;
  amount = none;
  mp_payment_id = none;
  period_end = none;
}

unfoldable pub apply_preapproval_status : PreapprovalParams → Service → Result Service
unfolding map_preapproval_status convert_demo_if_paid
apply_preapproval_status p s = do
  let status = map_preapproval_status p.mp_status
  tenant ← or_throw (find_tenant p.tenant_id s.platform.tenants) row_missing
  throw_if
      (any (λ t. not (t.id == p.tenant_id) && has_preapproval p.preapproval_id t)
        s.platform.tenants)
      unique_violation
  let written =
      write_tenants (update_tenant p.tenant_id (set_preapproval status p.preapproval_id)) s
  create_event (notice_event p)
      (if is_active status then convert_demo_if_paid tenant written else written)

-- `applyPayment`
pub record PaymentParams : Type 0 where
  pub tenant_id : ℕ
  pub mp_payment_id : ℕ
  pub amount : Option ℕ
  pub status : String

abbrev pub is_approved : String → Bool
is_approved status = same_text status "approved" || same_text status "accredited"

abbrev pub payment_event : PaymentParams → Option ℕ → SubscriptionEvent
payment_event p period_end = record {
  tenant_id = p.tenant_id;
  event_type = mp_payment;
  status = p.status;
  amount = p.amount;
  mp_payment_id = some p.mp_payment_id;
  period_end = period_end;
}

abbrev pub extend_period : ℕ → Tenant → Tenant
extend_period period_end t = record t {
  current_period_end = some period_end;
  subscription_status = active;
}

abbrev pub set_past_due : Tenant → Tenant
set_past_due t = record t { subscription_status = past_due }

-- The new `periodEnd` of an approved payment.
unfoldable pub next_period_end : ℕ → Tenant → ℕ
unfolding max_date
next_period_end now t = add_one_month (max_date t.current_period_end now)

-- What `applyPayment` writes once the payment is recorded.
unfoldable pub settle : ℕ → PaymentParams → Tenant → Service → Service
unfolding convert_demo_if_paid next_period_end
settle now p tenant s =
    if is_approved p.status
    then convert_demo_if_paid tenant
        (write_tenants (update_tenant p.tenant_id (extend_period (next_period_end now tenant))) s)
    else write_tenants (update_tenant p.tenant_id set_past_due) s

-- The transaction of `applyPayment`.
unfoldable pub payment_transaction : ℕ → PaymentParams → Service → Result Service
unfolding next_period_end create_event settle
payment_transaction now p s = do
  tenant ← or_throw (find_tenant p.tenant_id s.platform.tenants) (not_found tenant_missing)
  recorded ←
      create_event
        (payment_event p (if is_approved p.status then some (next_period_end now tenant) else none))
        s
  ok (settle now p tenant recorded)

pub record Applied : Type 0 where
  pub applied : Bool
  pub service : Service

-- The `catch` of `applyPayment`: a payment id that is already there has been applied.
unfoldable pub caught : Service → Result Service → Result Applied
caught s (ok after) = ok (record { applied = true; service = after })
caught s (err unique_violation) = ok (record { applied = false; service = s })
caught s (err e) = err e

unfoldable pub apply_payment : ℕ → PaymentParams → Service → Result Applied
unfolding caught payment_transaction
apply_payment now p s = caught s (payment_transaction now p s)

-- `updateFromPlatform`; a field that is not given stays.
pub record Patch : Type 0 where
  pub monthly_amount : Option ℕ
  pub enforcement_policy : Option EnforcementPolicy
  pub current_period_end : Option ℕ
  pub subscription_status : Option SubscriptionStatus

abbrev pub given {ℓ} : {A : Type ℓ} → Option A → A → A
given none old = old
given (some new) old = new

abbrev pub given_date : Option ℕ → Option ℕ → Option ℕ
given_date none old = old
given_date (some new) old = some new

abbrev pub patched : Patch → Tenant → Tenant
patched p t = record t {
  monthly_amount = given_date p.monthly_amount t.monthly_amount;
  enforcement_policy = given p.enforcement_policy t.enforcement_policy;
  current_period_end = given_date p.current_period_end t.current_period_end;
  subscription_status = given p.subscription_status t.subscription_status;
}

unfoldable pub update_from_platform : ℕ → Patch → Service → Result Service
unfolding create_event
update_from_platform id p s = do
  existing ← or_throw (find_tenant id s.platform.tenants) (not_found tenant_missing)
  create_event
      (record {
        tenant_id = id;
        event_type = manual_update;
        status = "applied";
        amount = p.monthly_amount;
        mp_payment_id = none;
        period_end = p.current_period_end;
      })
      (write_tenants (update_tenant id (patched p)) s)

-- A notice that the webhook has resolved to a tenant, a payment with the time of its handling; and
-- mp-webhook.controller.ts, which logs an exception and answers as if there were none.
pub data Notice : Type 0 where
  payment : ℕ → PaymentParams → Notice
  preapproval : PreapprovalParams → Notice

unfoldable pub dispatch : Notice → Service → Result Service
unfolding apply_payment apply_preapproval_status
dispatch (payment now p) s = do done ← apply_payment now p s; ok done.service
dispatch (preapproval p) s = apply_preapproval_status p s

abbrev pub kept : Service → Result Service → Service
kept s (ok after) = after
kept s (err e) = s

unfoldable pub deliver : Notice → Service → Service
unfolding dispatch
deliver n s = kept s (dispatch n s)

unfoldable pub deliver_all : List Notice → Service → Service
unfolding deliver
deliver_all [] s = s
deliver_all (n ∷ ns) s = deliver_all ns (deliver n s)
