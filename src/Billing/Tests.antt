-- ===== src/Billing/Tests.antt =====
-- Examples of subscriptions, payments and plans.
use punto_de_venta_local_con.Base.{
  ◌≢◌, ◌⊎◌, ◌↔◌, ℕ, ◌+◌, ◌*◌, ◌≤◌, ◌≡◌, refl, true, false, none, some, List, [], ◌∷◌, arith,
}
use punto_de_venta_local_con.Base.Outcome.{ok, err, forbidden, demo_expired}
use punto_de_venta_local_con.Schema.{owner}
use punto_de_venta_local_con.Billing.Tenants.{
  trial, active, past_due, block, standard, demo, mp_payment, mp_subscription_preapproval, Tenant,
  Platform, find_tenant,
}
use punto_de_venta_local_con.Billing.Status.{
  SubscriptionInput, SubscriptionConfig, resolve_state, ms_per_day, is_cancelled,
}
use punto_de_venta_local_con.Billing.Status.Standing.{standing, resolve_state-standing}
use punto_de_venta_local_con.Billing.Plan.{
  invalidate, Service, fiscal_invoicing, products, assert_feature, assert_quota,
  assert_import_quota, features_for, limits_for, rows_of,
}
use punto_de_venta_local_con.Billing.Month.{add_one_month}
use punto_de_venta_local_con.Billing.Plan.Cache.{plan_in_row}
use punto_de_venta_local_con.Billing.Plan.Limits.{IsWithin, limits_enforced}
use punto_de_venta_local_con.Billing.Payments.{
  PaymentParams, PreapprovalParams, Notice, payment, preapproval, deliver, deliver_all,
  apply_payment, apply_preapproval_status, map_preapproval_status, is_approved, snapshot_of,
  create_event,
}
use punto_de_venta_local_con.Billing.Payments.Effect.{apply_payment_extends}
use punto_de_venta_local_con.Billing.Payments.Repeats.{deliver_payment_once}
use punto_de_venta_local_con.Billing.Payments.Notices.{preapproval_keeps_standing}
use punto_de_venta_local_con.Billing.Payments.History.{
  HasDistinctPayments, KeepsPeriods, deliver_all_keeps,
}
use punto_de_venta_local_con.Billing.Answers.{
  Call, plan_of, notice, answers, answers_of_rows, answers_refine,
}
use punto_de_venta_local_con.Billing.Enforcement.{Request, intercept, subject_of}
use punto_de_venta_local_con.Billing.Enforcement.Reopened.{payment_reopens}

-- A demo whose time is over on day 20,100 and which may not be used.
abbrev shop : Tenant
shop = record {
  id = 7;
  plan_tier = demo;
  demo_expires_at = some (20_100 * ms_per_day);
  subscription_status = trial;
  trial_ends_at = some (20_050 * ms_per_day);
  current_period_end = none;
  mp_preapproval_id = none;
  enforcement_policy = block;
  monthly_amount = none;
}

abbrev neighbour : Tenant
neighbour = record shop {
  id = 8;
  plan_tier = standard;
  demo_expires_at = none;
  current_period_end = some (20_130 * ms_per_day);
}

abbrev platform : Platform
platform = record {
  tenants = shop ∷ neighbour ∷ [];
  events = [];
  products = 7 ∷ 7 ∷ 8 ∷ [];
  stores = 7 ∷ [];
}

abbrev service : Service
service = record { platform = platform; cache = [] }

abbrev config : SubscriptionConfig
config = record { grace_days = 10; warn_before_days = 7 }

abbrev today : ℕ
today = 20_119 * ms_per_day

abbrev paid : PaymentParams
paid = record { tenant_id = 7; mp_payment_id = 900; amount = some 1_000_000; status = "approved" }

abbrev rejected : PaymentParams
rejected = record paid { status = "rejected" }

abbrev sale : Request
sale = record {
  is_http = true;
  path = "/orders";
  method = "POST";
  user = some (record { tenant_id = some 7; role = owner });
}

abbrev after : Service
after = record {
  platform = record platform {
    tenants =
        record shop {
          plan_tier = standard;
          demo_expires_at = none;
          subscription_status = active;
          current_period_end = some (20_150 * ms_per_day);
        }
        ∷ neighbour
        ∷ [];
    events =
        record {
          tenant_id = 7;
          event_type = mp_payment;
          status = "approved";
          amount = some 1_000_000;
          mp_payment_id = some 900;
          period_end = some (20_150 * ms_per_day);
        }
        ∷ [];
  };
  cache = [];
}

paid_applied : apply_payment today paid service ≡ ok (record { applied = true; service = after })
unfolding apply_payment invalidate add_one_month
paid_applied = refl

blocked_before : intercept config today sale platform ≡ err (forbidden demo_expired)
unfolding intercept
blocked_before = refl

abbrev on_trial : SubscriptionInput
on_trial = record {
  subscription_status = trial;
  trial_ends_at = some today;
  current_period_end = none;
  enforcement_policy = block;
}

resolve_state-standing_example :
    (resolve_state on_trial config (today + 10 * ms_per_day)).state
    ≡ standing on_trial 10 (today + 10 * ms_per_day)
resolve_state-standing_example = resolve_state-standing on_trial config (today + 10 * ms_per_day)

abbrev paused : PreapprovalParams
paused = record { tenant_id = 8; preapproval_id = "mp-1"; mp_status = "paused" }

deliver_payment_once_example :
    let after = deliver_all (preapproval paused ∷ []) (deliver (payment today rejected) service) in
    deliver (payment (today + 5) paid) after ≡ after
deliver_payment_once_example =
    deliver_payment_once today (today + 5) rejected paid (preapproval paused ∷ []) service shop refl
      refl

abbrev notices : List Notice
notices = payment today paid ∷ preapproval paused ∷ payment (today + 5) paid ∷ []

deliver_all_keeps_example :
    (HasDistinctPayments service.platform.events
      → HasDistinctPayments (deliver_all notices service).platform.events)
    × KeepsPeriods service.platform.tenants (deliver_all notices service).platform.tenants
deliver_all_keeps_example = deliver_all_keeps notices service

abbrev calls : List Call
calls = plan_of today 7 ∷ notice (payment today paid) ∷ plan_of (today + 1) 7 ∷ []

answers_refine_example : answers calls service ≡ answers_of_rows calls service.platform
answers_refine_example = answers_refine calls service tt

limits_enforced_example :
    (((assert_feature today 7 fiscal_invoicing service).0 ≡ ok tt)
      ↔ (features_for (plan_in_row 7 service.platform.tenants).demo fiscal_invoicing ≡ true))
    × (((assert_quota today 7 products 18 service).0 ≡ ok tt)
        ↔ IsWithin
            (limits_for (plan_in_row 7 service.platform.tenants).demo products)
            (rows_of 7 products service.platform + 18))
    × (((assert_import_quota today 7 (18 + 1) service).0 ≡ ok tt)
        ↔ IsWithin
            (limits_for (plan_in_row 7 service.platform.tenants).demo products)
            (rows_of 7 products service.platform + (18 + 1)))
    × ((assert_import_quota today 7 0 service).0 ≡ ok tt)
limits_enforced_example = limits_enforced today 7 fiscal_invoicing products 18 service tt

abbrev noticed : Service
noticed = record service {
  platform = record platform {
    tenants =
        shop
        ∷ record neighbour { subscription_status = past_due; mp_preapproval_id = some "mp-1" }
        ∷ [];
    events =
        record {
          tenant_id = 8;
          event_type = mp_subscription_preapproval;
          status = "paused";
          amount = none;
          mp_payment_id = none;
          period_end = none;
        }
        ∷ [];
  };
}

paused_applied : apply_preapproval_status paused service ≡ ok noticed
unfolding apply_preapproval_status create_event
paused_applied = refl

preapproval_keeps_standing_example :
    (t : Tenant) × (u : Tenant) × (find_tenant 8 service.platform.tenants ≡ some t)
    × (find_tenant 8 noticed.platform.tenants ≡ some u)
    × (u.current_period_end ≡ t.current_period_end)
    × (u.trial_ends_at ≡ t.trial_ends_at)
    × (u.enforcement_policy ≡ t.enforcement_policy)
    × (is_cancelled t.subscription_status ≡ false
        → is_cancelled (map_preapproval_status "paused") ≡ false
        → (config : SubscriptionConfig) (now : ℕ)
        → snapshot_of u config now ≡ snapshot_of t config now)
    × ((j : ℕ)
        → j ≢ 8
        → find_tenant j noticed.platform.tenants ≡ find_tenant j service.platform.tenants)
preapproval_keeps_standing_example =
    preapproval_keeps_standing paused service {r = noticed} paused_applied

payment_reopens_example : intercept config (20_140 * ms_per_day) sale after.platform ≡ ok tt
unfolding subject_of
payment_reopens_example =
    payment_reopens today paid service {r = after} refl paid_applied config (20_140 * ms_per_day)
      sale (omega arith) refl

apply_payment_extends_example :
    (t : Tenant) × (u : Tenant) × (find_tenant 7 service.platform.tenants ≡ some t)
    × (find_tenant 7 after.platform.tenants ≡ some u)
    × (is_approved "approved" ≡ true
        → (from : ℕ) × (to : ℕ) × (today ≤ from)
          × ((e : ℕ) → t.current_period_end ≡ some e → e ≤ from)
          × ((from ≡ today) ⊎ (t.current_period_end ≡ some from))
          × (u.current_period_end ≡ some to)
          × (from + 28 * ms_per_day ≤ to)
          × (to ≤ from + 31 * ms_per_day)
          × (u.subscription_status ≡ active)
          × (u.plan_tier ≡ standard))
    × (is_approved "approved" ≡ false
        → (u.current_period_end ≡ t.current_period_end) × (u.subscription_status ≡ past_due))
    × ((j : ℕ)
        → j ≢ 7
        → find_tenant j after.platform.tenants ≡ find_tenant j service.platform.tenants)
apply_payment_extends_example = apply_payment_extends today paid service {r = after} paid_applied
