-- ===== src/Billing/Tenants.antt =====
-- The tables of packages/database/prisma/schema.prisma that the subscriptions read and write. A
-- date is its `getTime()`, in milliseconds.
use punto_de_venta_local_con.Base.{
  ℕ, Bool, true, false, String, Option, none, some, List, [], ◌∷◌, ◌==◌, ◌≡◌, arith, if◌then◌else◌,
}
use punto_de_venta_local_con.Base.Lists.{find, update_where}

pub data SubscriptionStatus : Type 0 where
  trial active past_due cancelled : SubscriptionStatus

pub data EnforcementPolicy : Type 0 where
  warn_only read_only block : EnforcementPolicy

-- `planTier`, a text that the code compares with "demo".
pub data PlanTier : Type 0 where
  standard demo : PlanTier

-- model Tenant
pub record Tenant : Type 0 where
  pub id : ℕ
  pub plan_tier : PlanTier
  pub demo_expires_at : Option ℕ
  pub subscription_status : SubscriptionStatus
  pub trial_ends_at : Option ℕ
  pub current_period_end : Option ℕ
  pub mp_preapproval_id : Option String
  pub enforcement_policy : EnforcementPolicy
  pub monthly_amount : Option ℕ

pub data EventType : Type 0 where
  mp_subscription_preapproval mp_payment manual_update : EventType

-- model SubscriptionEvent
pub record SubscriptionEvent : Type 0 where
  pub tenant_id : ℕ
  pub event_type : EventType
  pub status : String
  pub amount : Option ℕ
  pub mp_payment_id : Option ℕ
  pub period_end : Option ℕ

-- The tables; of products and stores, which the quotas count, the column `tenantId`.
pub record Platform : Type 0 where
  pub tenants : List Tenant
  pub events : List SubscriptionEvent
  pub products : List ℕ
  pub stores : List ℕ

-- `plan_tier === 'demo'`
abbrev pub is_demo : PlanTier → Bool
is_demo demo = true
is_demo standard = false

-- `tenant.findUnique({ where: { id } })`
abbrev pub find_tenant : ℕ → List Tenant → Option Tenant
find_tenant id = find (λ t. t.id == id)

-- `tenant.update({ where: { id }, data })`
abbrev pub update_tenant : ℕ → (Tenant → Tenant) → List Tenant → List Tenant
update_tenant id = update_where (λ t. t.id == id)

-- The rows after an update, read one by one.
abbrev pub changed : (Tenant → Tenant) → Option Tenant → Option Tenant
changed f none = none
changed f (some t) = some (f t)

pub find_tenant-update :
    (j id : ℕ) (f : Tenant → Tenant)
    → ((t : Tenant) → (f t).id ≡ t.id)
    → (ts : List Tenant)
    → find_tenant j (update_tenant id f ts)
      ≡ (if id == j then changed f (find_tenant j ts) else find_tenant j ts)
find_tenant-update j id f same [] = ground arith
find_tenant-update j id f same (t ∷ ts) = ground (arith, find_tenant-update j id f same ts, same t)

pub find_tenant-eq_id :
    (id : ℕ) (t : Tenant) (ts : List Tenant) → find_tenant id ts ≡ some t → t.id ≡ id
find_tenant-eq_id id t [] h = cc
find_tenant-eq_id id t (u ∷ ts) h = ground (arith, find_tenant-eq_id id t ts)
