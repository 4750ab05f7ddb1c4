-- ===== src/Billing/Enforcement.antt =====
-- apps/api/src/billing/subscription-enforcement.interceptor.ts and plan-feature.interceptor.ts: what
-- stands before every request.
pub mod Reopened
use text.Mathlib.Text.{◌==◌ as same_text, starts_with}
use punto_de_venta_local_con.Base.{
  ℕ, ltb, Bool, true, false, not, ◌&&◌, ◌||◌, String, Option, none, some, List, [], ◌∷◌,
  if◌then◌else◌, ⊤,
}
use punto_de_venta_local_con.Base.Lists.{any}
use punto_de_venta_local_con.Base.Outcome.{
  Result, ok, err, forbidden, demo_expired, subscription_overdue, subscription_read_only, throw_if,
  ◌>>=◌, ◌>>◌,
}
use punto_de_venta_local_con.Schema.{UserRole, superadmin}
use punto_de_venta_local_con.Billing.Tenants.{Tenant, Platform, is_demo, find_tenant}
use punto_de_venta_local_con.Billing.Status.{SubscriptionConfig, SubscriptionSnapshot}
use punto_de_venta_local_con.Billing.Plan.{Service, PremiumFeature, assert_feature}
use punto_de_venta_local_con.Billing.Payments.{snapshot_of}

-- `READ_METHODS`
abbrev pub read_methods : List String
read_methods = "GET" ∷ "HEAD" ∷ "OPTIONS" ∷ []

-- `ALWAYS_ALLOWED_PREFIXES`
abbrev pub always_allowed_prefixes : List String
always_allowed_prefixes = "/auth" ∷ "/health" ∷ "/webhooks" ∷ "/billing" ∷ "/support" ∷ []

-- What the interceptors read of `req.user`.
pub record RequestUser : Type 0 where
  pub tenant_id : Option ℕ
  pub role : UserRole

pub record Request : Type 0 where
  pub is_http : Bool
  pub path : String
  pub method : String
  pub user : Option RequestUser

abbrev pub is_superadmin : UserRole → Bool
is_superadmin superadmin = true
is_superadmin _ = false

-- The tenant whose subscription or plan a request is subject to.
unfoldable pub subject_of : Option RequestUser → Option ℕ
subject_of none = none
subject_of (some user) = if is_superadmin user.role then none else user.tenant_id

-- `tenant.demoExpiresAt && tenant.demoExpiresAt.getTime() < Date.now()`
abbrev pub is_before : Option ℕ → ℕ → Bool
is_before none now = false
is_before (some date) now = ltb date now

abbrev pub is_read : String → Bool
is_read method = any (λ m. same_text m method) read_methods

-- The checks of `intercept` on the row of the tenant.
unfoldable pub check_tenant : SubscriptionConfig → ℕ → String → Tenant → Result ⊤
check_tenant config now method tenant = do
  throw_if (is_demo tenant.plan_tier && is_before tenant.demo_expires_at now)
      (forbidden demo_expired)
  let snapshot = snapshot_of tenant config now
  throw_if snapshot.blocks_access (forbidden subscription_overdue)
  throw_if (snapshot.blocks_writes && not (is_read method)) (forbidden subscription_read_only)

unfoldable pub check_row : SubscriptionConfig → ℕ → String → Option Tenant → Result ⊤
unfolding check_tenant
check_row config now method none = ok tt
check_row config now method (some tenant) = check_tenant config now method tenant

unfoldable pub check_subject : SubscriptionConfig → ℕ → String → Platform → Option ℕ → Result ⊤
unfolding check_row
check_subject config now method p none = ok tt
check_subject config now method p (some id) = check_row config now method (find_tenant id p.tenants)

abbrev pub is_always_allowed : String → Bool
is_always_allowed path = any (λ prefix. starts_with path prefix) always_allowed_prefixes

-- `SubscriptionEnforcementInterceptor.intercept`, up to `next.handle()`
unfoldable pub intercept : SubscriptionConfig → ℕ → Request → Platform → Result ⊤
unfolding check_subject subject_of
intercept config now req p =
    if not req.is_http || is_always_allowed req.path
    then ok tt
    else check_subject config now req.method p (subject_of req.user)

unfoldable pub require_feature : ℕ → Option PremiumFeature → Option ℕ → Service → Result ⊤ × Service
unfolding assert_feature
require_feature now (some feature) (some id) s = assert_feature now id feature s
require_feature now _ _ s = (ok tt, s)

-- `PlanFeatureInterceptor.intercept`; the feature is that of the handler's `@Premium`.
unfoldable pub intercept_feature :
    ℕ → Option PremiumFeature → Request → Service → Result ⊤ × Service
unfolding require_feature subject_of
intercept_feature now feature req s =
    if not req.is_http then (ok tt, s) else require_feature now feature (subject_of req.user) s
