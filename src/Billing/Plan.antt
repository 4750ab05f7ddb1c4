-- ===== src/Billing/Plan.antt =====
-- apps/api/src/billing/plan.service.ts: the plan of a tenant behind a cache, and what it allows.
pub mod Limits
pub mod Cache
use text.Mathlib.Text.{◌==◌ as same_text}
use punto_de_venta_local_con.Base.{
  ℕ, ◌+◌, ltb, leb, Bool, true, false, not, ◌&&◌, ◌||◌, Option, none, some, List, [], ◌∷◌,
  if◌then◌else◌, ◌==◌, ⊤,
}
use punto_de_venta_local_con.Base.Lists.{find, filter, length}
use punto_de_venta_local_con.Base.Outcome.{
  Result, ok, err, forbidden, premium_feature, quota_exceeded, throw_if,
}
use punto_de_venta_local_con.Billing.Tenants.{
  PlanTier, standard, Tenant, Platform, is_demo, find_tenant,
}

-- `PremiumFeature`
pub data PremiumFeature : Type 0 where
  fiscal_invoicing woo_sync tiendanube_sync : PremiumFeature

abbrev pub demo_product_limit : ℕ
demo_product_limit = 20

abbrev pub demo_store_limit : ℕ
demo_store_limit = 1

abbrev pub cache_ttl_ms : ℕ
cache_ttl_ms = 60_000

-- `PlanInfo`
pub record PlanInfo : Type 0 where
  pub tier : PlanTier
  pub demo : Bool
  pub demo_expires_at : Option ℕ

-- `CacheEntry` with its key.
pub record CacheEntry : Type 0 where
  pub tenant_id : ℕ
  pub info : PlanInfo
  pub expires_at : ℕ

-- The database and the map `cache` of the service.
pub record Service : Type 0 where
  pub platform : Platform
  pub cache : List CacheEntry

-- What `remember` reads off a row.
unfoldable pub plan_info : Tenant → PlanInfo
plan_info t = record {
  tier = t.plan_tier;
  demo = is_demo t.plan_tier;
  demo_expires_at = t.demo_expires_at;
}

-- `invalidate`
unfoldable pub invalidate : ℕ → List CacheEntry → List CacheEntry
invalidate id cache = filter (λ e. not (e.tenant_id == id)) cache

-- `remember`: a map has one entry for a key.
unfoldable pub remember : ℕ → Tenant → Service → PlanInfo × Service
unfolding plan_info invalidate
remember now t s = (
  plan_info t,
  record s {
    cache =
        record { tenant_id = t.id; info = plan_info t; expires_at = now + cache_ttl_ms }
        ∷ invalidate t.id s.cache;
  },
)

abbrev pub no_plan : PlanInfo
no_plan = record { tier = standard; demo = false; demo_expires_at = none }

-- What `getPlan` makes of the row that it has read.
unfoldable pub loaded : ℕ → Option Tenant → Service → PlanInfo × Service
unfolding remember
loaded now none s = (no_plan, s)
loaded now (some t) s = remember now t s

-- The part of `getPlan` after the cache.
unfoldable pub load_plan : ℕ → ℕ → Service → PlanInfo × Service
unfolding loaded
load_plan now id s = loaded now (find_tenant id s.platform.tenants) s

-- `cached && cached.expiresAt > Date.now()`
unfoldable pub fresh_info : ℕ → Option CacheEntry → Option PlanInfo
fresh_info now none = none
fresh_info now (some entry) = if ltb now entry.expires_at then some entry.info else none

unfoldable pub from_cache : Option PlanInfo → PlanInfo × Service → Service → PlanInfo × Service
from_cache (some info) loading s = (info, s)
from_cache none loading s = loading

-- `getPlan`
unfoldable pub get_plan : ℕ → ℕ → Service → PlanInfo × Service
unfolding load_plan fresh_info from_cache
get_plan now id s =
    from_cache (fresh_info now (find (λ e. e.tenant_id == id) s.cache)) (load_plan now id s) s

-- `assertFeature`; the text of the refusal names the feature.
unfoldable pub assert_feature : ℕ → ℕ → PremiumFeature → Service → Result ⊤ × Service
unfolding get_plan
assert_feature now id feature s =
    let plan = get_plan now id s in (throw_if plan.0.demo (forbidden premium_feature), plan.1)

pub data Kind : Type 0 where
  products stores : Kind

abbrev pub limit_of : Kind → ℕ
limit_of products = demo_product_limit
limit_of stores = demo_store_limit

-- `count({ where: { tenantId } })`
abbrev pub rows_of : ℕ → Kind → Platform → ℕ
rows_of id products p = length (filter (λ t. t == id) p.products)
rows_of id stores p = length (filter (λ t. t == id) p.stores)

-- `assertQuota`
unfoldable pub assert_quota : ℕ → ℕ → Kind → ℕ → Service → Result ⊤ × Service
unfolding get_plan
assert_quota now id kind adding s =
    let plan = get_plan now id s in
    (
      throw_if (plan.0.demo && ltb (limit_of kind) (rows_of id kind s.platform + adding))
          (forbidden quota_exceeded),
      plan.1,
    )

-- `usageOf`
pub record Usage : Type 0 where
  pub used_products : ℕ
  pub used_stores : ℕ

unfoldable pub usage_of : ℕ → Platform → Usage
usage_of id p = record { used_products = rows_of id products p; used_stores = rows_of id stores p }

-- `assertImportQuota`
unfoldable pub assert_import_quota : ℕ → ℕ → ℕ → Service → Result ⊤ × Service
unfolding get_plan usage_of
assert_import_quota now id adding s =
    let plan = get_plan now id s in
    (
      throw_if
          (not (not plan.0.demo || adding == 0)
            && ltb demo_product_limit ((usage_of id s.platform).used_products + adding))
          (forbidden quota_exceeded),
      plan.1,
    )

-- `limitsFor`
unfoldable pub limits_for : Bool → Kind → Option ℕ
limits_for demo kind = if demo then some (limit_of kind) else none

-- `featuresFor`
unfoldable pub features_for : Bool → PremiumFeature → Bool
features_for demo feature = not demo
