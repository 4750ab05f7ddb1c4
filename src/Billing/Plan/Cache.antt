-- ===== src/Billing/Plan/Cache.antt =====
-- The cache of plans against the rows that it remembers.
use punto_de_venta_local_con.Base.{
  ◌≢◌, ℕ, ◌≡◌, refl, sym, ap, ◌∙◌, Option, none, some, List, [], ◌∷◌, arith, ◌==◌, Bool-cases, inl,
  inr,
}
use punto_de_venta_local_con.Base.Lists.{find, All}
use punto_de_venta_local_con.Billing.Tenants.{Tenant, find_tenant, find_tenant-eq_id}
use punto_de_venta_local_con.Billing.Plan.{
  PlanInfo, CacheEntry, Service, plan_info, no_plan, remember, invalidate, loaded, load_plan,
  fresh_info, from_cache, get_plan,
}

-- The plan that the rows say, with no cache.
abbrev pub plan_of_row : Option Tenant → PlanInfo
plan_of_row none = no_plan
plan_of_row (some t) = plan_info t

unfoldable pub plan_in_row : ℕ → List Tenant → PlanInfo
plan_in_row id ts = plan_of_row (find_tenant id ts)

-- Every remembered plan is that of the row.
abbrev pub AreCurrent : List Tenant → List CacheEntry → Type 0
AreCurrent ts = All (λ e. e.info ≡ plan_in_row e.tenant_id ts)

abbrev pub IsCoherent : Service → Type 0
IsCoherent s = AreCurrent s.platform.tenants s.cache

pub AreCurrent-invalidate :
    (id : ℕ) (old new : List Tenant) (cache : List CacheEntry)
    → ((j : ℕ) → j ≢ id → plan_in_row j new ≡ plan_in_row j old)
    → AreCurrent old cache
    → AreCurrent new (invalidate id cache)
unfolding invalidate
AreCurrent-invalidate id old new [] same h = tt
AreCurrent-invalidate id old new (e ∷ cache) same (h, hs) =
    let rest = AreCurrent-invalidate id old new cache same hs in
    elim (Bool-cases (e.tenant_id == id)) [
      | inl here ↦ rw here rest
      | inr other ↦ rw other (h ∙ sym (same e.tenant_id (ground arith)), rest)
    ]

pub AreCurrent-same :
    (old new : List Tenant) (cache : List CacheEntry)
    → ((j : ℕ) → plan_in_row j new ≡ plan_in_row j old)
    → AreCurrent old cache
    → AreCurrent new cache
AreCurrent-same old new [] same h = tt
AreCurrent-same old new (e ∷ cache) same (h, hs) =
    (h ∙ sym (same e.tenant_id), AreCurrent-same old new cache same hs)

find_current :
    (id : ℕ) (ts : List Tenant) (cache : List CacheEntry) (e : CacheEntry)
    → AreCurrent ts cache
    → find (λ e. e.tenant_id == id) cache ≡ some e
    → e.info ≡ plan_in_row id ts
find_current id ts [] e h f = cc
find_current id ts (d ∷ cache) e (h, hs) f = elim (Bool-cases (d.tenant_id == id)) [
  | inl here ↦ ground arith
  | inr other ↦ find_current id ts cache e hs (ground arith)
]

-- An answer about a tenant's plan, with the service that the call leaves.
abbrev pub IsAnswer : ℕ → Service → PlanInfo × Service → Type 0
IsAnswer id s r =
    (r.0 ≡ plan_in_row id s.platform.tenants) × IsCoherent r.1 × (r.1.platform ≡ s.platform)

pub row_plan :
    (id : ℕ) (ts : List Tenant) (row : Option Tenant)
    → find_tenant id ts ≡ row
    → plan_in_row id ts ≡ plan_of_row row
unfolding plan_in_row
row_plan id ts row e = ap plan_of_row e

loaded-IsAnswer :
    (now id : ℕ) (s : Service) (row : Option Tenant)
    → find_tenant id s.platform.tenants ≡ row
    → IsCoherent s
    → IsAnswer id s (loaded now row s)
unfolding loaded remember
loaded-IsAnswer now id s none e h = (sym (row_plan id s.platform.tenants none e), h, refl)
loaded-IsAnswer now id s (some t) e h =
    let same : t.id ≡ id = find_tenant-eq_id id t s.platform.tenants e in
    let row : plan_in_row id s.platform.tenants ≡ plan_info t =
      row_plan id s.platform.tenants (some t) e in
    (
      sym row,
      (
        rw same (sym row),
        AreCurrent-invalidate t.id s.platform.tenants s.platform.tenants s.cache (λ j ne. refl) h,
      ),
      refl,
    )

fresh_info-eq_some :
    (now : ℕ) (entry : Option CacheEntry) (i : PlanInfo)
    → fresh_info now entry ≡ some i
    → (e : CacheEntry) × (entry ≡ some e) × (e.info ≡ i)
unfolding fresh_info
fresh_info-eq_some now none i h = cc
fresh_info-eq_some now (some e) i h = (e, refl, ground arith)

from_cache-IsAnswer :
    (id : ℕ) (info : Option PlanInfo) (loading : PlanInfo × Service) (s : Service)
    → ((i : PlanInfo) → info ≡ some i → i ≡ plan_in_row id s.platform.tenants)
    → IsAnswer id s loading
    → IsCoherent s
    → IsAnswer id s (from_cache info loading s)
unfolding from_cache
from_cache-IsAnswer id (some i) loading s p l h = (p i refl, h, refl)
from_cache-IsAnswer id none loading s p l h = l

-- A call of `getPlan` answers by the row, and leaves a coherent cache and the rows as they are.
pub get_plan-IsAnswer :
    (now id : ℕ) (s : Service) → IsCoherent s → IsAnswer id s (get_plan now id s)
unfolding get_plan load_plan
get_plan-IsAnswer now id s h =
    from_cache-IsAnswer id (fresh_info now (find (λ e. e.tenant_id == id) s.cache))
      (loaded now (find_tenant id s.platform.tenants) s) s
      (λ i e.
        let (entry, found, same) = fresh_info-eq_some now _ i e in
        sym same ∙ find_current id s.platform.tenants s.cache entry h found)
      (loaded-IsAnswer now id s (find_tenant id s.platform.tenants) refl h) h
