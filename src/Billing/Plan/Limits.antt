-- ===== src/Billing/Plan/Limits.antt =====
-- The limits that the settings page shows against those that are enforced.
use punto_de_venta_local_con.Base.{ℕ, ◌+◌, ◌≤◌, ◌≡◌, true, Option, none, some, arith, ⊤, ◌↔◌}
use punto_de_venta_local_con.Base.Outcome.{ok}
use punto_de_venta_local_con.Billing.Plan.{
  Service, Kind, products, PremiumFeature, assert_feature, assert_quota, assert_import_quota,
  usage_of, limits_for, features_for, rows_of,
}
use punto_de_venta_local_con.Billing.Plan.Cache.{IsCoherent, plan_in_row, get_plan-IsAnswer}

-- Within the limit that is shown, if there is one.
abbrev pub IsWithin : Option ℕ → ℕ → Type 0
IsWithin none n = ⊤
IsWithin (some limit) n = n ≤ limit

-- For a service whose cache agrees with the rows: a feature passes exactly when the settings page
-- shows it as enabled for the tenant's plan; new products or stores pass exactly when with those that
-- there are they keep within the limit shown; and so do the new products of an import, if it has any.
pub limits_enforced :
    (now id : ℕ) (feature : PremiumFeature) (kind : Kind) (adding : ℕ) (s : Service)
    → IsCoherent s
    → (((assert_feature now id feature s).0 ≡ ok tt)
        ↔ (features_for (plan_in_row id s.platform.tenants).demo feature ≡ true))
      × (((assert_quota now id kind adding s).0 ≡ ok tt)
          ↔ IsWithin
              (limits_for (plan_in_row id s.platform.tenants).demo kind)
              (rows_of id kind s.platform + adding))
      × (((assert_import_quota now id (adding + 1) s).0 ≡ ok tt)
          ↔ IsWithin
              (limits_for (plan_in_row id s.platform.tenants).demo products)
              (rows_of id products s.platform + (adding + 1)))
      × ((assert_import_quota now id 0 s).0 ≡ ok tt)
unfolding assert_feature assert_quota assert_import_quota features_for limits_for usage_of
limits_enforced now id feature kind adding s c = ground (arith, get_plan-IsAnswer now id s c)
