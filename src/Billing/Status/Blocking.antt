-- ===== src/Billing/Status/Blocking.antt =====
-- What a subscription blocks, by its policy and as time passes.
use punto_de_venta_local_con.Base.{ℕ, ◌≤◌, ◌≡◌, refl, true, false, Option, none, some, arith}
use punto_de_venta_local_con.Billing.Tenants.{warn_only}
use punto_de_venta_local_con.Billing.Status.{
  SubscriptionInput, SubscriptionConfig, snapshot, resolve_subscription, is_overdue,
}
use punto_de_venta_local_con.Billing.Status.Standing.{
  interval, dated, ended, standing, resolve_state-standing,
}

dated_stays :
    (paid trial : Option ℕ) (grace now later : ℕ)
    → now ≤ later
    → is_overdue (dated paid trial grace now) ≡ true
    → is_overdue (dated paid trial grace later) ≡ true
unfolding dated interval
dated_stays (some p) trial grace now later h e = ground arith
dated_stays none (some t) grace now later h e = ground arith
dated_stays none none grace now later h e = cc

ended_stays :
    (paid : Option ℕ) (now later : ℕ)
    → now ≤ later
    → is_overdue (ended paid now) ≡ true
    → is_overdue (ended paid later) ≡ true
unfolding ended
ended_stays none now later h e = refl
ended_stays (some p) now later h e = ground arith

standing_stays :
    (input : SubscriptionInput) (grace now later : ℕ)
    → now ≤ later
    → is_overdue (standing input grace now) ≡ true
    → is_overdue (standing input grace later) ≡ true
unfolding standing
standing_stays input grace now later h e = ground (
  arith,
  dated_stays input.current_period_end input.trial_ends_at grace now later h,
  ended_stays input.current_period_end now later h,
)

-- While a tenant's row stays as it is, what its subscription blocks is blocked at every later moment;
-- who has no access cannot write either; and the policy that only warns blocks nothing.
pub blocking_lasts :
    (input : SubscriptionInput) (config : SubscriptionConfig) (now later : ℕ)
    → now ≤ later
    → ((resolve_subscription input config now).blocks_writes ≡ true
        → (resolve_subscription input config later).blocks_writes ≡ true)
      × ((resolve_subscription input config now).blocks_access ≡ true
          → ((resolve_subscription input config later).blocks_access ≡ true)
            × ((resolve_subscription input config now).blocks_writes ≡ true))
      × (input.enforcement_policy ≡ warn_only
          → ((resolve_subscription input config now).blocks_writes ≡ false)
            × ((resolve_subscription input config now).blocks_access ≡ false))
unfolding resolve_subscription snapshot
blocking_lasts input config now later h = ground (
  arith,
  resolve_state-standing input config now,
  resolve_state-standing input config later,
  standing_stays input config.grace_days now later h,
)
