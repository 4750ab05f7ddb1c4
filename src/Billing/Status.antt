-- ===== src/Billing/Status.antt =====
-- apps/api/src/billing/subscription-status.util.ts: the state of a subscription, derived from its
-- dates whenever it is read.
pub mod Standing
pub mod Blocking
use punto_de_venta_local_con.Base.{
  ℕ, ◌+◌, ◌-◌, ◌/◌, ltb, Bool, true, false, not, ◌&&◌, ◌||◌, Option, none, some, if◌then◌else◌,
  ◌==◌,
}
use punto_de_venta_local_con.Base.Int.{ℤ, pos, negsuc, neg, leb_ℤ, pos_part, neg_part}
use punto_de_venta_local_con.Billing.Tenants.{
  SubscriptionStatus, cancelled, EnforcementPolicy, read_only, block, warn_only,
}

-- `EffectiveState`
pub data EffectiveState : Type 0 where
  in_trial in_force in_grace expired terminated : EffectiveState

-- The texts of the banner.
pub data Message : Type 0 where
  trial_ends_tomorrow renews_tomorrow due_today terminated_notice : Message
  trial_ends_in renews_in : ℤ → Message
  overdue_for expired_for : ℕ → Message

-- `SubscriptionInput`
pub record SubscriptionInput : Type 0 where
  pub subscription_status : SubscriptionStatus
  pub trial_ends_at : Option ℕ
  pub current_period_end : Option ℕ
  pub enforcement_policy : EnforcementPolicy

-- `SubscriptionConfig`
pub record SubscriptionConfig : Type 0 where
  pub grace_days : ℕ
  pub warn_before_days : ℕ

-- `SubscriptionSnapshot`
pub record SubscriptionSnapshot : Type 0 where
  pub state : EffectiveState
  pub days_remaining : ℤ
  pub should_warn : Bool
  pub message : Option Message
  pub blocks_writes : Bool
  pub blocks_access : Bool

-- `MS_PER_DAY`
abbrev pub ms_per_day : ℕ
ms_per_day = 86_400_000

-- `NO_EXPIRY_DAYS`
abbrev pub no_expiry_days : ℕ
no_expiry_days = 36_500

-- `Math.ceil((target - now) / MS_PER_DAY)`; rounding up takes a negative quotient towards zero.
unfoldable pub days_until : ℕ → ℕ → ℤ
days_until target now =
    if ltb now target
    then pos ((target - now + (ms_per_day - 1)) / ms_per_day)
    else neg (pos ((now - target) / ms_per_day))

-- What `resolveState` returns.
pub record Resolved : Type 0 where
  pub state : EffectiveState
  pub days_remaining : ℤ

-- The three returns for a due date: not due yet, within the days of grace, past them.
unfoldable pub by_due_date : EffectiveState → ℕ → SubscriptionConfig → ℕ → Resolved
by_due_date current due config now =
    let remaining = days_until due now in
    if not (leb_ℤ remaining (pos 0))
    then record { state = current; days_remaining = remaining }
    else if not (leb_ℤ remaining (neg (pos config.grace_days)))
    then record { state = in_grace; days_remaining = remaining }
    else record { state = expired; days_remaining = remaining }

-- The branch of `resolveState` for a cancelled subscription.
unfoldable pub by_cancellation : Option ℕ → ℕ → Resolved
by_cancellation none now = record { state = terminated; days_remaining = pos 0 }
by_cancellation (some paid_until) now = record {
  state = if ltb now paid_until then in_force else terminated;
  days_remaining = days_until paid_until now;
}

abbrev pub is_cancelled : SubscriptionStatus → Bool
is_cancelled cancelled = true
is_cancelled _ = false

-- The rest of `resolveState`: a paid period goes before the trial.
unfoldable pub by_dates : Option ℕ → Option ℕ → SubscriptionConfig → ℕ → Resolved
unfolding by_due_date
by_dates (some period_end) trial_end config now = by_due_date in_force period_end config now
by_dates none (some trial_end) config now = by_due_date in_trial trial_end config now
by_dates none none config now = record { state = in_force; days_remaining = pos no_expiry_days }

-- `resolveState`
unfoldable pub resolve_state : SubscriptionInput → SubscriptionConfig → ℕ → Resolved
unfolding by_cancellation by_dates
resolve_state input config now =
    if is_cancelled input.subscription_status
    then by_cancellation input.current_period_end now
    else by_dates input.current_period_end input.trial_ends_at config now

-- `Math.abs`
abbrev pub abs : ℤ → ℕ
abs a = pos_part a + neg_part a

abbrev pub is_one : ℤ → Bool
is_one a = leb_ℤ a (pos 1) && leb_ℤ (pos 1) a

-- `buildMessage`
unfoldable pub build_message : EffectiveState → ℤ → Bool → Option Message
build_message state days_remaining should_warn = if not should_warn then none else elim state [
  | in_trial ↦
      some (if is_one days_remaining then trial_ends_tomorrow else trial_ends_in days_remaining)
  | in_force ↦ some (if is_one days_remaining then renews_tomorrow else renews_in days_remaining)
  | in_grace ↦
      some (if abs days_remaining == 0 then due_today else overdue_for (abs days_remaining))
  | expired ↦ some (expired_for (abs days_remaining))
  | terminated ↦ some terminated_notice
]

-- `state === 'EXPIRED' || state === 'CANCELLED'`
abbrev pub is_overdue : EffectiveState → Bool
is_overdue expired = true
is_overdue terminated = true
is_overdue _ = false

abbrev pub always_warns : EffectiveState → Bool
always_warns in_grace = true
always_warns expired = true
always_warns terminated = true
always_warns _ = false

abbrev pub is_block : EnforcementPolicy → Bool
is_block block = true
is_block _ = false

abbrev pub is_restrictive : EnforcementPolicy → Bool
is_restrictive warn_only = false
is_restrictive read_only = true
is_restrictive block = true

-- What `resolveSubscription` makes of the state.
unfoldable pub snapshot : Resolved → EnforcementPolicy → SubscriptionConfig → SubscriptionSnapshot
unfolding build_message
snapshot r policy config =
    let warns : Bool =
      always_warns r.state || leb_ℤ r.days_remaining (pos config.warn_before_days) in
    let overdue : Bool = is_overdue r.state in
    record {
      state = r.state;
      days_remaining = r.days_remaining;
      should_warn = warns;
      message = build_message r.state r.days_remaining warns;
      blocks_writes = overdue && is_restrictive policy;
      blocks_access = overdue && is_block policy;
    }

-- `resolveSubscription`
unfoldable pub resolve_subscription :
    SubscriptionInput → SubscriptionConfig → ℕ → SubscriptionSnapshot
unfolding snapshot resolve_state
resolve_subscription input config now =
    snapshot (resolve_state input config now) input.enforcement_policy config
