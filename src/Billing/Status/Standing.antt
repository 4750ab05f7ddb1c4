-- ===== src/Billing/Status/Standing.antt =====
-- The states of a subscription as intervals of time, in milliseconds.
use punto_de_venta_local_con.Base.{
  ℕ, ◌+◌, ◌*◌, ◌≤◌, ◌<◌, ◌≡◌, refl, ltb, Option, none, some, arith, if◌then◌else◌,
}
use punto_de_venta_local_con.Base.Int.{pos_part, neg_part, neg}
use punto_de_venta_local_con.Billing.Status.{
  EffectiveState, in_trial, in_force, in_grace, expired, terminated, SubscriptionInput,
  SubscriptionConfig, days_until, by_due_date, by_dates, by_cancellation, resolve_state, ms_per_day,
  is_cancelled,
}

-- The days that remain are the least number of days that reach the due date.
pub days_until_least :
    (due now : ℕ)
    → (due + neg_part (days_until due now) * ms_per_day
        ≤ now + pos_part (days_until due now) * ms_per_day)
      × (now + pos_part (days_until due now) * ms_per_day
          < due + neg_part (days_until due now) * ms_per_day + ms_per_day)
unfolding days_until neg
days_until_least due now = ground arith

-- Before the due date; from it on, for the days of grace; and after those.
unfoldable pub interval : EffectiveState → ℕ → ℕ → ℕ → EffectiveState
interval current due grace_days now =
    if ltb now due
    then current
    else if ltb now (due + grace_days * ms_per_day)
    then in_grace
    else expired

pub by_due_date-interval :
    (current : EffectiveState) (due now : ℕ) (config : SubscriptionConfig)
    → (by_due_date current due config now).state ≡ interval current due config.grace_days now
unfolding by_due_date days_until interval neg
by_due_date-interval current due now config = ground arith

-- The state of a subscription in force by its paid period, else by its trial.
unfoldable pub dated : Option ℕ → Option ℕ → ℕ → ℕ → EffectiveState
unfolding interval
dated (some paid_until) trial_end grace_days now = interval in_force paid_until grace_days now
dated none (some trial_end) grace_days now = interval in_trial trial_end grace_days now
dated none none grace_days now = in_force

-- The state of a cancelled one: the paid period is used up.
unfoldable pub ended : Option ℕ → ℕ → EffectiveState
ended none now = terminated
ended (some paid_until) now = if ltb now paid_until then in_force else terminated

unfoldable pub standing : SubscriptionInput → ℕ → ℕ → EffectiveState
unfolding dated ended
standing input grace_days now =
    if is_cancelled input.subscription_status
    then ended input.current_period_end now
    else dated input.current_period_end input.trial_ends_at grace_days now

by_dates-dated :
    (paid trial : Option ℕ) (config : SubscriptionConfig) (now : ℕ)
    → (by_dates paid trial config now).state ≡ dated paid trial config.grace_days now
unfolding by_dates dated
by_dates-dated (some p) trial config now = by_due_date-interval in_force p now config
by_dates-dated none (some t) config now = by_due_date-interval in_trial t now config
by_dates-dated none none config now = refl

by_cancellation-ended :
    (paid : Option ℕ) (now : ℕ) → (by_cancellation paid now).state ≡ ended paid now
unfolding by_cancellation ended
by_cancellation-ended none now = refl
by_cancellation-ended (some p) now = refl

-- The state of a subscription, computed by rounded days, is the one that its dates give to the
-- millisecond: a paid period before a trial, in force before the due date, in grace from it on for the
-- days of grace, then expired; a cancelled subscription is in force until its paid period ends and
-- then terminated; and with no date at all it is in force.
pub resolve_state-standing :
    (input : SubscriptionInput) (config : SubscriptionConfig) (now : ℕ)
    → (resolve_state input config now).state ≡ standing input config.grace_days now
unfolding resolve_state standing
resolve_state-standing input config now = ground (
  arith,
  by_dates-dated input.current_period_end input.trial_ends_at config now,
  by_cancellation-ended input.current_period_end now,
)
