-- ===== src/Engine/Backoff.antt =====
-- The delays of compute_backoff in engine.py.
use native.Mathlib.Nat.{pow-suc}
use python_civitas.Base.{
  ℕ, suc, ◌+◌, ◌*◌, ◌/◌, ◌≤◌, ◌<◌, ◌≡◌, ◌⊎◌, Option, none, some, arith, length, [], ◌∷◌, ◌++◌,
}
use python_civitas.Engine.{
  RestartEngine, BackoffPolicy, constant, linear, exponential, restart, compute_backoff,
  raw_backoff, doubled, policy_backoff, record_crash, prune, jitter_scale,
}

policy_backoff-le :
    (policy : Option BackoffPolicy) (base cap n jitter : ℕ)
    → policy_backoff policy base cap n jitter ≤ cap
unfolding policy_backoff
policy_backoff-le none base cap n jitter = omega arith
policy_backoff-le (some policy) base cap n jitter = omega arith

doubled_grows : (base n : ℕ) → doubled base (suc (suc n)) ≡ 2 * doubled base (suc n)
unfolding doubled
doubled_grows base n = grind (arith, pow-suc)

-- Jitter adds at most a quarter, and one more crash doubles the delay.
jitter_le_double :
    (d jitter : ℕ) → jitter < jitter_scale → d + d * jitter / (4 * jitter_scale) ≤ 2 * d
jitter_le_double d jitter h = let bound : d * jitter ≤ d * 1000000 = grind arith in omega arith

raw_backoff_mono :
    (policy : BackoffPolicy) (base n jitter later : ℕ)
    → jitter < jitter_scale
    → raw_backoff policy base (suc n) jitter ≤ raw_backoff policy base (suc (suc n)) later
unfolding raw_backoff
raw_backoff_mono constant base n jitter later h = omega arith
raw_backoff_mono linear base n jitter later h = grind arith
raw_backoff_mono exponential base n jitter later h =
    omega (arith, doubled_grows base n, jitter_le_double (doubled base (suc n)) jitter h)

policy_backoff_mono :
    (policy : Option BackoffPolicy) (base cap n jitter later : ℕ)
    → jitter < jitter_scale
    → policy_backoff policy base cap (suc n) jitter
      ≤ policy_backoff policy base cap (suc (suc n)) later
unfolding policy_backoff
policy_backoff_mono none base cap n jitter later h = omega arith
policy_backoff_mono (some policy) base cap n jitter later h =
    omega (arith, raw_backoff_mono policy base n jitter later h)

-- Whatever the policy and whatever jitter is drawn, one more crash in the window never shortens the
-- delay, and no delay exceeds `backoff_max`.
pub backoff_mono :
    (e : RestartEngine) (n jitter later : ℕ)
    → jitter < jitter_scale
    → (compute_backoff e (suc n) jitter ≤ compute_backoff e (suc (suc n)) later)
      × (compute_backoff e (suc (suc n)) later ≤ e.backoff_max)
unfolding compute_backoff
backoff_mono e n jitter later h = (
  policy_backoff_mono e.backoff e.backoff_base e.backoff_max n jitter later h,
  policy_backoff-le e.backoff e.backoff_base e.backoff_max (suc (suc n)) later,
)

compute_backoff-le : (e : RestartEngine) (n jitter : ℕ) → compute_backoff e n jitter ≤ e.backoff_max
unfolding compute_backoff
compute_backoff-le e n jitter = policy_backoff-le e.backoff e.backoff_base e.backoff_max n jitter

-- A ruling either restarts or has delay 0, and its delay is at most `backoff_max`; without a backoff
-- policy it is 0.
pub delay_bounds :
    (e : RestartEngine) (now jitter : ℕ)
    → ((record_crash e now jitter).1.delay ≤ e.backoff_max)
      × (((record_crash e now jitter).1.action ≡ restart)
          ⊎ ((record_crash e now jitter).1.delay ≡ 0))
      × ((record_crash (record e { backoff = none }) now jitter).1.delay ≡ 0)
unfolding record_crash
delay_bounds e now jitter = (
  ground (arith, compute_backoff-le e occupancy jitter),
  ground arith,
  unfold compute_backoff in ground arith,
)
  where
    occupancy : ℕ
    occupancy = length (prune e.restart_window now (e.window ++ now ∷ []))
