-- ===== src/Engine.antt =====
-- civitas/supervision/engine.py: the restart budget of a supervisor.
-- Times and delays are whole ticks; a tick stands for a unit as fine as the program's floats need.
-- `now` and the value of random.random() are arguments of the calls that read them.
pub mod Window
pub mod Budget
pub mod Backoff
use python_civitas.Base.{
  ℕ, zero, suc, ◌+◌, ◌-◌, ◌*◌, ◌/◌, ◌^◌, min, Option, none, some, List, [], ◌∷◌, ◌++◌, ltb, leb,
  if◌then◌else◌, length,
}

pub data BackoffPolicy : Type 0 where
  constant linear exponential : BackoffPolicy

pub data Action : Type 0 where
  restart exhausted : Action

pub record RestartVerdict : Type 0 where
  pub action : Action
  pub delay : ℕ
  pub crashes_in_window : ℕ

pub record RestartEngine : Type 0 where
  pub max_restarts : ℕ
  pub restart_window : ℕ
  pub backoff : Option BackoffPolicy
  pub backoff_base : ℕ
  pub backoff_max : ℕ
  -- oldest crash first
  pub window : List ℕ

-- random.random() is `jitter / jitter_scale`, with 0 ≤ jitter < jitter_scale.
abbrev pub jitter_scale : ℕ
jitter_scale = 1000000

-- base * 2 ** (n - 1), which for n = 0 is base * 0.5
unfoldable pub doubled : ℕ → ℕ → ℕ
doubled base zero = base / 2
doubled base (suc n) = base * 2 ^ n

unfoldable pub raw_backoff : BackoffPolicy → ℕ → ℕ → ℕ → ℕ
raw_backoff constant base n jitter = base
raw_backoff linear base n jitter = base * n
raw_backoff exponential base n jitter =
    let delay = doubled base n in delay + delay * jitter / (4 * jitter_scale)

unfoldable pub policy_backoff : Option BackoffPolicy → ℕ → ℕ → ℕ → ℕ → ℕ
policy_backoff none base cap n jitter = 0
policy_backoff (some policy) base cap n jitter = min (raw_backoff policy base n jitter) cap

unfoldable pub compute_backoff : RestartEngine → ℕ → ℕ → ℕ
unfolding policy_backoff
compute_backoff e n jitter = policy_backoff e.backoff e.backoff_base e.backoff_max n jitter

-- while window and window[0] <= now - restart_window: popleft, with the subtraction moved over
unfoldable pub prune : ℕ → ℕ → List ℕ → List ℕ
prune span now [] = []
prune span now (t ∷ ts) =
    let rest = prune span now ts in if leb (t + span) now then rest else t ∷ ts

unfoldable pub rule : RestartEngine → ℕ → ℕ → RestartVerdict
rule e occupancy jitter =
    if ltb e.max_restarts occupancy
    then record { action = exhausted; delay = 0; crashes_in_window = occupancy }
    else record {
      action = restart;
      delay = compute_backoff e occupancy jitter;
      crashes_in_window = occupancy;
    }

unfoldable pub record_crash : RestartEngine → ℕ → ℕ → RestartEngine × RestartVerdict
unfolding rule
record_crash e now jitter =
    let kept = prune e.restart_window now (e.window ++ now ∷ []) in
    (record e { window = kept }, rule e (length kept) jitter)

unfoldable pub exempt_verdict : RestartEngine → RestartVerdict
exempt_verdict e = record { action = restart; delay = 0; crashes_in_window = length e.window }

unfoldable pub reset : RestartEngine → RestartEngine
reset e = record e { window = [] }
