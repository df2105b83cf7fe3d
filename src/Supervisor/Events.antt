-- ===== src/Supervisor/Events.antt =====
-- What a crash leads to in civitas/supervisor.py, by the verdict on it.
use python_civitas.Base.{ℕ, ◌≡◌, true, false, ◌∷◌, String, string_eq, nat_eq, arith}
use python_civitas.Base.Dict.{lookup}
use python_civitas.Engine.{exhausted, record_crash}
use python_civitas.Supervisor.{Supervisor, Env, escalated}
use python_civitas.Supervisor.Crashes.{
  rule_on, was_suspended, call_back, handle_crash, escalate, escalate_to_parent,
}

-- A crash that exhausts the budget of a supervisor with a parent restarts nothing: the callbacks have
-- run, the crash is counted in the window, the event goes to the parent, and no child is touched.
pub exhausted_crash_escalates :
    (env : Env) (now jitter : ℕ) (name : String) (s : Supervisor)
    → was_suspended (lookup name s.children) ≡ false
    → (record_crash s.engine now jitter).1.action ≡ exhausted
    → s.has_parent ≡ true
    → let after = handle_crash env now jitter name s in
      (after.0 ≡ true)
      × (after.1.children ≡ s.children)
      × (after.1.child_tasks ≡ s.child_tasks)
      × (after.1.engine ≡ (record_crash s.engine now jitter).0)
      × (after.1.log ≡ escalated name ∷ call_back s.crash_callbacks name s.log)
unfolding handle_crash rule_on escalate escalate_to_parent
exhausted_crash_escalates env now jitter name s working spent parent =
    rw working (ground arith, ground arith, ground arith, ground arith, ground arith)
