-- ===== src/Supervisor/Crashes.antt =====
-- Crash events of civitas/supervisor.py: the verdict, escalation, and the side-table of events.
use python_civitas.Base.{
  ℕ, zero, suc, ◌+◌, Bool, true, false, not, Option, none, some, List, ◌∷◌, String, ltb, ◌==◌,
  nat_eq, string_eq, if◌then◌else◌,
}
use python_civitas.Base.Dict.{lookup, insert, erase}
use python_civitas.Engine.{
  RestartEngine, RestartVerdict, restart, exhausted, record_crash, exempt_verdict,
}
use python_civitas.Supervisor.{
  Supervisor, Child, Env, Event, Act, called_back, slept, escalated, gave_up, agent_child,
  supervisor_child, apply_strategy,
}

-- _escalate_to_parent, as the supervisor sees it
unfoldable pub escalate_to_parent : String → Supervisor → Supervisor
escalate_to_parent name s = if s.has_parent then record s { log = escalated name ∷ s.log } else s

abbrev pub clear_marker : String → Option Child → Supervisor → Supervisor
clear_marker name none s = s
clear_marker name (some c) s = elim c.kind [
  | supervisor_child ↦ s
  | agent_child ↦ record s {
    children = insert name (record c { marked = false }) s.children;
    log = gave_up name ∷ s.log;
  }
]

unfoldable pub escalate : String → Supervisor → Supervisor
unfolding escalate_to_parent lookup insert
escalate name s =
    if s.has_parent then escalate_to_parent name s else clear_marker name (lookup name s.children) s

abbrev pub count_of : Option ℕ → ℕ
count_of none = 0
count_of (some n) = n

abbrev pub was_suspended : Option Child → Bool
was_suspended none = false
was_suspended (some c) = c.marked

-- The engine and its verdict on a crash, which a suspended child is exempt from.
unfoldable pub rule_on : Bool → ℕ → ℕ → RestartEngine → RestartEngine × RestartVerdict
unfolding record_crash exempt_verdict
rule_on true now jitter e = (e, exempt_verdict e)
rule_on false now jitter e = record_crash e now jitter

unfoldable pub call_back : ℕ → String → List Act → List Act
call_back zero name log = log
call_back (suc n) name log = call_back n name (called_back name ∷ log)

abbrev pub wait_backoff : ℕ → List Act → List Act
wait_backoff delay log = if ltb 0 delay then slept delay ∷ log else log

abbrev pub act_on_verdict : Env → RestartVerdict → String → Supervisor → Bool × Supervisor
act_on_verdict env v name s = elim v.action [
  | exhausted ↦ (true, escalate name s)
  | restart ↦ apply_strategy s.strategy env name (record s { log = wait_backoff v.delay s.log })
]

-- The crash noted and ruled on, before the verdict is acted on.
abbrev pub note_crash : ℕ → ℕ → String → Supervisor → Supervisor
note_crash now jitter name s = record s {
  restart_counts = insert name (count_of (lookup name s.restart_counts) + 1) s.restart_counts;
  engine = (rule_on (was_suspended (lookup name s.children)) now jitter s.engine).0;
  log = call_back s.crash_callbacks name s.log;
}

unfoldable pub handle_crash : Env → ℕ → ℕ → String → Supervisor → Bool × Supervisor
unfolding lookup insert rule_on call_back escalate
handle_crash env now jitter name s =
    act_on_verdict env (rule_on (was_suspended (lookup name s.children)) now jitter s.engine).1 name
      (note_crash now jitter name s)

-- task is not None and self._child_tasks.get(name) is not task
abbrev pub is_stale_task : Option ℕ → Option ℕ → Bool
is_stale_task none current = false
is_stale_task (some task) none = true
is_stale_task (some task) (some current) = not (current == task)

-- A restart that fails is escalated.
abbrev pub contain_failure : String → Bool × Supervisor → Supervisor
contain_failure name (true, s) = s
contain_failure name (false, s) = escalate_to_parent name s

abbrev pub process_event : Env → ℕ → ℕ → Option Event → Supervisor → Supervisor
process_event env now jitter none s = s
process_event env now jitter (some e) s =
    if not s.running
    then s
    else if is_stale_task e.task (lookup e.child s.child_tasks)
    then s
    else contain_failure e.child (handle_crash env now jitter e.child s)

unfoldable pub process_crash_event : Env → ℕ → ℕ → ℕ → Supervisor → Supervisor
unfolding lookup erase handle_crash escalate_to_parent
process_crash_event env now jitter event_id s =
    process_event env now jitter (lookup event_id s.pending_crash_events)
      (record s { pending_crash_events = erase event_id s.pending_crash_events })
