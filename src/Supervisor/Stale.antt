-- ===== src/Supervisor/Stale.antt =====
-- Crash events of civitas/supervisor.py whose child has been restarted meanwhile.
use python_civitas.Base.{
  ℕ, ◌≤◌, ◌≡◌, refl, ◌∙◌, ap, ◌≢◌, Bool, true, false, some, [], ◌∷◌, String, string_eq, nat_eq,
  arith,
}
use python_civitas.Base.Dict.{Dict, lookup, erase, lookup-erase}
use python_civitas.Engine.{restart}
use python_civitas.Supervisor.{
  Supervisor, Child, Env, Event, agent_child, one_for_all, ensure_halted, halt_each, restart_each,
  restart_all_children,
}
use python_civitas.Supervisor.Crashes.{
  rule_on, was_suspended, handle_crash, note_crash, is_stale_task, contain_failure,
  escalate_to_parent, wait_backoff, process_crash_event,
}
use python_civitas.Supervisor.Scope.{
  mapped, IsDistinct, Succeeds, halt_each-IsDistinct, halt_each-Succeeds, lookup-halt_each,
}
use python_civitas.Supervisor.Tasks.{KeepsIdentity, IsNamed, ensured, same_side, task_renewed}

halt_each-IsNamed :
    (env : Env) (cs : Dict String Child)
    → KeepsIdentity env
    → IsNamed cs
    → IsNamed (halt_each env cs)
unfolding halt_each
halt_each-IsNamed env [] h named = tt
halt_each-IsNamed env ((k, c) ∷ cs) h named =
    ((ensured env c h).0 ∙ named.0, halt_each-IsNamed env cs h named.1)

-- An event is dropped when its task is no longer the child's.
dropped :
    (env : Env) (now jitter id : ℕ) (e : Event) (s : Supervisor)
    → lookup id s.pending_crash_events ≡ some e
    → is_stale_task e.task (lookup e.child s.child_tasks) ≡ true
    → process_crash_event env now jitter id s
      ≡ record s { pending_crash_events = erase id s.pending_crash_events }
unfolding process_crash_event
dropped env now jitter id e s present stale = rw present (ground (arith, stale))

-- The supervisor just before it restarts all children, in the part that a restart reads.
record IsRestartOf (id : ℕ) (env : Env) (s s' : Supervisor) : Type 0 where
  before : Supervisor
  pending :
      s'.pending_crash_events
      ≡ (restart_each env (halt_each env s.children) before).1.pending_crash_events
  tasks : s'.child_tasks ≡ (restart_each env (halt_each env s.children) before).1.child_tasks
  rest : before.pending_crash_events ≡ erase id s.pending_crash_events

contained :
    (name : String) (r : Bool × Supervisor)
    → ((contain_failure name r).pending_crash_events ≡ r.1.pending_crash_events)
      × ((contain_failure name r).child_tasks ≡ r.1.child_tasks)
unfolding escalate_to_parent
contained name (true, s) = (refl, refl)
contained name (false, s) = (ground arith, ground arith)

first_restart :
    (env : Env) (now jitter id : ℕ) (e : Event) (s : Supervisor)
    → s.running ≡ true
    → s.strategy ≡ one_for_all
    → lookup id s.pending_crash_events ≡ some e
    → is_stale_task e.task (lookup e.child s.child_tasks) ≡ false
    → (rule_on (was_suspended (lookup e.child s.children)) now jitter s.engine).1.action ≡ restart
    → IsRestartOf id env s (process_crash_event env now jitter id s)
unfolding process_crash_event handle_crash restart_all_children
first_restart env now jitter id e s on strategy present current verdict =
    let noted =
      note_crash now jitter e.child
        (record s { pending_crash_events = erase id s.pending_crash_events }) in
    let v = (rule_on (was_suspended (lookup e.child s.children)) now jitter s.engine).1 in
    let before = record noted {
      log = wait_backoff v.delay noted.log;
      children = halt_each env s.children;
    } in
    let both = contained e.child (restart_each env (halt_each env s.children) before) in
    rw (present, on, current, strategy)
      (record {
        before = before;
        pending = ground (arith, verdict, strategy, both);
        tasks = ground (arith, verdict, strategy, both);
        rest = refl;
      })

-- Two children under ONE_FOR_ALL crash at once, the second an agent. When the first crash is
-- current, is ruled a restart, and restarts all children with success (stops and starts keep the
-- identity of a child, and each stands once and under its own name), the second crash, of a task
-- from before that restart, restarts nothing more: processing its event only takes the event out of
-- the side-table.
pub simultaneous_crash_ignored :
    (env : Env) (now jitter later later_jitter first_id second_id task : ℕ) (first second : Event)
    (c : Child) (s : Supervisor)
    → KeepsIdentity env
    → Succeeds env (ensure_halted env) s.children
    → IsNamed s.children
    → IsDistinct s.children
    → s.running ≡ true
    → s.strategy ≡ one_for_all
    → lookup first_id s.pending_crash_events ≡ some first
    → is_stale_task first.task (lookup first.child s.child_tasks) ≡ false
    → (rule_on (was_suspended (lookup first.child s.children)) now jitter s.engine).1.action
      ≡ restart
    → first_id ≢ second_id
    → lookup second_id s.pending_crash_events ≡ some second
    → second.task ≡ some task
    → lookup second.child s.children ≡ some c
    → c.kind ≡ agent_child
    → task ≤ c.incarnation
    → let after = process_crash_event env now jitter first_id s in
      process_crash_event env later later_jitter second_id after
      ≡ record after { pending_crash_events = erase second_id after.pending_crash_events }
simultaneous_crash_ignored env now jitter later later_jitter first_id second_id task first second c
      s h ok named distinct on strategy present current verdict other waiting crashed child agent
      old =
    let after = process_crash_event env now jitter first_id s in
    let r = first_restart env now jitter first_id first s on strategy present current verdict in
    let halted = halt_each env s.children in
    let same = ensured env c h in
    let renewed =
      task_renewed env second.child (ensure_halted env c) halted r.before h
        (halt_each-Succeeds env s.children ok) (halt_each-IsNamed env s.children h named)
        (halt_each-IsDistinct env s.children distinct)
        (lookup-halt_each env second.child s.children ∙ ap (mapped (ensure_halted env)) child)
        (same.1 ∙ agent) in
    dropped env later later_jitter second_id second after
      (ap (lookup second_id) (r.pending ∙ (same_side env halted r.before).0 ∙ r.rest)
        ∙ ground (arith, lookup-erase first_id second_id s.pending_crash_events, waiting))
      (ground (arith, r.tasks, renewed, same, crashed))
