-- ===== src/Examples/Supervisors.antt =====
-- A supervisor of civitas/supervisor.py with concrete children.
use python_civitas.Base.{
  arith, nat_eq, ◌≡◌, refl, true, false, none, some, [], ◌∷◌, String, string_eq, if◌then◌else◌,
}
use python_civitas.Base.Dict.{lookup, erase}
use python_civitas.Engine.{RestartEngine, restart, exhausted, record_crash, prune, rule}
use python_civitas.Mailbox.{transfer_mailbox, drain, put_all}
use python_civitas.Agent.{running, crashed, stopped}
use python_civitas.Supervisor.{
  Supervisor, Child, Env, agent_child, rest_for_one, one_for_all, revive, apply_strategy,
  fresh_incarnation, ensure_halted,
}
use python_civitas.Supervisor.Crashes.{was_suspended, rule_on, is_stale_task, process_crash_event}
use python_civitas.Supervisor.Tasks.{KeepsIdentity}
use python_civitas.Supervisor.Stale.{simultaneous_crash_ignored}
use python_civitas.Supervisor.Scope.{
  Succeeds, IsDistinct, mapped, in_scope, prepared, restart_scope,
}

abbrev spent : RestartEngine
spent = record {
  max_restarts = 1;
  restart_window = 60;
  backoff = none;
  backoff_base = 1;
  backoff_max = 60;
  window = 5 ∷ 6 ∷ [];
}

abbrev worker : String → Child
worker name = record {
  name = name;
  kind = agent_child;
  status = running;
  incarnation = 1;
  marked = false;
  mailbox = record {
    queue = [];
    priority_queue = [];
    maxsize = 10;
    priority_maxsize = 0;
    notify = false;
  };
  engine = spent;
  restart_counts = [];
}

abbrev approval : Child
approval = record (worker "b") { marked = true; status = crashed }

abbrev env : Env
env = record {
  halt = λ c. record c { status = stopped };
  launch = λ c. (true, record c { status = running });
}

abbrev supervisor : Supervisor
supervisor = record {
  name = "root";
  strategy = rest_for_one;
  running = true;
  children = ("a", worker "a") ∷ ("b", approval) ∷ ("c", worker "c") ∷ [];
  remote_children = [];
  engine = spent;
  restart_counts = [];
  child_tasks = ("a", 1) ∷ ("b", 1) ∷ ("c", 1) ∷ [];
  pending_crash_events = [];
  has_parent = true;
  has_bus = true;
  crash_callbacks = 1;
  log = [];
}

b_present : lookup "b" supervisor.children ≡ some approval
unfolding lookup
b_present = refl

a_working : was_suspended (lookup "a" supervisor.children) ≡ false
unfolding lookup
a_working = refl

budget_spent : (record_crash spent 7 0).1.action ≡ exhausted
unfolding record_crash prune rule
budget_spent = refl

restarts_succeed : Succeeds env (prepared rest_for_one env) supervisor.children
unfolding prepared ensure_halted revive fresh_incarnation transfer_mailbox drain put_all
restarts_succeed = (refl, (refl, (refl, tt)))

children-IsDistinct : IsDistinct supervisor.children
unfolding lookup
children-IsDistinct = (refl, (refl, (refl, tt)))

restart_scope_example : lookup "c" (apply_strategy rest_for_one env "b" supervisor).1.children ≡ (
    if in_scope rest_for_one "b" supervisor.children "c"
    then mapped (λ c. (revive env (prepared rest_for_one env c)).1) (lookup "c" supervisor.children)
    else lookup "c" supervisor.children)
restart_scope_example =
    restart_scope env rest_for_one "b" "c" supervisor restarts_succeed children-IsDistinct refl

abbrev twice : Supervisor
twice = record supervisor {
  strategy = one_for_all;
  engine = record spent { window = [] };
  pending_crash_events =
      (1, record { child = "a"; error = "x"; task = some 1 })
      ∷ (2, record { child = "c"; error = "y"; task = some 1 })
      ∷ [];
}

all_succeed : Succeeds env (ensure_halted env) twice.children
unfolding ensure_halted revive fresh_incarnation transfer_mailbox drain put_all
all_succeed = (refl, (refl, (refl, tt)))

env-KeepsIdentity : KeepsIdentity env
env-KeepsIdentity = record {
  launched_name = λ c. refl;
  launched_kind = λ c. refl;
  launched_incarnation = λ c. refl;
  halted_name = λ c. refl;
  halted_kind = λ c. refl;
  halted_incarnation = λ c. refl;
}

first_waits :
    lookup 1 twice.pending_crash_events ≡ some (record { child = "a"; error = "x"; task = some 1 })
unfolding lookup
first_waits = refl

first_current : is_stale_task (some 1) (lookup "a" twice.child_tasks) ≡ false
unfolding lookup
first_current = refl

first_restarts :
    (rule_on (was_suspended (lookup "a" twice.children)) 7 0 twice.engine).1.action ≡ restart
unfolding lookup rule_on record_crash prune rule
first_restarts = refl

second_waits :
    lookup 2 twice.pending_crash_events ≡ some (record { child = "c"; error = "y"; task = some 1 })
unfolding lookup
second_waits = refl

c_present : lookup "c" twice.children ≡ some (worker "c")
unfolding lookup
c_present = refl

simultaneous_crash_ignored_example :
    let after = process_crash_event env 7 0 1 twice in
    process_crash_event env 8 0 2 after
    ≡ record after { pending_crash_events = erase 2 after.pending_crash_events }
simultaneous_crash_ignored_example =
    simultaneous_crash_ignored env 7 0 8 0 1 2 1
      (record { child = "a"; error = "x"; task = some 1 })
      (record { child = "c"; error = "y"; task = some 1 }) (worker "c") twice env-KeepsIdentity
      all_succeed (refl, (refl, (refl, tt))) children-IsDistinct refl refl first_waits first_current
      first_restarts (ground arith) second_waits refl c_present refl (omega arith)
