-- ===== src/Examples/Spawns.antt =====
-- A DynamicSupervisor of civitas/supervisor.py with concrete requests.
use python_civitas.Base.{
  arith, ◌≡◌, refl, ◌+◌, true, false, none, some, [], ◌∷◌, String, string_eq, nat_eq,
}
use python_civitas.Base.Dict.{lookup, insert, erase}
use python_civitas.Engine.{record_crash, prune, rule}
use python_civitas.Mailbox.{Mailbox}
use python_civitas.Agent.{initializing, running, crashed}
use python_civitas.Registry.{LocalRegistry, register, has, fire_listeners}
use python_civitas.Spawning.{
  transient, never, clean_exit, ChildAgent, ChildRec, Env, DynamicSupervisor, SpawnRequest,
  handle_spawn, refusal, resolve_class, rpartition, live_for_spawner, admit, is_distributed,
  spawned, error, already_registered,
}
use python_civitas.Spawning.Exits.{
  handle_child_exit, begin_child_exit, let_go_after, handle_despawn, begin_announce, mark_announced,
  rule_on_exit, let_go, remove_child, clear_child_marker, maybe_announce_deregister,
  announce_deregister, notify_spawner,
}
use python_civitas.Spawning.Steps.{spawn, despawn, step, after_steps}
use python_civitas.Spawning.Limits.{AreWithin, admissions, limits_hold}
use python_civitas.Spawning.Abstract.{
  RosterStep, roster, IsGone, step-RosterStep, epoch_never_returns,
}
use python_civitas.Spawning.Announcements.{
  announcements, withdrawals, despawn_during_announcement, despawn_during_exit,
}
use python_civitas.Spawning.Outcomes.{spawn_retry_changes_nothing}
use python_civitas.Spawning.Ends.{is_some, child_exit_keeps, ended_name_stays_taken}

abbrev mailbox : Mailbox
mailbox = record {
  queue = [];
  priority_queue = [];
  maxsize = 10;
  priority_maxsize = 0;
  notify = false;
}

abbrev worker : ChildAgent
worker = record {
  status = running;
  reached_loop = true;
  start_phase = "running";
  marked = false;
  mailbox = mailbox;
  is_dynamic_supervisor = false;
}

abbrev env : Env
env = record {
  import_class = λ path name. some worker;
  approve = λ spawner agent name config. true;
  meanwhile = λ r. r;
  renew = λ agent. some worker;
  launch = λ agent. (true, agent);
}

abbrev failing : Env
failing = record env { launch = λ agent. (false, record agent { status = crashed }) }

abbrev names : LocalRegistry
names = record {
  entries = [];
  listeners = [];
  remote_epochs = [];
  suspended = [];
  loop_running = false;
  tasks = [];
}

abbrev empty : DynamicSupervisor
empty = record {
  max_children = some 1;
  max_total_spawns = some 5;
  restart_mode = transient;
  ds_max_restarts = 3;
  ds_restart_window = 60;
  spawner_allowlist = none;
  max_children_per_spawner = some 1;
  max_total_spawns_per_spawner = none;
  has_bus = true;
  in_process = false;
  signs = false;
  registry = some names;
  dynamic_children = [];
  child_tasks = [];
  spawner_names = [];
  child_restart_counts = [];
  child_engines = [];
  total_spawns = 0;
  spawner_total_counts = [];
  spawn_epoch = 0;
  tasks_made = 0;
  watched = [];
  log = [];
}

-- "m.W" spawned by "boss"
abbrev request : String → SpawnRequest
request name = record {
  class_path = 109 ∷ 46 ∷ 87 ∷ [];
  name = name;
  config = [];
  spawner = "boss";
  wait = false;
  spawn_id = "t1";
}

abbrev child : ChildRec
child = record {
  agent = worker;
  task = 0;
  acknowledged = true;
  spawn_id = "t1";
  epoch = 1;
  announced = false;
}

abbrev busy : DynamicSupervisor
busy = record empty {
  dynamic_children = ("w", child) ∷ [];
  child_tasks = ("w", 0) ∷ [];
  spawner_names = ("w", "boss") ∷ [];
  total_spawns = 1;
  spawn_epoch = 1;
  tasks_made = 1;
  watched = 0 ∷ [];
  registry = some (register "w" none true [] [] names).1;
}

limits_hold_example :
    let ops = spawn env (request "v") ∷ despawn "u" ∷ spawn env (request "w") ∷ [] in
    AreWithin empty (admissions ops empty) (after_steps ops empty).dynamic_children
limits_hold_example =
    limits_hold (spawn env (request "v") ∷ despawn "u" ∷ spawn env (request "w") ∷ []) empty
      (refl, refl, refl, refl, refl, refl, refl, refl, refl)

one_admitted :
    admissions (spawn env (request "v") ∷ despawn "u" ∷ spawn env (request "w") ∷ []) empty
    ≡ ("w", "boss") ∷ []
unfolding admissions lookup insert erase handle_spawn refusal live_for_spawner resolve_class
    rpartition has register fire_listeners admit is_distributed step after_steps handle_despawn
one_admitted = refl

step-RosterStep_example : RosterStep (roster busy) (roster (step (despawn "w") busy))
step-RosterStep_example = step-RosterStep (despawn "w") busy

epoch_never_returns_example : IsGone 1 (
    roster (
      after_steps
        (spawn env (request "w") ∷ [])
        (record busy { dynamic_children = []; child_tasks = [] })))
unfolding roster lookup
epoch_never_returns_example =
    epoch_never_returns (spawn env (request "w") ∷ [])
      (record busy { dynamic_children = []; child_tasks = [] }) 1 (ground arith)
      λ n h. ground (arith, h)

despawn_during_announcement_example :
    let begun = begin_announce running "w" 1 busy in
    let end = mark_announced "w" begun.0 (handle_despawn "w" begun.1).1 in
    (lookup "w" end.dynamic_children ≡ none)
    × (announcements 1 end.log ≡ 1)
    × (withdrawals 1 end.log ≡ 0)
unfolding lookup announcements withdrawals
despawn_during_announcement_example =
    despawn_during_announcement busy running "w" child refl refl refl refl

spawn_retry_changes_nothing_example :
    handle_spawn failing (request "w") (handle_spawn env (request "w") empty).1
    ≡ (some (spawned false initializing), (handle_spawn env (request "w") empty).1)
unfolding lookup insert handle_spawn refusal live_for_spawner resolve_class rpartition has register
    fire_listeners admit is_distributed
spawn_retry_changes_nothing_example =
    spawn_retry_changes_nothing env failing (request "w")
      (record child {
        agent = record worker {
          status = initializing;
          reached_loop = false;
          start_phase = "restore";
        };
      })
      empty refl refl refl

child_exit_keeps_example :
    is_some (lookup "w" (handle_child_exit env 7 "w" true busy).dynamic_children) ≡ true
unfolding lookup rule_on_exit record_crash prune rule insert
child_exit_keeps_example = child_exit_keeps env 7 "w" true child busy refl

ended_name_stays_taken_example :
    handle_spawn env (request "w") (handle_child_exit env 7 "w" false busy)
    ≡ (some (error already_registered), handle_child_exit env 7 "w" false busy)
unfolding lookup insert erase handle_child_exit let_go remove_child clear_child_marker
    maybe_announce_deregister announce_deregister notify_spawner has register fire_listeners
ended_name_stays_taken_example =
    ended_name_stays_taken env env 7 false child (request "w") busy refl refl refl refl refl

abbrev waiting : ChildRec
waiting = record child { announced = true; agent = record worker { marked = true } }

abbrev far : DynamicSupervisor
far = record busy {
  restart_mode = never;
  has_bus = true;
  in_process = false;
  dynamic_children = ("w", waiting) ∷ [];
}

despawn_during_exit_example :
    let begun = begin_child_exit env 7 "w" false far in
    let end = let_go_after "w" waiting clean_exit (handle_despawn "w" begun).1 in
    (lookup "w" end.dynamic_children ≡ none) × (withdrawals 1 end.log ≡ withdrawals 1 far.log + 2)
unfolding lookup is_distributed
despawn_during_exit_example = despawn_during_exit env 7 far "w" waiting refl refl refl refl
