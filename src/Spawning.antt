-- ===== src/Spawning.antt =====
-- DynamicSupervisor of civitas/supervisor.py: its state and the spawn of a child.
-- A child's record is kept by value under the child's name; the epoch of the record is its identity,
-- for continuations that still hold it. The class that importlib finds, the governance hook, and what
-- other supervisors do to the shared registry while the hook runs are the argument `env`, as are the
-- making and the start of a fresh incarnation. An announcement is recorded by its name and its epoch,
-- a reply by its outcome.
pub mod Exits
pub mod Steps
pub mod Moves
pub mod Endings
pub mod Handlers
pub mod Bounds
pub mod Limits
pub mod Announcements
pub mod Abstract
pub mod Outcomes
pub mod Ends
use python_civitas.Base.{
  ℕ, suc, ◌+◌, Bool, true, false, not, ◌&&◌, ◌⊎◌, inl, inr, Option, none, some, List, [], ◌∷◌,
  String, leb, ◌==◌, string_eq, nat_eq, if◌then◌else◌, contains, length, filter,
}
use python_civitas.Base.Dict.{Dict, lookup, insert, erase}
use python_civitas.Engine.{RestartEngine}
use python_civitas.Message.{Payload}
use python_civitas.Mailbox.{Mailbox}
use python_civitas.Agent.{ProcessStatus, running, suspended, initializing}
use python_civitas.Registry.{LocalRegistry, Result, done, value_error, register, has}

pub data RestartMode : Type 0 where
  permanent transient never : RestartMode

-- The child's AgentProcess, as far as its supervisor looks at it.
pub record ChildAgent : Type 0 where
  pub status : ProcessStatus
  pub reached_loop : Bool
  pub start_phase : String
  -- whether the suspend marker is in its state
  pub marked : Bool
  pub mailbox : Mailbox
  pub is_dynamic_supervisor : Bool

pub record ChildRec : Type 0 where
  pub agent : ChildAgent
  pub task : ℕ
  pub acknowledged : Bool
  pub spawn_id : String
  pub epoch : ℕ
  pub announced : Bool

pub record Env : Type 0 where
  pub import_class : List ℕ → List ℕ → Option ChildAgent
  pub approve : String → ChildAgent → String → Payload → Bool
  pub meanwhile : Option LocalRegistry → Option LocalRegistry
  pub renew : ChildAgent → Option ChildAgent
  pub launch : ChildAgent → Bool × ChildAgent

pub data Reason : Type 0 where
  already_running already_registered max_children_reached max_total_spawns_reached : Reason
  spawner_children_reached spawner_spawns_reached invalid_class_path cannot_import : Reason
  spawner_not_allowed denied_by_policy no_dynamic_agent : Reason
  start_failed : String → Reason

pub data Reply : Type 0 where
  ok : Reply
  spawned : Bool → ProcessStatus → Reply
  error : Reason → Reply

pub data Outcome : Type 0 where
  restarts_exhausted clean_exit : Outcome
  failed_in : String → Outcome

pub data Effect : Type 0 where
  set_up torn_down minted : String → Effect
  audited : String → String → Effect
  announced_child : String → ℕ → Effect
  withdrawn : String → ℕ → Effect
  cleared_marker : String → Effect
  told : String → String → Outcome → Effect
  replied : Reply → Effect

pub record DynamicSupervisor : Type 0 where
  pub max_children : Option ℕ
  pub max_total_spawns : Option ℕ
  pub restart_mode : RestartMode
  pub ds_max_restarts : ℕ
  pub ds_restart_window : ℕ
  pub spawner_allowlist : Option (List String)
  pub max_children_per_spawner : Option ℕ
  pub max_total_spawns_per_spawner : Option ℕ
  pub has_bus : Bool
  pub in_process : Bool
  pub signs : Bool
  pub registry : Option LocalRegistry
  pub dynamic_children : Dict String ChildRec
  pub child_tasks : Dict String ℕ
  pub spawner_names : Dict String String
  pub child_restart_counts : Dict String ℕ
  pub child_engines : Dict String RestartEngine
  pub total_spawns : ℕ
  pub spawner_total_counts : Dict String ℕ
  pub spawn_epoch : ℕ
  -- the tasks made so far, and those with the callback that reports their end
  pub tasks_made : ℕ
  pub watched : List ℕ
  -- newest first
  pub log : List Effect

pub record SpawnRequest : Type 0 where
  pub class_path : List ℕ
  pub name : String
  pub config : Payload
  pub spawner : String
  pub wait : Bool
  pub spawn_id : String

abbrev pub emit : Effect → DynamicSupervisor → DynamicSupervisor
emit x s = record s { log = x ∷ s.log }

unfoldable pub is_distributed : DynamicSupervisor → Bool
is_distributed s = s.has_bus && not s.in_process

-- status in (RUNNING, SUSPENDED)
abbrev pub is_ready : ProcessStatus → Bool
is_ready running = true
is_ready suspended = true
is_ready _ = false

abbrev pub count_in : Option ℕ → ℕ
count_in none = 0
count_in (some n) = n

-- limit is not None and n >= limit
abbrev pub reached : Option ℕ → ℕ → Bool
reached none n = false
reached (some limit) n = leb limit n

abbrev pub is_taken : String → Option LocalRegistry → Bool
is_taken name none = false
is_taken name (some r) = has name r

abbrev pub is_spawner : String → Option String → Bool
is_spawner spawner none = false
is_spawner spawner (some other) = other == spawner

-- sum(1 for n in children if spawner_names.get(n) == spawner)
unfoldable pub live_for_spawner : String → Dict String String → Dict String ChildRec → ℕ
unfolding lookup
live_for_spawner spawner names [] = 0
live_for_spawner spawner names ((n, rec) ∷ children) =
    let rest = live_for_spawner spawner names children in
    if is_spawner spawner (lookup n names) then suc rest else rest

-- The guards on the name and on the four limits, in the order of the code.
unfoldable pub refusal : SpawnRequest → DynamicSupervisor → Option Reason
unfolding lookup live_for_spawner
refusal q s =
    if is_taken q.name s.registry
    then some already_registered
    else if reached s.max_children (length s.dynamic_children)
    then some max_children_reached
    else if reached s.max_total_spawns s.total_spawns
    then some max_total_spawns_reached
    else if reached s.max_children_per_spawner
        (live_for_spawner q.spawner s.spawner_names s.dynamic_children)
    then some spawner_children_reached
    else if reached s.max_total_spawns_per_spawner
        (count_in (lookup q.spawner s.spawner_total_counts))
    then some spawner_spawns_reached
    else none

-- class_path.rpartition("."), without the dot; none where there is no dot
unfoldable pub rpartition : ℕ → List ℕ → Option (List ℕ × List ℕ)
rpartition c [] = none
rpartition c (x ∷ xs) = elim (rpartition c xs) [
  | some split ↦ some (x ∷ split.0, split.1)
  | none ↦ if x == c then some ([], xs) else none
]

abbrev pub import_from : Env → Option (List ℕ × List ℕ) → Reason ⊎ ChildAgent
import_from env none = inl invalid_class_path
import_from env (some ([], class_name)) = inl invalid_class_path
import_from env (some (x ∷ xs, class_name)) = elim (env.import_class (x ∷ xs) class_name) [
  | none ↦ inl cannot_import
  | some agent ↦ inr agent
]

unfoldable pub resolve_class : Env → List ℕ → Reason ⊎ ChildAgent
unfolding rpartition
resolve_class env class_path = import_from env (rpartition 46 class_path)

abbrev pub is_allowed : String → Option (List String) → Bool
is_allowed spawner none = true
is_allowed spawner (some allowed) = contains spawner allowed

-- The allowlist and the governance hook.
abbrev pub approval : Env → SpawnRequest → ChildAgent → DynamicSupervisor → Option Reason
approval env q agent s =
    if not (is_allowed q.spawner s.spawner_allowlist)
    then some spawner_not_allowed
    else if env.approve q.spawner agent q.name q.config
    then none
    else some denied_by_policy

abbrev pub capabilities_of : ChildAgent → List String
capabilities_of agent =
    if agent.is_dynamic_supervisor then "_agency.dynamic_supervisor" ∷ [] else []

abbrev pub claim_name : String → ChildAgent → Option LocalRegistry → Result × Option LocalRegistry
claim_name name agent none = (done, none)
claim_name name agent (some r) =
    let answer = register name none true (capabilities_of agent) [] r in (answer.0, some answer.1)

-- What follows the registration: the bus, the key of the child, and the audit.
abbrev pub set_up_child : SpawnRequest → DynamicSupervisor → DynamicSupervisor
set_up_child q s =
    let wired = if s.has_bus then emit (set_up q.name) s else s in
    let keyed = if is_distributed s && s.signs then emit (minted q.name) wired else wired in
    emit (audited q.spawner q.name) keyed

abbrev pub started : ChildAgent → ChildAgent
started agent = record agent {
  status = initializing;
  reached_loop = false;
  start_phase = "restore";
}

abbrev pub new_rec : SpawnRequest → ChildAgent → DynamicSupervisor → ChildRec
new_rec q agent s = record {
  agent = started agent;
  task = s.tasks_made;
  acknowledged = not q.wait;
  spawn_id = q.spawn_id;
  epoch = suc s.spawn_epoch;
  announced = false;
}

-- The admission: the attempt is counted, the child started and put into the table.
unfoldable pub admit : SpawnRequest → ChildAgent → DynamicSupervisor → DynamicSupervisor
unfolding lookup insert
admit q agent s = record s {
  total_spawns = suc s.total_spawns;
  spawner_total_counts =
      insert q.spawner (suc (count_in (lookup q.spawner s.spawner_total_counts)))
        s.spawner_total_counts;
  spawn_epoch = suc s.spawn_epoch;
  tasks_made = suc s.tasks_made;
  watched = s.tasks_made ∷ s.watched;
  dynamic_children = insert q.name (new_rec q agent s) s.dynamic_children;
  spawner_names = insert q.name q.spawner s.spawner_names;
  child_tasks = insert q.name s.tasks_made s.child_tasks;
}

-- With wait=True the reply is left to a continuation.
abbrev pub spawn_reply : Bool → Option Reply
spawn_reply true = none
spawn_reply false = some (spawned false initializing)

abbrev pub start_child :
    SpawnRequest
    → ChildAgent
    → Result × Option LocalRegistry
    → DynamicSupervisor
    → Option Reply × DynamicSupervisor
start_child q agent (value_error, r) s =
    (some (error already_registered), record s { registry = r })
start_child q agent (done, r) s =
    (spawn_reply q.wait, admit q agent (set_up_child q (record s { registry = r })))

-- The hook ran, unless the allowlist refused before it.
abbrev pub spawn_approved :
    Env
    → SpawnRequest
    → ChildAgent
    → Option Reason
    → DynamicSupervisor
    → Option Reply × DynamicSupervisor
spawn_approved env q agent (some spawner_not_allowed) s = (some (error spawner_not_allowed), s)
spawn_approved env q agent (some reason) s =
    (some (error reason), record s { registry = env.meanwhile s.registry })
spawn_approved env q agent none s =
    start_child q agent (claim_name q.name agent (env.meanwhile s.registry)) s

abbrev pub spawn_class :
    Env → SpawnRequest → Reason ⊎ ChildAgent → DynamicSupervisor → Option Reply × DynamicSupervisor
spawn_class env q (inl reason) s = (some (error reason), s)
spawn_class env q (inr agent) s = spawn_approved env q agent (approval env q agent s) s

-- What the four limits and the name let through.
abbrev pub spawn_unless :
    Env → SpawnRequest → Option Reason → DynamicSupervisor → Option Reply × DynamicSupervisor
spawn_unless env q (some reason) s = (some (error reason), s)
spawn_unless env q none s = spawn_class env q (resolve_class env q.class_path) s

abbrev pub spawn_existing : SpawnRequest → ChildRec → Reply
spawn_existing q rec =
    if not (q.spawn_id == "") && rec.spawn_id == q.spawn_id
    then spawned (is_ready rec.agent.status) rec.agent.status
    else error already_running

abbrev pub spawn_unless_live :
    Env → SpawnRequest → Option ChildRec → DynamicSupervisor → Option Reply × DynamicSupervisor
spawn_unless_live env q (some rec) s = (some (spawn_existing q rec), s)
spawn_unless_live env q none s = spawn_unless env q (refusal q s) s

unfoldable pub handle_spawn :
    Env → SpawnRequest → DynamicSupervisor → Option Reply × DynamicSupervisor
unfolding lookup
handle_spawn env q s = spawn_unless_live env q (lookup q.name s.dynamic_children) s
