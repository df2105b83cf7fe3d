-- ===== src/Supervisor.antt =====
-- The supervisor of civitas/supervisor.py: crash events, the verdict, and the restart strategies.
-- The children stand in the order of `self.children` under their names, which is `_children_by_name`
-- too. The incarnation of a child stands for the identity of its task. What awaiting the stop or the
-- start of a child leaves is run by the child's own tasks and is the argument `env`; the subtree of a
-- child supervisor is part of what its stop and its start do. The order in which children stop is not
-- recorded.
pub mod Crashes
pub mod Scope
pub mod Events
pub mod Tasks
pub mod Stale
pub mod Heartbeats
use python_civitas.Base.{
  ℕ, suc, ◌+◌, Bool, true, false, not, ◌&&◌, Option, none, some, List, [], ◌∷◌, String, ltb, ◌==◌,
  string_eq, nat_eq, if◌then◌else◌, contains,
}
use python_civitas.Base.Dict.{Dict, lookup, insert, erase}
use python_civitas.Engine.{
  RestartEngine, RestartVerdict, Action, restart, exhausted, record_crash, exempt_verdict, reset,
}
use python_civitas.Mailbox.{Mailbox, empty_mailbox, transfer_mailbox}
use python_civitas.Agent.{ProcessStatus, initializing, stopped, stopping, crashed}

pub data RestartStrategy : Type 0 where
  one_for_one one_for_all rest_for_one : RestartStrategy

pub data Kind : Type 0 where
  agent_child supervisor_child : Kind

pub record Child : Type 0 where
  pub name : String
  pub kind : Kind
  pub status : ProcessStatus
  pub incarnation : ℕ
  -- whether the suspend marker is in its state
  pub marked : Bool
  pub mailbox : Mailbox
  -- the budget of a child supervisor
  pub engine : RestartEngine
  pub restart_counts : Dict String ℕ

-- The child after awaiting its stop, and after its start with whether the start succeeded.
pub record Env : Type 0 where
  pub halt : Child → Child
  pub launch : Child → Bool × Child

-- A stashed crash event: the child, the error, and the task that crashed.
pub record Event : Type 0 where
  pub child : String
  pub error : String
  pub task : Option ℕ

pub data Act : Type 0 where
  called_back : String → Act
  slept : ℕ → Act
  routed_restart : String → Act
  escalated : String → Act
  gave_up : String → Act

pub record Supervisor : Type 0 where
  pub name : String
  pub strategy : RestartStrategy
  pub running : Bool
  pub children : Dict String Child
  pub remote_children : List String
  pub engine : RestartEngine
  pub restart_counts : Dict String ℕ
  pub child_tasks : Dict String ℕ
  pub pending_crash_events : Dict ℕ Event
  pub has_parent : Bool
  pub has_bus : Bool
  pub crash_callbacks : ℕ
  pub log : List Act

-- child._engine.reset(); child._restart_counts.clear()
unfoldable pub fresh_budget : Child → Child
unfolding reset
fresh_budget c = record c {
  engine = reset c.engine;
  restart_counts = [];
  incarnation = suc c.incarnation;
}

-- _fresh_incarnation and the transfer of the mailbox; `none` if the transfer waits for ever.
abbrev pub with_mailbox : Child → Option Mailbox → Option Child
with_mailbox c none = none
with_mailbox c (some box) = some (record c {
  status = initializing;
  incarnation = suc c.incarnation;
  marked = false;
  mailbox = box;
})

unfoldable pub fresh_incarnation : Child → Option Child
unfolding transfer_mailbox
fresh_incarnation c =
    with_mailbox c
      (transfer_mailbox c.mailbox (empty_mailbox c.mailbox.maxsize c.mailbox.priority_maxsize)).0

abbrev pub launch_fresh : Env → Child → Option Child → Bool × Child
launch_fresh env c none = (false, c)
launch_fresh env c (some fresh) = env.launch fresh

-- The restart of one child that has been stopped.
abbrev pub revive_as : Env → Kind → Child → Bool × Child
revive_as env supervisor_child c = env.launch (fresh_budget c)
revive_as env agent_child c = launch_fresh env c (fresh_incarnation c)

unfoldable pub revive : Env → Child → Bool × Child
unfolding fresh_budget fresh_incarnation
revive env c = revive_as env c.kind c

-- Stopped unless it is an agent that is stopped, stopping or crashed.
abbrev is_down : ProcessStatus → Bool
is_down stopped = true
is_down stopping = true
is_down crashed = true
is_down _ = false

abbrev pub ensure_halted_as : Env → Kind → Child → Child
ensure_halted_as env supervisor_child c = env.halt c
ensure_halted_as env agent_child c = if is_down c.status then c else env.halt c

unfoldable pub ensure_halted : Env → Child → Child
ensure_halted env c = ensure_halted_as env c.kind c

unfoldable pub halt_each : Env → Dict String Child → Dict String Child
unfolding ensure_halted
halt_each env [] = []
halt_each env ((k, c) ∷ cs) = (k, ensure_halted env c) ∷ halt_each env cs

-- self._child_tasks[agent.name] = agent._task, for agents
abbrev pub track : Child → Dict String ℕ → Dict String ℕ
track c tasks = elim c.kind [
  | supervisor_child ↦ tasks
  | agent_child ↦ insert c.name c.incarnation tasks
]

-- A child that did not start has no new task.
unfoldable pub put_child : String → Bool × Child → Supervisor → Supervisor
unfolding insert
put_child k (true, c) s = record s {
  children = insert k c s.children;
  child_tasks = track c s.child_tasks;
}
put_child k (false, c) s = record s { children = insert k c s.children }

-- Restart the children in order; a failure ends the restart.
unfoldable pub restart_each : Env → Dict String Child → Supervisor → Bool × Supervisor
unfolding revive put_child
restart_each env [] s = (true, s)
restart_each env ((k, c) ∷ cs) s =
    let after = put_child k (revive env c) s in
    let rest = restart_each env cs after in if (revive env c).0 then rest else (false, after)

-- The children from the one with this name on.
unfoldable pub rest_from : String → Dict String Child → Dict String Child
rest_from name [] = []
rest_from name ((k, c) ∷ cs) =
    let rest = rest_from name cs in if k == name then (k, c) ∷ cs else rest

unfoldable pub restart_remote_child : String → Supervisor → Bool × Supervisor
restart_remote_child name s =
    if s.has_bus then (true, record s { log = routed_restart name ∷ s.log }) else (true, s)

-- A child supervisor is stopped first; the task of a crashed agent is done.
abbrev pub halt_supervisor : Env → Kind → Child → Child
halt_supervisor env supervisor_child c = env.halt c
halt_supervisor env agent_child c = c

abbrev pub restart_found : Env → String → Option Child → Supervisor → Bool × Supervisor
restart_found env name none s = (true, s)
restart_found env name (some c) s = restart_each env ((name, halt_supervisor env c.kind c) ∷ []) s

unfoldable pub restart_child : Env → String → Supervisor → Bool × Supervisor
unfolding lookup restart_each restart_remote_child
restart_child env name s =
    if contains name s.remote_children
    then restart_remote_child name s
    else restart_found env name (lookup name s.children) s

unfoldable pub restart_all_children : Env → Supervisor → Bool × Supervisor
unfolding halt_each restart_each
restart_all_children env s =
    restart_each env (halt_each env s.children) (record s { children = halt_each env s.children })

-- The table after the children of a list have been stopped.
unfoldable pub put_all_children : Dict String Child → Dict String Child → Dict String Child
unfolding insert
put_all_children [] table = table
put_all_children ((k, c) ∷ cs) table = put_all_children cs (insert k c table)

unfoldable pub restart_rest_for_one : Env → String → Supervisor → Bool × Supervisor
unfolding rest_from halt_each restart_each put_all_children
restart_rest_for_one env name s =
    let halted = halt_each env (rest_from name s.children) in
    restart_each env halted (record s { children = put_all_children halted s.children })

abbrev pub apply_strategy : RestartStrategy → Env → String → Supervisor → Bool × Supervisor
apply_strategy one_for_one env name s = restart_child env name s
apply_strategy one_for_all env name s = restart_all_children env s
apply_strategy rest_for_one env name s = restart_rest_for_one env name s
