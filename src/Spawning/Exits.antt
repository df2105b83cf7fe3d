-- ===== src/Spawning/Exits.antt =====
-- DynamicSupervisor of civitas/supervisor.py: how a child is announced, ends, and is restarted.
-- A handler that awaits is cut there: its first part and what follows the await are definitions of
-- their own, which Spawning/Steps lets interleave with every other handler. The handler itself puts the
-- parts together, and so is its run when nothing else happens at its awaits. What follows an await
-- holds the record that the handler read at its start, whatever the table then has under the name.
use python_civitas.Base.{
  ℕ, suc, Bool, true, false, not, ◌&&◌, Option, none, some, [], ◌∷◌, String, ◌==◌, string_eq,
  nat_eq, if◌then◌else◌,
}
use python_civitas.Base.Dict.{lookup, insert, erase}
use python_civitas.Engine.{
  RestartEngine, RestartVerdict, Action, restart, exhausted, record_crash, exempt_verdict,
}
use python_civitas.Mailbox.{Mailbox, transfer_mailbox}
use python_civitas.Agent.{ProcessStatus}
use python_civitas.Registry.{LocalRegistry, deregister}
use python_civitas.Spawning.{
  RestartMode, permanent, transient, never, ChildAgent, ChildRec, Env, Reply, ok, spawned, error,
  no_dynamic_agent, start_failed, Outcome, restarts_exhausted, clean_exit, failed_in, torn_down,
  announced_child, withdrawn, cleared_marker, told, set_up, replied, DynamicSupervisor, emit,
  is_distributed, is_ready, count_in,
}

-- A change to the record with this epoch, if it is still in the table.
unfoldable pub update_rec :
    String → ℕ → (ChildRec → ChildRec) → DynamicSupervisor → DynamicSupervisor
unfolding lookup insert
update_rec name epoch change s = elim (lookup name s.dynamic_children) [
  | none ↦ s
  | some rec ↦
      if rec.epoch == epoch
      then record s { dynamic_children = insert name (change rec) s.dynamic_children }
      else s
]

unfoldable pub remove_child : String → DynamicSupervisor → DynamicSupervisor
unfolding erase
remove_child name s = record s {
  dynamic_children = erase name s.dynamic_children;
  child_tasks = erase name s.child_tasks;
}

abbrev pub release_name : String → Option LocalRegistry → Option LocalRegistry
release_name name none = none
release_name name (some r) = some (deregister name r)

-- self._registry.deregister(name), where there is a registry
abbrev pub deregister_child : String → DynamicSupervisor → DynamicSupervisor
deregister_child name s = record s { registry = release_name name s.registry }

unfoldable pub announce_child : String → ℕ → DynamicSupervisor → DynamicSupervisor
announce_child name epoch s = if s.has_bus then emit (announced_child name epoch) s else s

unfoldable pub announce_deregister : String → ℕ → DynamicSupervisor → DynamicSupervisor
announce_deregister name epoch s = if s.has_bus then emit (withdrawn name epoch) s else s

unfoldable pub maybe_announce_deregister :
    String → Option ChildRec → DynamicSupervisor → DynamicSupervisor
unfolding is_distributed announce_deregister
maybe_announce_deregister name none s = s
maybe_announce_deregister name (some rec) s =
    if rec.announced && is_distributed s then announce_deregister name rec.epoch s else s

-- The marker is cleared in the state of a child that is about to leave the table.
unfoldable pub clear_child_marker : String → DynamicSupervisor → DynamicSupervisor
unfolding lookup
clear_child_marker name s = elim (lookup name s.dynamic_children) [
  | none ↦ s
  | some rec ↦ if rec.agent.marked then emit (cleared_marker name) s else s
]

abbrev pub told_to : Option String → Bool → String → Outcome → DynamicSupervisor → DynamicSupervisor
told_to none has_bus name reason s = s
told_to (some spawner) has_bus name reason s =
    if not (spawner == "") && has_bus then emit (told spawner name reason) s else s

unfoldable pub notify_spawner : String → Outcome → DynamicSupervisor → DynamicSupervisor
unfolding lookup
notify_spawner name reason s = told_to (lookup name s.spawner_names) s.has_bus name reason s

-- _terminal_cleanup up to the teardown on the bus, and what follows it.
abbrev pub cleanup_before : String → DynamicSupervisor → DynamicSupervisor
cleanup_before name s =
    let left = deregister_child name s in if s.has_bus then emit (torn_down name) left else left

abbrev pub cleanup_after : String → Option ChildRec → DynamicSupervisor → DynamicSupervisor
cleanup_after name held s = maybe_announce_deregister name held (remove_child name s)

unfoldable pub terminal_cleanup : String → DynamicSupervisor → DynamicSupervisor
unfolding lookup remove_child maybe_announce_deregister
terminal_cleanup name s =
    cleanup_after name (lookup name s.dynamic_children) (cleanup_before name s)

-- The end of _handle_despawn after the marker is cleared, and of _handle_stop after the wait.
abbrev pub take_out : String → ChildRec → DynamicSupervisor → DynamicSupervisor
take_out name rec s =
    maybe_announce_deregister name (some rec) (deregister_child name (remove_child name s))

unfoldable pub handle_despawn : String → DynamicSupervisor → Reply × DynamicSupervisor
unfolding lookup clear_child_marker remove_child maybe_announce_deregister
handle_despawn name s = elim (lookup name s.dynamic_children) [
  | none ↦ (error no_dynamic_agent, s)
  | some rec ↦ (ok, take_out name rec (clear_child_marker name s))
]

-- Whether the child stops by itself or by a cancel after the timeout, the table is treated alike.
unfoldable pub handle_stop : String → DynamicSupervisor → Reply × DynamicSupervisor
unfolding lookup remove_child maybe_announce_deregister
handle_stop name s = elim (lookup name s.dynamic_children) [
  | none ↦ (error no_dynamic_agent, s)
  | some rec ↦ (ok, take_out name rec s)
]

-- _announce_after_start up to the publication. `seen` is the status of the agent that was spawned;
-- the result has the epoch of the record that is noted next.
abbrev pub announce_found :
    String → ℕ → Option ChildRec → DynamicSupervisor → Option ℕ × DynamicSupervisor
announce_found name epoch none s = (none, s)
announce_found name epoch (some rec) s = (some rec.epoch, announce_child name epoch s)

unfoldable pub begin_announce :
    ProcessStatus → String → ℕ → DynamicSupervisor → Option ℕ × DynamicSupervisor
unfolding lookup
begin_announce seen name epoch s =
    if is_ready seen
    then announce_found name epoch (lookup name s.dynamic_children) s
    else (none, s)

-- rec.announced = True
unfoldable pub mark_announced : String → Option ℕ → DynamicSupervisor → DynamicSupervisor
unfolding update_rec
mark_announced name none s = s
mark_announced name (some epoch) s =
    update_rec name epoch (λ rec. record rec { announced = true }) s

unfoldable pub announce_after_start :
    ProcessStatus → String → ℕ → DynamicSupervisor → DynamicSupervisor
unfolding begin_announce mark_announced
announce_after_start seen name epoch s =
    let begun = begin_announce seen name epoch s in mark_announced name begun.0 begun.1

abbrev pub route_reply : Reply → DynamicSupervisor → DynamicSupervisor
route_reply reply s = if s.has_bus then emit (replied reply) s else s

-- The child of a spawn with wait=True is up.
abbrev pub acknowledge : String → ℕ → DynamicSupervisor → DynamicSupervisor
acknowledge name epoch s =
    let acked = update_rec name epoch (λ rec. record rec { acknowledged = true }) s in
    if is_distributed s
    then mark_announced name (some epoch) (announce_child name epoch acked)
    else acked

-- The continuation of a spawn with wait=True.
unfoldable pub await_spawn_readiness_and_reply :
    ProcessStatus → String → String → ℕ → DynamicSupervisor → DynamicSupervisor
unfolding terminal_cleanup
await_spawn_readiness_and_reply seen phase name epoch s =
    if is_ready seen
    then route_reply (spawned true seen) (acknowledge name epoch s)
    else route_reply (error (start_failed phase)) (terminal_cleanup name s)

abbrev pub engine_of : Option RestartEngine → DynamicSupervisor → RestartEngine
engine_of (some e) s = e
engine_of none s = record {
  max_restarts = s.ds_max_restarts;
  restart_window = s.ds_restart_window;
  backoff = none;
  backoff_base = 1;
  backoff_max = 60;
  window = [];
}

-- The end of a child that is not restarted, after its marker is cleared, and as a whole.
abbrev pub let_go_after : String → ChildRec → Outcome → DynamicSupervisor → DynamicSupervisor
let_go_after name rec reason s =
    notify_spawner name reason (maybe_announce_deregister name (some rec) (remove_child name s))

unfoldable pub let_go : String → ChildRec → Outcome → DynamicSupervisor → DynamicSupervisor
unfolding clear_child_marker remove_child maybe_announce_deregister notify_spawner
let_go name rec reason s = let_go_after name rec reason (clear_child_marker name s)

-- The crash is counted, and ruled on by the child's engine.
unfoldable pub rule_on_exit :
    String → ChildRec → ℕ → DynamicSupervisor → RestartVerdict × DynamicSupervisor
unfolding lookup insert record_crash exempt_verdict
rule_on_exit name rec now s =
    let engine = engine_of (lookup name s.child_engines) s in
    let ruled =
      if rec.agent.marked then (engine, exempt_verdict engine) else record_crash engine now 0 in
    (
      ruled.1,
      record s {
        child_restart_counts =
            insert name (suc (count_in (lookup name s.child_restart_counts)))
              s.child_restart_counts;
        child_engines = insert name ruled.0 s.child_engines;
      },
    )

-- The fresh incarnation after its start: the record that the handler holds has it, where that record is
-- still in the table. A start that raises leaves it there, and the new task in no table.
unfoldable pub put_fresh : String → ℕ → Bool × ChildAgent → DynamicSupervisor → DynamicSupervisor
unfolding update_rec
put_fresh name epoch (true, fresh) s =
    update_rec name epoch (λ rec. record rec { agent = fresh; task = s.tasks_made })
      (record s {
        tasks_made = suc s.tasks_made;
        child_tasks = insert name s.tasks_made s.child_tasks;
        watched = s.tasks_made ∷ s.watched;
      })
put_fresh name epoch (false, fresh) s =
    update_rec name epoch (λ rec. record rec { agent = fresh })
      (record s { tasks_made = suc s.tasks_made })

-- The restart. A mailbox that takes the messages for ever leaves the handler waiting.
abbrev pub transferred :
    Env → String → ChildRec → ChildAgent → Option Mailbox → DynamicSupervisor → DynamicSupervisor
transferred env name rec fresh none s = s
transferred env name rec fresh (some box) s =
    put_fresh name rec.epoch (env.launch (record fresh { mailbox = box })) s

abbrev pub restart_with :
    Env → String → ChildRec → Option ChildAgent → DynamicSupervisor → DynamicSupervisor
restart_with env name rec none s =
    notify_spawner name restarts_exhausted (terminal_cleanup name (clear_child_marker name s))
restart_with env name rec (some fresh) s =
    transferred env name rec fresh (transfer_mailbox rec.agent.mailbox fresh.mailbox).0
      (if s.has_bus then emit (set_up name) s else s)

unfoldable pub restart_child : Env → String → ChildRec → DynamicSupervisor → DynamicSupervisor
restart_child env name rec s = restart_with env name rec (env.renew rec.agent) s

abbrev pub act_on_verdict : Env → String → ChildRec → Action → DynamicSupervisor → DynamicSupervisor
act_on_verdict env name rec exhausted s = let_go name rec restarts_exhausted s
act_on_verdict env name rec restart s = restart_child env name rec s

abbrev pub act_on : Env → String → ChildRec → RestartVerdict × DynamicSupervisor → DynamicSupervisor
act_on env name rec ruled = act_on_verdict env name rec ruled.0.action ruled.1

abbrev pub exit_by_mode :
    Env → RestartMode → String → ChildRec → Bool → ℕ → DynamicSupervisor → DynamicSupervisor
exit_by_mode env never name rec is_crash now s =
    let_go name rec (if is_crash then restarts_exhausted else clean_exit) s
exit_by_mode env transient name rec false now s = let_go name rec clean_exit s
exit_by_mode env transient name rec true now s = act_on env name rec (rule_on_exit name rec now s)
exit_by_mode env permanent name rec is_crash now s =
    act_on env name rec (rule_on_exit name rec now s)

abbrev pub exit_before_loop : String → ChildRec → DynamicSupervisor → DynamicSupervisor
exit_before_loop name rec s =
    let gone = terminal_cleanup name s in
    if rec.acknowledged then notify_spawner name (failed_in rec.agent.start_phase) gone else gone

abbrev pub exit_found :
    Env → ℕ → String → Bool → Option ChildRec → DynamicSupervisor → DynamicSupervisor
exit_found env now name is_crash none s = s
exit_found env now name is_crash (some rec) s =
    if is_crash && not rec.agent.reached_loop
    then exit_before_loop name rec s
    else exit_by_mode env s.restart_mode name rec is_crash now s

unfoldable pub handle_child_exit : Env → ℕ → String → Bool → DynamicSupervisor → DynamicSupervisor
unfolding lookup
handle_child_exit env now name is_crash s =
    exit_found env now name is_crash (lookup name s.dynamic_children) s

-- The handler up to its first await, in each of its branches.
abbrev pub begin_verdict :
    Action → String → Option ChildAgent → DynamicSupervisor → DynamicSupervisor
begin_verdict exhausted name renewed s = clear_child_marker name s
begin_verdict restart name none s = clear_child_marker name s
begin_verdict restart name (some fresh) s = if s.has_bus then emit (set_up name) s else s

abbrev pub begin_restart :
    Env → String → ChildRec → RestartVerdict × DynamicSupervisor → DynamicSupervisor
begin_restart env name rec ruled = begin_verdict ruled.0.action name (env.renew rec.agent) ruled.1

abbrev pub begin_by_mode :
    Env → RestartMode → String → ChildRec → Bool → ℕ → DynamicSupervisor → DynamicSupervisor
begin_by_mode env never name rec is_crash now s = clear_child_marker name s
begin_by_mode env transient name rec false now s = clear_child_marker name s
begin_by_mode env transient name rec true now s =
    begin_restart env name rec (rule_on_exit name rec now s)
begin_by_mode env permanent name rec is_crash now s =
    begin_restart env name rec (rule_on_exit name rec now s)

abbrev pub begin_found :
    Env → ℕ → String → Bool → Option ChildRec → DynamicSupervisor → DynamicSupervisor
begin_found env now name is_crash none s = s
begin_found env now name is_crash (some rec) s =
    if is_crash && not rec.agent.reached_loop
    then cleanup_before name s
    else begin_by_mode env s.restart_mode name rec is_crash now s

unfoldable pub begin_child_exit : Env → ℕ → String → Bool → DynamicSupervisor → DynamicSupervisor
unfolding lookup rule_on_exit clear_child_marker
begin_child_exit env now name is_crash s =
    begin_found env now name is_crash (lookup name s.dynamic_children) s
