-- ===== src/Spawning/Steps.antt =====
-- The steps of DynamicSupervisor of civitas/supervisor.py, and its states after any of them.
use python_civitas.Base.{ℕ, Bool, Option, List, [], ◌∷◌, ◌≡◌, String}
use python_civitas.Agent.{ProcessStatus}
use python_civitas.Spawning.{
  ChildAgent, ChildRec, Outcome, Env, DynamicSupervisor, SpawnRequest, handle_spawn,
}
use python_civitas.Spawning.Exits.{
  update_rec, handle_despawn, handle_stop, begin_announce, mark_announced,
  await_spawn_readiness_and_reply, handle_child_exit, begin_child_exit, clear_child_marker,
  put_fresh, notify_spawner, maybe_announce_deregister, remove_child, cleanup_before, cleanup_after,
  take_out, let_go_after,
}

-- The handlers, the continuations they start, and what a child's own task does to it. A handler runs
-- whole, or as its parts between awaits with other steps in between. The parts carry what the handler
-- holds; they may be taken in any order and with anything held, more than the handlers do.
pub data Op : Type 0 where
  spawn : Env → SpawnRequest → Op
  despawn stop_child : String → Op
  publish : ProcessStatus → String → ℕ → Op
  note_published : String → Option ℕ → Op
  become_ready : ProcessStatus → String → String → ℕ → Op
  child_exit : Env → ℕ → String → Bool → Op
  -- the first part of an exit, and of a cleanup
  exit_begins : Env → ℕ → String → Bool → Op
  cleanup_begins : String → Op
  -- the marker of a child that leaves is cleared
  marker_clears : String → Op
  -- what follows the await of an exit, a cleanup, a despawn or a stop, and a restart
  exit_ends : String → ChildRec → Outcome → Op
  cleanup_ends : String → Option ChildRec → Op
  removal_ends : String → ChildRec → Op
  restart_ends : String → ℕ → Bool × ChildAgent → Op
  spawner_told : String → Outcome → Op
  child_runs : String → ℕ → ChildAgent → Op

unfoldable pub step : Op → DynamicSupervisor → DynamicSupervisor
unfolding handle_spawn handle_despawn handle_stop begin_announce mark_announced
    await_spawn_readiness_and_reply handle_child_exit update_rec begin_child_exit clear_child_marker
    put_fresh notify_spawner maybe_announce_deregister remove_child
step (spawn env q) s = (handle_spawn env q s).1
step (despawn name) s = (handle_despawn name s).1
step (stop_child name) s = (handle_stop name s).1
step (publish seen name epoch) s = (begin_announce seen name epoch s).1
step (note_published name epoch) s = mark_announced name epoch s
step (become_ready seen phase name epoch) s =
    await_spawn_readiness_and_reply seen phase name epoch s
step (child_exit env now name is_crash) s = handle_child_exit env now name is_crash s
step (exit_begins env now name is_crash) s = begin_child_exit env now name is_crash s
step (cleanup_begins name) s = cleanup_before name s
step (marker_clears name) s = clear_child_marker name s
step (exit_ends name rec reason) s = let_go_after name rec reason s
step (cleanup_ends name held) s = cleanup_after name held s
step (removal_ends name rec) s = take_out name rec s
step (restart_ends name epoch answer) s = put_fresh name epoch answer s
step (spawner_told name reason) s = notify_spawner name reason s
step (child_runs name epoch agent) s = update_rec name epoch (λ rec. record rec { agent = agent }) s

-- The newest step first.
unfoldable pub after_steps : List Op → DynamicSupervisor → DynamicSupervisor
unfolding step
after_steps [] s = s
after_steps (op ∷ ops) s = step op (after_steps ops s)

-- What __init__ leaves, whatever the limits.
abbrev pub IsNew : DynamicSupervisor → Type 0
IsNew s =
    (s.dynamic_children ≡ [])
    × (s.child_tasks ≡ [])
    × (s.spawner_names ≡ [])
    × (s.child_restart_counts ≡ [])
    × (s.child_engines ≡ [])
    × (s.total_spawns ≡ 0)
    × (s.spawner_total_counts ≡ [])
    × (s.spawn_epoch ≡ 0)
    × (s.log ≡ [])
