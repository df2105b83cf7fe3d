-- ===== src/Spawning/Handlers.antt =====
-- Each handler of DynamicSupervisor of civitas/supervisor.py makes a move of its table.
use python_civitas.Base.{◌≡◌, refl, Option, none, some, arith, nat_eq, string_eq, ◌⊎◌, inl, inr}
use python_civitas.Base.Dict.{lookup}
use python_civitas.Registry.{LocalRegistry, Result, done, value_error}
use python_civitas.Spawning.Steps.{
  Op, spawn, despawn, stop_child, publish, note_published, become_ready, child_exit, child_runs,
  exit_begins, cleanup_begins, marker_clears, exit_ends, cleanup_ends, removal_ends, restart_ends,
  spawner_told, step,
}
use python_civitas.Spawning.{
  ChildAgent, ChildRec, Env, DynamicSupervisor, SpawnRequest, refusal, Reason, spawner_not_allowed,
  set_up_child, start_child, spawn_class, spawn_approved, spawn_unless, spawn_unless_live,
  handle_spawn, is_distributed, clean_exit,
}
use python_civitas.Spawning.Exits.{handle_child_exit, begin_child_exit}
use python_civitas.Spawning.Moves.{
  Move, keeps, admits, unchanged, handle_despawn-Move, handle_stop-Move, update_rec-Move,
  begin_announce-Move, mark_announced-Move,
}
use python_civitas.Spawning.Endings.{
  exit_found-Move, become_ready-Move, begin_found-Move, marker-Move, after_await-Move,
  cleanup_after-Move, told-Move, put_fresh-Move,
}

start_child-Move :
    (q : SpawnRequest) (agent : ChildAgent) (claim : Result × Option LocalRegistry)
    (s : DynamicSupervisor)
    → lookup q.name s.dynamic_children ≡ none
    → refusal q s ≡ none
    → Move (some q) s (start_child q agent claim s).1
unfolding is_distributed
start_child-Move q agent (value_error, r) s fresh admitted = keeps refl refl
start_child-Move q agent (done, r) s fresh admitted =
    admits q agent (set_up_child q (record s { registry = r })) refl fresh admitted (ground arith)
      (ground arith) refl

spawn_approved-Move :
    (env : Env) (q : SpawnRequest) (agent : ChildAgent) (answer : Option Reason)
    (s : DynamicSupervisor)
    → lookup q.name s.dynamic_children ≡ none
    → refusal q s ≡ none
    → Move (some q) s (spawn_approved env q agent answer s).1
spawn_approved-Move env q agent (some spawner_not_allowed) s fresh admitted = unchanged (some q) s
spawn_approved-Move env q agent (some _) s fresh admitted = keeps refl refl
spawn_approved-Move env q agent none s fresh admitted = start_child-Move q agent _ s fresh admitted

spawn_class-Move :
    (env : Env) (q : SpawnRequest) (resolved : Reason ⊎ ChildAgent) (s : DynamicSupervisor)
    → lookup q.name s.dynamic_children ≡ none
    → refusal q s ≡ none
    → Move (some q) s (spawn_class env q resolved s).1
spawn_class-Move env q (inl reason) s fresh admitted = unchanged (some q) s
spawn_class-Move env q (inr agent) s fresh admitted =
    spawn_approved-Move env q agent _ s fresh admitted

spawn_unless-Move :
    (env : Env) (q : SpawnRequest) (refused : Option Reason) (s : DynamicSupervisor)
    → lookup q.name s.dynamic_children ≡ none
    → refusal q s ≡ refused
    → Move (some q) s (spawn_unless env q refused s).1
spawn_unless-Move env q (some reason) s fresh h = unchanged (some q) s
spawn_unless-Move env q none s fresh h = spawn_class-Move env q _ s fresh h

spawn_unless_live-Move :
    (env : Env) (q : SpawnRequest) (found : Option ChildRec) (s : DynamicSupervisor)
    → lookup q.name s.dynamic_children ≡ found
    → Move (some q) s (spawn_unless_live env q found s).1
spawn_unless_live-Move env q (some rec) s h = unchanged (some q) s
spawn_unless_live-Move env q none s h = spawn_unless-Move env q _ s h refl

-- The request that a step serves.
abbrev pub request_of : Op → Option SpawnRequest
request_of (spawn env q) = some q
request_of _ = none

pub step-Move : (op : Op) (s : DynamicSupervisor) → Move (request_of op) s (step op s)
unfolding step handle_spawn handle_child_exit begin_child_exit
step-Move (spawn env q) s = spawn_unless_live-Move env q _ s refl
step-Move (despawn name) s = handle_despawn-Move name s
step-Move (stop_child name) s = handle_stop-Move name s
step-Move (publish seen name epoch) s = begin_announce-Move seen name epoch s
step-Move (note_published name epoch) s = mark_announced-Move name epoch s
step-Move (become_ready seen phase name epoch) s = become_ready-Move seen phase name epoch s
step-Move (child_exit env now name is_crash) s = exit_found-Move env now name is_crash _ s refl
step-Move (exit_begins env now name is_crash) s = begin_found-Move env now name is_crash _ s
step-Move (cleanup_begins name) s = keeps (ground arith) (ground arith)
step-Move (marker_clears name) s = marker-Move name s
step-Move (exit_ends name rec reason) s = (after_await-Move name rec reason s).0
step-Move (cleanup_ends name held) s = cleanup_after-Move name held s
step-Move (removal_ends name rec) s = (after_await-Move name rec clean_exit s).1
step-Move (restart_ends name epoch answer) s = put_fresh-Move name epoch answer s
step-Move (spawner_told name reason) s = told-Move name reason s
step-Move (child_runs name epoch agent) s = update_rec-Move name epoch _ s s (λ rec. refl) refl refl
