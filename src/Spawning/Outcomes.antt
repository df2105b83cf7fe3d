-- ===== src/Spawning/Outcomes.antt =====
-- What DynamicSupervisor of civitas/supervisor.py answers to a retried spawn, and what the end of a
-- child leaves.
use python_civitas.Base.{
  ◌≡◌, sym, ◌∙◌, ◌⊎◌, inl, inr, false, Option, none, some, arith, ◌==◌, nat_eq, string_eq,
}
use python_civitas.Base.Dict.{lookup, lookup-insert_self}
use python_civitas.Agent.{initializing}
use python_civitas.Registry.{LocalRegistry, Result, done, value_error}
use python_civitas.Spawning.{
  ChildRec, ChildAgent, Env, spawned, Reason, DynamicSupervisor, SpawnRequest, handle_spawn,
  new_rec, admit, spawn_unless, spawn_class, spawn_approved, start_child, set_up_child,
  spawner_not_allowed,
}

-- A record that a spawn put into the table.
abbrev IsOfSpawn : SpawnRequest → ChildRec → Type 0
IsOfSpawn q rec = (rec.spawn_id ≡ q.spawn_id) × (rec.agent.status ≡ initializing)

abbrev Puts : SpawnRequest → DynamicSupervisor → Type 0
Puts q t = (rec : ChildRec) → lookup q.name t.dynamic_children ≡ some rec → IsOfSpawn q rec

unfound :
    (q : SpawnRequest) (s : DynamicSupervisor) → lookup q.name s.dynamic_children ≡ none → Puts q s
unfound q s fresh rec k = ground (arith, fresh, k)

from_new :
    (q : SpawnRequest) (agent : ChildAgent) (u : DynamicSupervisor) (rec : ChildRec)
    → some (new_rec q agent u) ≡ some rec
    → IsOfSpawn q rec
from_new q agent u rec e = (ground (arith, e), ground (arith, e))

start_child-Puts :
    (q : SpawnRequest) (agent : ChildAgent) (claim : Result × Option LocalRegistry)
    (s : DynamicSupervisor)
    → lookup q.name s.dynamic_children ≡ none
    → Puts q (start_child q agent claim s).1
unfolding admit
start_child-Puts q agent (value_error, r) s fresh rec k = unfound q s fresh rec k
start_child-Puts q agent (done, r) s fresh rec k =
    let u = set_up_child q (record s { registry = r }) in
    from_new q agent u rec
      (sym (lookup-insert_self q.name (new_rec q agent u) u.dynamic_children) ∙ k)

spawn_approved-Puts :
    (env : Env) (q : SpawnRequest) (agent : ChildAgent) (answer : Option Reason)
    (s : DynamicSupervisor)
    → lookup q.name s.dynamic_children ≡ none
    → Puts q (spawn_approved env q agent answer s).1
spawn_approved-Puts env q agent (some spawner_not_allowed) s fresh = unfound q s fresh
spawn_approved-Puts env q agent (some _) s fresh = unfound q s fresh
spawn_approved-Puts env q agent none s fresh = start_child-Puts q agent _ s fresh

spawn_class-Puts :
    (env : Env) (q : SpawnRequest) (resolved : Reason ⊎ ChildAgent) (s : DynamicSupervisor)
    → lookup q.name s.dynamic_children ≡ none
    → Puts q (spawn_class env q resolved s).1
spawn_class-Puts env q (inl reason) s fresh = unfound q s fresh
spawn_class-Puts env q (inr agent) s fresh = spawn_approved-Puts env q agent _ s fresh

spawn_unless-Puts :
    (env : Env) (q : SpawnRequest) (refused : Option Reason) (s : DynamicSupervisor)
    → lookup q.name s.dynamic_children ≡ none
    → Puts q (spawn_unless env q refused s).1
spawn_unless-Puts env q (some reason) s fresh = unfound q s fresh
spawn_unless-Puts env q none s fresh = spawn_class-Puts env q _ s fresh

handle_spawn-Puts :
    (env : Env) (q : SpawnRequest) (s : DynamicSupervisor)
    → lookup q.name s.dynamic_children ≡ none
    → Puts q (handle_spawn env q s).1
unfolding handle_spawn
handle_spawn-Puts env q s fresh = rw fresh (spawn_unless-Puts env q _ s fresh)

retry_live :
    (env : Env) (q : SpawnRequest) (rec : ChildRec) (t : DynamicSupervisor)
    → (q.spawn_id == "") ≡ false
    → lookup q.name t.dynamic_children ≡ some rec
    → IsOfSpawn q rec
    → handle_spawn env q t ≡ (some (spawned false initializing), t)
unfolding handle_spawn
retry_live env q rec t token found (same, status) =
    rw (found, same, status) (ground (arith, token, string_eq.same_iff q.spawn_id q.spawn_id))

-- A spawn that carries an idempotency token put a child into the table that was not there. The same
-- request delivered again, whatever the environment then is, answers `ok` with the state of the
-- child and changes nothing.
pub spawn_retry_changes_nothing :
    (env later : Env) (q : SpawnRequest) (rec : ChildRec) (s : DynamicSupervisor)
    → (q.spawn_id == "") ≡ false
    → lookup q.name s.dynamic_children ≡ none
    → lookup q.name (handle_spawn env q s).1.dynamic_children ≡ some rec
    → handle_spawn later q (handle_spawn env q s).1
      ≡ (some (spawned false initializing), (handle_spawn env q s).1)
spawn_retry_changes_nothing env later q rec s token fresh found =
    retry_live later q rec (handle_spawn env q s).1 token found
      (handle_spawn-Puts env q s fresh rec found)
