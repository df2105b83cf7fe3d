-- ===== src/Supervisor/Tasks.antt =====
-- The tasks that a restart in civitas/supervisor.py gives to the children.
use python_civitas.Base.{
  suc, ◌≡◌, refl, ◌≢◌, Bool, true, false, Option, none, some, [], ◌∷◌, String, string_eq, nat_eq,
  arith, eq_iff, All,
}
use python_civitas.Base.Dict.{Dict, lookup, lookup-insert}
use python_civitas.Mailbox.{Mailbox, empty_mailbox, transfer_mailbox}
use python_civitas.Agent.{initializing}
use python_civitas.Supervisor.{
  launch_fresh, with_mailbox, revive_as, Supervisor, Child, Env, Kind, agent_child,
  supervisor_child, revive, fresh_incarnation, fresh_budget, ensure_halted, put_child, restart_each,
}
use python_civitas.Supervisor.Scope.{IsDistinct, Succeeds}

-- A stop and a start leave a child its name, its kind and its incarnation.
pub record KeepsIdentity (env : Env) : Type 0 where
  pub launched_name : (c : Child) → (env.launch c).1.name ≡ c.name
  pub launched_kind : (c : Child) → (env.launch c).1.kind ≡ c.kind
  pub launched_incarnation : (c : Child) → (env.launch c).1.incarnation ≡ c.incarnation
  pub halted_name : (c : Child) → (env.halt c).name ≡ c.name
  pub halted_kind : (c : Child) → (env.halt c).kind ≡ c.kind
  pub halted_incarnation : (c : Child) → (env.halt c).incarnation ≡ c.incarnation

abbrev pub IsNamed : Dict String Child → Type 0
IsNamed = All (λ entry. entry.1.name ≡ entry.0)

-- A restarted child is the same one with the next incarnation.
abbrev IsNext : Child → Child → Type 0
IsNext c d = (d.name ≡ c.name) × (d.kind ≡ c.kind) × (d.incarnation ≡ suc c.incarnation)

fresh-IsNext :
    (env : Env) (c : Child) (o : Option Mailbox)
    → KeepsIdentity env
    → (launch_fresh env c (with_mailbox c o)).0 ≡ true
    → IsNext c (launch_fresh env c (with_mailbox c o)).1
fresh-IsNext env c none h ok = ground arith
fresh-IsNext env c (some box) h ok =
    let fresh = record c {
      status = initializing;
      incarnation = suc c.incarnation;
      marked = false;
      mailbox = box;
    } in
    (h.launched_name fresh, h.launched_kind fresh, h.launched_incarnation fresh)

revived_as :
    (env : Env) (k : Kind) (c : Child)
    → KeepsIdentity env
    → (revive_as env k c).0 ≡ true
    → IsNext c (revive_as env k c).1
unfolding fresh_incarnation fresh_budget
revived_as env supervisor_child c h ok = (
  h.launched_name (fresh_budget c),
  h.launched_kind (fresh_budget c),
  h.launched_incarnation (fresh_budget c),
)
revived_as env agent_child c h ok =
    fresh-IsNext env c
      (transfer_mailbox c.mailbox (empty_mailbox c.mailbox.maxsize c.mailbox.priority_maxsize)).0 h
      ok

revived :
    (env : Env) (c : Child)
    → KeepsIdentity env
    → (revive env c).0 ≡ true
    → IsNext c (revive env c).1
unfolding revive
revived env c h ok = revived_as env c.kind c h ok

pub ensured :
    (env : Env) (c : Child)
    → KeepsIdentity env
    → ((ensure_halted env c).name ≡ c.name)
      × ((ensure_halted env c).kind ≡ c.kind)
      × ((ensure_halted env c).incarnation ≡ c.incarnation)
unfolding ensure_halted
ensured env c h = (
  ground (arith, h.halted_name c),
  ground (arith, h.halted_kind c),
  ground (arith, h.halted_incarnation c),
)

tasks-put_child :
    (j k : String) (r : Bool × Child) (s : Supervisor)
    → r.0 ≡ true
    → r.1.name ≡ k
    → j ≢ k
    → lookup j (put_child k r s).child_tasks ≡ lookup j s.child_tasks
unfolding put_child
tasks-put_child j k (false, c) s ok named other = refl
tasks-put_child j k (true, c) s ok named other =
    ground (arith, lookup-insert c.name j c.incarnation s.child_tasks, eq_iff c.name j)

own_task :
    (k : String) (r : Bool × Child) (s : Supervisor)
    → r.0 ≡ true
    → r.1.name ≡ k
    → r.1.kind ≡ agent_child
    → lookup k (put_child k r s).child_tasks ≡ some r.1.incarnation
unfolding put_child
own_task k (false, c) s ok named agent = ground arith
own_task k (true, c) s ok named agent =
    ground (arith, lookup-insert c.name k c.incarnation s.child_tasks, eq_iff c.name k)

-- What a restart leaves of the side-table and of the supervisor's own state.
pub same_side :
    (env : Env) (cs : Dict String Child) (s : Supervisor)
    → ((restart_each env cs s).1.pending_crash_events ≡ s.pending_crash_events)
      × ((restart_each env cs s).1.running ≡ s.running)
unfolding restart_each put_child
same_side env [] s = (refl, refl)
same_side env ((k, c) ∷ cs) s = ground (arith, same_side env cs (put_child k (revive env c) s))

-- The task of a child that is not restarted, and of an agent that is.
task_kept :
    (env : Env) (j : String) (cs : Dict String Child) (s : Supervisor)
    → KeepsIdentity env
    → Succeeds env (λ c. c) cs
    → IsNamed cs
    → lookup j cs ≡ none
    → lookup j (restart_each env cs s).1.child_tasks ≡ lookup j s.child_tasks
unfolding restart_each lookup
task_kept env j [] s h ok named absent = refl
task_kept env j ((k, c) ∷ cs) s h ok named absent = ground (
  arith,
  ok.0,
  named.0,
  eq_iff k j,
  revived env c h ok.0,
  task_kept env j cs (put_child k (revive env c) s) h ok.1 named.1,
  tasks-put_child j k (revive env c) s,
)

pub task_renewed :
    (env : Env) (j : String) (c : Child) (cs : Dict String Child) (s : Supervisor)
    → KeepsIdentity env
    → Succeeds env (λ d. d) cs
    → IsNamed cs
    → IsDistinct cs
    → lookup j cs ≡ some c
    → c.kind ≡ agent_child
    → lookup j (restart_each env cs s).1.child_tasks ≡ some (suc c.incarnation)
unfolding restart_each lookup
task_renewed env j c [] s h ok named distinct found agent = ground arith
task_renewed env j c ((k, d) ∷ cs) s h ok named distinct found agent = ground (
  arith,
  ok.0,
  named.0,
  distinct.0,
  eq_iff k j,
  revived env d h ok.0,
  task_kept env j cs (put_child k (revive env d) s) h ok.1 named.1,
  own_task k (revive env d) s,
  task_renewed env j c cs (put_child k (revive env d) s) h ok.1 named.1 distinct.1,
)
