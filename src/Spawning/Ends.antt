-- ===== src/Spawning/Ends.antt =====
-- What the end of a child of DynamicSupervisor of civitas/supervisor.py leaves: the table, the
-- registry and the watch on its task.
use python_civitas.Base.{
  nat_beq_iff, ℕ, ◌≡◌, refl, ap, ◌∙◌, Bool, true, false, not, ◌&&◌, Option, none, some, String,
  arith, nat_eq, string_eq, if◌then◌else◌,
}
use python_civitas.Base.Dict.{Dict, lookup, insert, lookup-insert_self, lookup-erase_self}
use python_civitas.Engine.{Action, restart, exhausted}
use python_civitas.Mailbox.{Mailbox, transfer_mailbox}
use python_civitas.Spawning.{
  RestartMode, permanent, transient, never, ChildRec, ChildAgent, Env, error, already_registered,
  DynamicSupervisor, SpawnRequest, set_up, emit, is_taken, handle_spawn, refusal, Outcome,
  restarts_exhausted,
}
use python_civitas.Spawning.Exits.{
  handle_child_exit, update_rec, let_go, rule_on_exit, restart_child, restart_with, remove_child,
  clear_child_marker, maybe_announce_deregister, announce_deregister, notify_spawner, act_on,
  act_on_verdict, exit_by_mode, terminal_cleanup, exit_before_loop, transferred, put_fresh,
}

-- What a restart needs: the mode wants it and the engine grants it.
abbrev pub wants_restart : RestartMode → Bool → Bool
wants_restart permanent is_crash = true
wants_restart transient is_crash = is_crash
wants_restart never is_crash = false

abbrev pub is_restart : Action → Bool
is_restart restart = true
is_restart exhausted = false

let_go-table :
    (name : String) (rec : ChildRec) (reason : Outcome) (s : DynamicSupervisor)
    → lookup name (let_go name rec reason s).dynamic_children ≡ none
unfolding let_go remove_child clear_child_marker maybe_announce_deregister announce_deregister
    notify_spawner
let_go-table name rec reason s = ground (arith, lookup-erase_self name s.dynamic_children)

let_go-registry :
    (name : String) (rec : ChildRec) (reason : Outcome) (s : DynamicSupervisor)
    → (let_go name rec reason s).registry ≡ s.registry
unfolding let_go remove_child clear_child_marker maybe_announce_deregister announce_deregister
    notify_spawner
let_go-registry name rec reason s = ground arith

rule_on_exit-registry :
    (name : String) (rec : ChildRec) (now : ℕ) (s : DynamicSupervisor)
    → (rule_on_exit name rec now s).1.registry ≡ s.registry
unfolding rule_on_exit
rule_on_exit-registry name rec now s = refl

abbrev pub is_some {ℓ} : {A : Type ℓ} → Option A → Bool
is_some none = false
is_some (some a) = true

some_if :
    (name : String) (child : ChildRec) (d : Dict String ChildRec)
    → is_some (lookup name (insert name child d)) ≡ true
some_if name child d = ap is_some (lookup-insert_self name child d)

-- The restart itself, on any state that has the child.
module _ (env : Env) (name : String) (rec : ChildRec) where
  transferred-live :
      (fresh : ChildAgent) (box : Option Mailbox) (s : DynamicSupervisor)
      → lookup name s.dynamic_children ≡ some rec
      → is_some (lookup name (transferred env name rec fresh box s).dynamic_children) ≡ true
  unfolding put_fresh update_rec
  transferred-live fresh none s found = ap is_some found
  transferred-live fresh (some box) s found = put (env.launch (record fresh { mailbox = box }))
    where
      put :
          (answer : Bool × ChildAgent)
          → is_some (lookup name (put_fresh name rec.epoch answer s).dynamic_children) ≡ true
      put (true, f) = ground (
        arith,
        found,
        nat_beq_iff rec.epoch rec.epoch,
        some_if name (record rec { agent = f; task = s.tasks_made }) s.dynamic_children,
      )
      put (false, f) = ground (
        arith,
        found,
        nat_beq_iff rec.epoch rec.epoch,
        some_if name (record rec { agent = f }) s.dynamic_children,
      )

  transferred-registry :
      (fresh : ChildAgent) (box : Option Mailbox) (s : DynamicSupervisor)
      → (transferred env name rec fresh box s).registry ≡ s.registry
  unfolding put_fresh update_rec
  transferred-registry fresh none s = refl
  transferred-registry fresh (some box) s = put (env.launch (record fresh { mailbox = box }))
    where
      put : (answer : Bool × ChildAgent) → (put_fresh name rec.epoch answer s).registry ≡ s.registry
      put (true, f) = ground arith
      put (false, f) = ground arith

  set_up-found :
      (s : DynamicSupervisor)
      → lookup name s.dynamic_children ≡ some rec
      → lookup name (if s.has_bus then emit (set_up name) s else s).dynamic_children ≡ some rec
  set_up-found s found = ground (arith, found)

  cleanup-table :
      (s : DynamicSupervisor)
      → is_some (
          lookup name
            (notify_spawner name restarts_exhausted
              (terminal_cleanup name (clear_child_marker name s))).dynamic_children)
        ≡ false
  unfolding terminal_cleanup remove_child clear_child_marker maybe_announce_deregister
      announce_deregister notify_spawner
  cleanup-table s = ground (arith, lookup-erase_self name s.dynamic_children)

  restart-live :
      (renewed : Option ChildAgent) (s : DynamicSupervisor)
      → lookup name s.dynamic_children ≡ some rec
      → is_some (lookup name (restart_with env name rec renewed s).dynamic_children)
        ≡ is_some renewed
  restart-live none s found = cleanup-table s
  restart-live (some fresh) s found = transferred-live fresh _ _ (set_up-found s found)

  restart-registry :
      (renewed : Option ChildAgent) (s : DynamicSupervisor)
      → is_some renewed ≡ true
      → (restart_with env name rec renewed s).registry ≡ s.registry
  restart-registry none s h = ground (arith, h)
  restart-registry (some fresh) s h =
      let wired = if s.has_bus then emit (set_up name) s else s in
      ground (
        arith,
        transferred-registry fresh (transfer_mailbox rec.agent.mailbox fresh.mailbox).0 wired,
      )

  act-live :
      (action : Action) (s : DynamicSupervisor)
      → lookup name s.dynamic_children ≡ some rec
      → is_some (lookup name (act_on_verdict env name rec action s).dynamic_children)
        ≡ (is_restart action && is_some (env.renew rec.agent))
  unfolding restart_child
  act-live exhausted s found = ap is_some (let_go-table name rec restarts_exhausted s)
  act-live restart s found = restart-live (env.renew rec.agent) s found

  act-registry :
      (action : Action) (s : DynamicSupervisor)
      → is_some (env.renew rec.agent) ≡ true
      → (act_on_verdict env name rec action s).registry ≡ s.registry
  unfolding restart_child
  act-registry exhausted s h = let_go-registry name rec restarts_exhausted s
  act-registry restart s h = restart-registry (env.renew rec.agent) s h

  -- The action that the child's engine takes on an exit now.
  abbrev pub action_on : ℕ → DynamicSupervisor → Action
  action_on now s = (rule_on_exit name rec now s).0.action

  ruled-live :
      (now : ℕ) (s : DynamicSupervisor)
      → lookup name s.dynamic_children ≡ some rec
      → is_some (lookup name (act_on env name rec (rule_on_exit name rec now s)).dynamic_children)
        ≡ (is_restart (action_on now s) && is_some (env.renew rec.agent))
  unfolding rule_on_exit
  ruled-live now s found = act-live (action_on now s) (rule_on_exit name rec now s).1 found

  mode-live :
      (mode : RestartMode) (is_crash : Bool) (now : ℕ) (s : DynamicSupervisor)
      → lookup name s.dynamic_children ≡ some rec
      → is_some (lookup name (exit_by_mode env mode name rec is_crash now s).dynamic_children) ≡ (
          wants_restart mode is_crash
          && is_restart (action_on now s)
          && is_some (env.renew rec.agent))
  mode-live never is_crash now s found = ap is_some (let_go-table name rec _ s)
  mode-live transient false now s found = ap is_some (let_go-table name rec _ s)
  mode-live transient true now s found = ruled-live now s found
  mode-live permanent is_crash now s found = ruled-live now s found

  mode-registry :
      (mode : RestartMode) (is_crash : Bool) (now : ℕ) (s : DynamicSupervisor)
      → is_some (env.renew rec.agent) ≡ true
      → (exit_by_mode env mode name rec is_crash now s).registry ≡ s.registry
  mode-registry never is_crash now s h = let_go-registry name rec _ s
  mode-registry transient false now s h = let_go-registry name rec _ s
  mode-registry transient true now s h =
      act-registry (action_on now s) _ h ∙ rule_on_exit-registry name rec now s
  mode-registry permanent is_crash now s h =
      act-registry (action_on now s) _ h ∙ rule_on_exit-registry name rec now s

  early-table :
      (s : DynamicSupervisor)
      → is_some (lookup name (exit_before_loop name rec s).dynamic_children) ≡ false
  unfolding terminal_cleanup remove_child maybe_announce_deregister announce_deregister
      notify_spawner
  early-table s = ground (arith, lookup-erase_self name s.dynamic_children)

  found-live :
      (early : Bool) (mode : RestartMode) (is_crash : Bool) (now : ℕ) (s : DynamicSupervisor)
      → lookup name s.dynamic_children ≡ some rec
      → is_some (
          lookup name
            (if early
              then exit_before_loop name rec s
              else exit_by_mode env mode name rec is_crash now s).dynamic_children)
        ≡ (not early
            && wants_restart mode is_crash
            && is_restart (action_on now s)
            && is_some (env.renew rec.agent))
  found-live true mode is_crash now s found = early-table s
  found-live false mode is_crash now s found = mode-live mode is_crash now s found

-- A child in the table whose task ends, and whose exit is handled with no other handler at its awaits,
-- is in the table afterwards exactly if it did not crash before it reached its loop, its mode restarts this exit (permanent each, transient a crash, never none),
-- its engine grants the restart, and a fresh incarnation can be made.
pub child_exit_keeps :
    (env : Env) (now : ℕ) (name : String) (is_crash : Bool) (rec : ChildRec) (s : DynamicSupervisor)
    → lookup name s.dynamic_children ≡ some rec
    → is_some (lookup name (handle_child_exit env now name is_crash s).dynamic_children) ≡ (
        not (is_crash && not rec.agent.reached_loop)
        && wants_restart s.restart_mode is_crash
        && is_restart (action_on env name rec now s)
        && is_some (env.renew rec.agent))
unfolding handle_child_exit
child_exit_keeps env now name is_crash rec s found = rw found (
    found-live env name rec (is_crash && not rec.agent.reached_loop) s.restart_mode is_crash now s
      found)

exit-registry :
    (env : Env) (now : ℕ) (name : String) (is_crash : Bool) (rec : ChildRec) (s : DynamicSupervisor)
    → lookup name s.dynamic_children ≡ some rec
    → rec.agent.reached_loop ≡ true
    → is_some (env.renew rec.agent) ≡ true
    → (handle_child_exit env now name is_crash s).registry ≡ s.registry
unfolding handle_child_exit
exit-registry env now name is_crash rec s found loop renewable =
    simp (found, loop) (by_crash is_crash)
  where
    by_crash :
        (b : Bool)
        → (if b && not true
            then exit_before_loop name rec s
            else exit_by_mode env s.restart_mode name rec b now s).registry
          ≡ s.registry
    by_crash true = mode-registry env name rec s.restart_mode true now s renewable
    by_crash false = mode-registry env name rec s.restart_mode false now s renewable

refused_taken :
    (env : Env) (q : SpawnRequest) (t : DynamicSupervisor)
    → lookup q.name t.dynamic_children ≡ none
    → is_taken q.name t.registry ≡ true
    → handle_spawn env q t ≡ (some (error already_registered), t)
unfolding handle_spawn refusal
refused_taken env q t left taken = rw (left, taken) refl

-- A child that had reached its loop ends and leaves the table, where a fresh incarnation could have
-- been made and no other handler ran at the awaits of the exit's handler. If its name was in the
-- registry, then each spawn under this name is refused as already registered.
pub ended_name_stays_taken :
    (env later : Env) (now : ℕ) (is_crash : Bool) (rec : ChildRec) (q : SpawnRequest)
    (s : DynamicSupervisor)
    → lookup q.name s.dynamic_children ≡ some rec
    → rec.agent.reached_loop ≡ true
    → is_some (env.renew rec.agent) ≡ true
    → is_taken q.name s.registry ≡ true
    → lookup q.name (handle_child_exit env now q.name is_crash s).dynamic_children ≡ none
    → handle_spawn later q (handle_child_exit env now q.name is_crash s)
      ≡ (some (error already_registered), handle_child_exit env now q.name is_crash s)
ended_name_stays_taken env later now is_crash rec q s found loop renewable taken left =
    refused_taken later q (handle_child_exit env now q.name is_crash s) left (
      ap (is_taken q.name) (exit-registry env now q.name is_crash rec s found loop renewable)
      ∙ taken)
