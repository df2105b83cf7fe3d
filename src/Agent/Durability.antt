-- ===== src/Agent/Durability.antt =====
-- What suspensions and resumes of civitas/process.py leave to the next incarnation.
use python_civitas.Base.{
  ℕ, ◌≡◌, refl, ◌∙◌, ap, true, false, Option, some, string_eq, if◌then◌else◌, arith,
}
use python_civitas.Base.Dict.{lookup, insert, erase, lookup-insert_self, lookup-erase_self}
use python_civitas.Message.{Value, str, Payload, truthy}
use python_civitas.Agent.{Agent, Hooks, running, suspended, SuspendCategory, set_status}
use python_civitas.Agent.Suspension.{
  suspend_state_key, marker, category_value, enter_suspended, checkpoint, current_category,
  get_field, category_of, no_approver, resume, leave_suspended, is_marked,
}
use python_civitas.Agent.Loop.{reach_loop}

-- User code that leaves the marker in the state alone.
abbrev pub KeepsMarker : (Payload → Payload) → Type 0
KeepsMarker f =
    (state : Payload) → lookup suspend_state_key (f state) ≡ lookup suspend_state_key state

abbrev pub AcceptsAll : Hooks → Type 0
AcceptsAll hooks = (state : Payload) → hooks.accepts state ≡ true

-- The store after entering the suspension.
suspended_store :
    (hooks : Hooks) (now : ℕ) (reason : Value) (a : Agent) (old : Option Payload)
    → a.store ≡ some old
    → AcceptsAll hooks
    → (enter_suspended hooks now reason a).store
      ≡ some (
          some (
            hooks.on_suspend reason
              (insert suspend_state_key (marker reason now a.suspend_category) a.state)))
unfolding enter_suspended checkpoint set_status
suspended_store hooks now reason a old has_store ok = ground (
  arith,
  ok (
      hooks.on_suspend reason
        (insert suspend_state_key (marker reason now a.suspend_category) a.state)),
)

restart_status :
    (on_start : Payload → Payload) (fresh : Agent) (state : Payload)
    → fresh.store ≡ some (some state)
    → KeepsMarker on_start
    → ((reach_loop on_start fresh).status ≡ (if is_marked state then suspended else running))
      × (lookup suspend_state_key (reach_loop on_start fresh).state
          ≡ lookup suspend_state_key state)
unfolding reach_loop set_status
restart_status on_start fresh state stored keeps =
    (ground (arith, keeps state), ground (arith, keeps state))

category-marker :
    (reason : Value) (now : ℕ) (category : SuspendCategory)
    → category_of (some (marker reason now category)) ≡ str (category_value category)
unfolding marker get_field
category-marker reason now category = refl

-- A suspension outlives a crash: with a store that takes the checkpoint, and user hooks that leave the
-- marker alone, the incarnation that restores from it comes up SUSPENDED, with the category under which
-- the agent was suspended. The agent itself is SUSPENDED at once.
pub suspension_survives_restart :
    (hooks : Hooks) (on_start : Payload → Payload) (now : ℕ) (reason : Value) (a fresh : Agent)
    (old : Option Payload)
    → a.store ≡ some old
    → AcceptsAll hooks
    → KeepsMarker (hooks.on_suspend reason)
    → KeepsMarker on_start
    → fresh.store ≡ (enter_suspended hooks now reason a).store
    → ((enter_suspended hooks now reason a).status ≡ suspended)
      × ((reach_loop on_start fresh).status ≡ suspended)
      × (current_category (reach_loop on_start fresh) ≡ str (category_value a.suspend_category))
suspension_survives_restart hooks on_start now reason a fresh old has_store ok keeps starts same =
    let mark = marker reason now a.suspend_category in
    let marked = insert suspend_state_key mark a.state in
    let kept = hooks.on_suspend reason marked in
    let restart =
      restart_status on_start fresh kept
        (same ∙ suspended_store hooks now reason a old has_store ok) starts in
    let found = keeps marked ∙ lookup-insert_self suspend_state_key mark a.state in
    (
      unfold enter_suspended set_status checkpoint in refl,
      ground (arith, restart.0, found),
      unfold current_category in
          (ap category_of (restart.1 ∙ found) ∙ category-marker reason now a.suspend_category),
    )

resumed_store :
    (hooks : Hooks) (approver : Value) (a : Agent) (old : Option Payload)
    → a.store ≡ some old
    → AcceptsAll hooks
    → a.status ≡ suspended
    → truthy approver ≡ true
    → (resume hooks approver a).1.store ≡ some (some (erase suspend_state_key a.state))
unfolding resume leave_suspended checkpoint set_status
resumed_store hooks approver a old has_store ok paused named =
    ground (arith, ok (erase suspend_state_key a.state))

-- With a store that takes the checkpoint and a start hook that leaves the marker alone: `resume`
-- without an approver raises and changes nothing. With one, a suspended agent is RUNNING, and so is
-- every later incarnation that restores from its store.
pub resume_survives_restart :
    (hooks : Hooks) (on_start : Payload → Payload) (approver nobody : Value) (a fresh : Agent)
    (old : Option Payload)
    → a.store ≡ some old
    → AcceptsAll hooks
    → KeepsMarker on_start
    → a.status ≡ suspended
    → truthy approver ≡ true
    → truthy nobody ≡ false
    → fresh.store ≡ (resume hooks approver a).1.store
    → (resume hooks nobody a ≡ (no_approver, a))
      × ((resume hooks approver a).1.status ≡ running)
      × ((reach_loop on_start fresh).status ≡ running)
unfolding resume
resume_survives_restart hooks on_start approver nobody a fresh old has_store ok starts paused named
      empty same =
    let restart =
      restart_status on_start fresh (erase suspend_state_key a.state)
        (same ∙ resumed_store hooks approver a old has_store ok paused named) starts in
    (
      ground arith,
      unfold leave_suspended checkpoint set_status in ground arith,
      ground (arith, restart.0, lookup-erase_self suspend_state_key a.state),
    )
