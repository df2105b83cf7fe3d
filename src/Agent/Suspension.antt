-- ===== src/Agent/Suspension.antt =====
-- suspend, resume and the durable marker of civitas/process.py.
use python_civitas.Base.{
  ℕ, Bool, true, false, not, Option, none, some, ◌∷◌, String, ◌==◌, string_eq, if◌then◌else◌,
}
use python_civitas.Base.Dict.{lookup, insert, erase}
use python_civitas.Message.{Value, null, num, str, obj, Fields, done, field, Payload, truthy}
use python_civitas.Agent.{
  Agent, Hooks, running, suspended, is_suspended_status, SuspendCategory, hitl_approval,
  governance_pause, other, set_status, called_suspend, called_resume, audited_suspend,
  audited_resume,
}

-- SuspendCategory's values, and SuspendCategory(value) with its except branch
unfoldable pub category_value : SuspendCategory → String
category_value hitl_approval = "hitl_approval"
category_value governance_pause = "governance_pause"
category_value other = "other"

unfoldable pub parse_category : Value → SuspendCategory
parse_category (str s) =
    if s == "hitl_approval"
    then hitl_approval
    else if s == "governance_pause"
    then governance_pause
    else other
parse_category _ = other

abbrev pub suspend_state_key : String
suspend_state_key = "_civitas.suspended"

-- marker[key] = v and marker.get(key) on the fields of a JSON object
unfoldable pub set_field : String → Value → Fields → Fields
set_field key v done = field key v done
set_field key v (field k w fs) =
    let rest = set_field key v fs in if k == key then field k v fs else field k w rest

unfoldable pub get_field : String → Fields → Option Value
get_field key done = none
get_field key (field k v fs) = let rest = get_field key fs in if k == key then some v else rest

unfoldable pub marker : Value → ℕ → SuspendCategory → Value
unfolding category_value
marker reason now category = obj (
    field "reason" reason (
      field "since" (num now)
        (field "approver" null (field "category" (str (category_value category)) done))))

-- Whether the store took what it was given.
abbrev pub saved_as : Bool → Payload → Option (Option Payload) → Option (Option Payload)
saved_as ok state none = none
saved_as false state (some old) = some old
saved_as true state (some old) = some (some state)

-- checkpoint(), with the exception of a store that refuses contained as its callers do
unfoldable pub checkpoint : Hooks → Agent → Agent
checkpoint hooks a = record a { store = saved_as (hooks.accepts a.state) a.state a.store }

unfoldable pub suspend : Value → SuspendCategory → Agent → Agent
suspend reason category a = record a {
  suspend_requested = true;
  suspend_reason = reason;
  suspend_category = category;
}

unfoldable pub suspend_for_approval : Value → Agent → Agent
unfolding suspend
suspend_for_approval reason a = suspend reason hitl_approval a

-- Whether ValueError was raised, and the agent after the call.
pub data Resumed : Type 0 where
  accepted no_approver : Resumed

-- The rest of `resume` on a suspended agent.
unfoldable pub leave_suspended : Hooks → Value → Agent → Agent
unfolding erase set_status checkpoint
leave_suspended hooks approver a =
    let cleared =
      checkpoint hooks
        (set_status running (record a { state = erase suspend_state_key a.state })) in
    record cleared {
      state = hooks.on_resume approver cleared.state;
      log = audited_resume approver ∷ called_resume approver ∷ cleared.log;
    }

unfoldable pub resume : Hooks → Value → Agent → Resumed × Agent
unfolding truthy leave_suspended
resume hooks approver a =
    if not (truthy approver)
    then (no_approver, a)
    else if is_suspended_status a.status
    then (accepted, leave_suspended hooks approver (record a { suspend_requested = false }))
    else (accepted, record a { suspend_requested = false })

unfoldable pub enter_suspended : Hooks → ℕ → Value → Agent → Agent
unfolding insert set_status checkpoint marker
enter_suspended hooks now reason a =
    let paused = set_status suspended a in
    let marked = insert suspend_state_key (marker reason now a.suspend_category) paused.state in
    let saved = checkpoint hooks (record paused {
      state = hooks.on_suspend reason marked;
      log = called_suspend reason ∷ paused.log;
    }) in
    record saved {
      log = audited_suspend reason a.suspend_category a.suspend_initiated_by ∷ saved.log;
    }

abbrev pub with_category : Option SuspendCategory → Fields → Fields
with_category none fs = fs
with_category (some category) fs = set_field "category" (str (category_value category)) fs

-- What _update_suspend_reason does with the marker it finds.
abbrev pub update_marker : Hooks → Value → Option SuspendCategory → Option Value → Agent → Agent
update_marker hooks reason category (some (obj fs)) a = checkpoint hooks (record a {
  state =
      insert suspend_state_key (obj (with_category category (set_field "reason" reason fs)))
        a.state;
})
update_marker hooks reason category _ a = a

unfoldable pub update_suspend_reason : Hooks → Value → Option SuspendCategory → Agent → Agent
unfolding lookup
update_suspend_reason hooks reason category a =
    update_marker hooks reason category (lookup suspend_state_key a.state) a

-- str(marker.get("category", "other")) where it is a string
abbrev pub category_of : Option Value → Value
category_of (some (obj fs)) = elim (get_field "category" fs) [ none ↦ str "other" | some v ↦ v ]
category_of _ = str "other"

-- the property suspend_category
unfoldable pub current_category : Agent → Value
unfolding lookup get_field
current_category a = category_of (lookup suspend_state_key a.state)

abbrev pub is_marked : Payload → Bool
is_marked state = elim (lookup suspend_state_key state) [ none ↦ false | some v ↦ true ]

unfoldable pub clear_suspend_marker : Hooks → Agent → Agent
unfolding lookup erase checkpoint
clear_suspend_marker hooks a =
    if is_marked a.state
    then checkpoint hooks (record a { state = erase suspend_state_key a.state })
    else a
