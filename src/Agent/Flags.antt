-- ===== src/Agent/Flags.antt =====
-- The suspension flag of the registry against the status of an agent of civitas/process.py.
use python_civitas.Base.{
  ℕ, zero, suc, ◌+◌, ◌-◌, ◌≡◌, refl, Bool, true, false, not, Option, none, some, List, [], ◌∷◌,
  ◌++◌, String, ◌==◌, string_eq, if◌then◌else◌, arith, filter, contains, eq_iff,
}
use python_civitas.Base.Dict.{lookup}
use python_civitas.Message.{Value, null, bool, num, str, arr, obj, Payload, Message}
use python_civitas.Mailbox.Valid.{after_put}
use python_civitas.Registry.{LocalRegistry, set_suspended, is_suspended}
use python_civitas.Agent.{
  Agent, Hooks, Call, CallResult, returns, raises, ProcessStatus, SuspendCategory,
  is_suspended_status, running, suspended, crashed, stopping, stopped, ErrorAction, called_handle,
  called_correction, called_child_terminated, flagged, set_status, retry, skip, escalate, stop,
}
use python_civitas.Agent.Suspension.{
  suspend, resume, leave_suspended, enter_suspended, update_suspend_reason, update_marker,
  checkpoint, suspend_state_key, parse_category,
}
use python_civitas.Agent.Dispatch.{
  maybe_suspend, maybe_status, Dispatched, delivered, propagated, out_of_fuel, after_call, routing,
  act_on, route_reply, attempt, retry_or_give_up, apply_error_action, settle, dispatch_loop,
  dispatch,
}
use python_civitas.Agent.Loop.{
  Control, halts, pings, suspends, resumes, forces_restart, ends_child, is_dispatched, classify,
  answer_heartbeat, pong, turn_after, heartbeat_ack, get_or, take_suspend, take_resume,
  take_force_restart, take_terminated, turn_of, process_as, boundary, fetch, process_fetched, turn,
  leave_loop, reach_loop,
}

-- The registry, where there is one, has the flag exactly while the status is SUSPENDED.
abbrev pub agrees : String → ProcessStatus → Option LocalRegistry → Bool
agrees name status none = true
agrees name status (some r) =
    if is_suspended_status status then is_suspended name r else not (is_suspended name r)

abbrev pub IsSynced : Agent → Type 0
IsSynced a = agrees a.name a.status a.registry ≡ true

contains-append : (name : String) (ns : List String) → contains name (ns ++ name ∷ []) ≡ true
contains-append name [] = ground (arith, eq_iff name name)
contains-append name (n ∷ ns) = ground (arith, contains-append name ns)

contains-filter :
    (name : String) (ns : List String) → contains name (filter (λ n. not (n == name)) ns) ≡ false
contains-filter name [] = refl
contains-filter name (n ∷ ns) = ground (arith, contains-filter name ns)

is_suspended-set_suspended :
    (name : String) (flag : Bool) (r : LocalRegistry)
    → is_suspended name (set_suspended name flag r) ≡ flag
unfolding is_suspended set_suspended
is_suspended-set_suspended name true r = ground (arith, contains-append name r.suspended)
is_suspended-set_suspended name false r = contains-filter name r.suspended

agrees-flagged :
    (name : String) (new : ProcessStatus) (o : Option LocalRegistry)
    → agrees name new (flagged name new o) ≡ true
agrees-flagged name new none = refl
agrees-flagged name new (some r) =
    ground (arith, is_suspended-set_suspended name (is_suspended_status new) r)

pub set_status-IsSynced : (new : ProcessStatus) (a : Agent) → IsSynced (set_status new a)
unfolding set_status
set_status-IsSynced new a = agrees-flagged a.name new a.registry

maybe_suspend-IsSynced :
    (o : Option (Value × SuspendCategory)) (a : Agent) → IsSynced a → IsSynced (maybe_suspend o a)
unfolding suspend
maybe_suspend-IsSynced none a h = h
maybe_suspend-IsSynced (some (reason, category)) a h = h

maybe_status-IsSynced :
    (o : Option ProcessStatus) (a : Agent) → IsSynced a → IsSynced (maybe_status o a)
maybe_status-IsSynced none a h = h
maybe_status-IsSynced (some new) a h = set_status-IsSynced new a

after_call-IsSynced : (c : Call) (a : Agent) → IsSynced a → IsSynced (after_call c a)
unfolding after_call
after_call-IsSynced c a h =
    maybe_status-IsSynced c.outside_status
      (maybe_suspend c.self_suspend (record a { state = c.state }))
      (maybe_suspend-IsSynced c.self_suspend (record a { state = c.state }) h)

routed-IsSynced :
    (o : Option String) (reply m : Message) (a : Agent)
    → IsSynced a
    → IsSynced (routing o reply a).1
routed-IsSynced none reply m a h = h
routed-IsSynced (some exc) reply m a h = h

route_reply-IsSynced :
    (hooks : Hooks) (result : CallResult) (m : Message) (a : Agent)
    → IsSynced a
    → IsSynced (route_reply hooks result m a).1
unfolding route_reply
route_reply-IsSynced hooks (raises exc) m a h = h
route_reply-IsSynced hooks (returns none) m a h = h
route_reply-IsSynced hooks (returns (some reply)) m a h =
    ground (arith, routed-IsSynced (hooks.unroutable reply) reply m a h)

attempt-IsSynced :
    (hooks : Hooks) (m : Message) (a : Agent) → IsSynced a → IsSynced (attempt hooks m a).1
unfolding attempt
attempt-IsSynced hooks m a h =
    let handled =
      after_call (hooks.handle m a.state) (record a { log = called_handle m ∷ a.log }) in
    ground (
      arith,
      after_call-IsSynced (hooks.on_correction m a.state)
          (record a { log = called_correction m ∷ a.log }) h,
      route_reply-IsSynced hooks (hooks.handle m a.state).result m handled (
          after_call-IsSynced (hooks.handle m a.state) (record a { log = called_handle m ∷ a.log })
            h),
    )

retry-IsSynced :
    (exc : String) (m : Message) (a : Agent) (again : Dispatched × Agent)
    → IsSynced a
    → IsSynced again.1
    → IsSynced (retry_or_give_up exc m a again).1
unfolding retry_or_give_up
retry-IsSynced exc m a again h k = ground (arith, set_status-IsSynced crashed a)

acted-IsSynced :
    (o : Option ErrorAction) (exc : String) (m : Message) (a : Agent) (again : Dispatched × Agent)
    → IsSynced a
    → IsSynced again.1
    → IsSynced (act_on o exc m a again).1
unfolding apply_error_action
acted-IsSynced none exc m a again h k = h
acted-IsSynced (some retry) exc m a again h k =
    retry-IsSynced exc (record m { attempt = m.attempt + 1 }) a again h k
acted-IsSynced (some skip) exc m a again h k = h
acted-IsSynced (some escalate) exc m a again h k = set_status-IsSynced crashed a
acted-IsSynced (some stop) exc m a again h k = set_status-IsSynced stopping a

settle-IsSynced :
    (hooks : Hooks) (m : Message) (result : CallResult) (a : Agent) (again : Dispatched × Agent)
    → IsSynced a
    → IsSynced again.1
    → IsSynced (settle hooks m result a again).1
unfolding settle
settle-IsSynced hooks m (returns reply) a again h k = h
settle-IsSynced hooks m (raises exc) a again h k =
    acted-IsSynced (hooks.on_error exc m a.state) exc
      (record m { attempt = hooks.attempt_left m a.state }) a again h k

dispatch_loop-IsSynced :
    (hooks : Hooks) (fuel : ℕ) (m : Message) (a : Agent)
    → IsSynced a
    → IsSynced (dispatch_loop hooks fuel m a).1
unfolding dispatch_loop
dispatch_loop-IsSynced hooks zero m a h = h
dispatch_loop-IsSynced hooks (suc fuel) m a h =
    let one = attempt-IsSynced hooks m a h in
    let after = (attempt hooks m a).1 in
    let next = record m { attempt = hooks.attempt_left m after.state + 1 } in
    settle-IsSynced hooks m (attempt hooks m a).0 after (dispatch_loop hooks fuel next after) one
      (dispatch_loop-IsSynced hooks fuel next after one)

update_marker-IsSynced :
    (hooks : Hooks) (reason : Value) (category : Option SuspendCategory) (o : Option Value)
    (a : Agent)
    → IsSynced a
    → IsSynced (update_marker hooks reason category o a)
unfolding checkpoint
update_marker-IsSynced hooks reason category none a h = h
update_marker-IsSynced hooks reason category (some null) a h = h
update_marker-IsSynced hooks reason category (some (bool b)) a h = h
update_marker-IsSynced hooks reason category (some (num n)) a h = h
update_marker-IsSynced hooks reason category (some (str s)) a h = h
update_marker-IsSynced hooks reason category (some (arr vs)) a h = h
update_marker-IsSynced hooks reason category (some (obj fs)) a h = h

resume-IsSynced :
    (hooks : Hooks) (approver : Value) (a : Agent)
    → IsSynced a
    → IsSynced (resume hooks approver a).1
unfolding resume leave_suspended checkpoint
resume-IsSynced hooks approver a h = ground (arith, agrees-flagged a.name running a.registry)

terminated-IsSynced :
    (result : CallResult) (a : Agent) → IsSynced a → IsSynced (turn_after result a).1
terminated-IsSynced (returns reply) a h = h
terminated-IsSynced (raises exc) a h = h

ping-IsSynced : (o : Option String) (m : Message) (a : Agent) → IsSynced a → IsSynced (pong o m a).1
ping-IsSynced none m a h = h
ping-IsSynced (some exc) m a h = h

turn_of-IsSynced : (r : Dispatched × Agent) → IsSynced r.1 → IsSynced (turn_of r).1
turn_of-IsSynced (delivered, a) h = h
turn_of-IsSynced (propagated exc, a) h = h
turn_of-IsSynced (out_of_fuel, a) h = h

process_as-IsSynced :
    (c : Control) (hooks : Hooks) (m : Message) (a : Agent)
    → IsSynced a
    → IsSynced (process_as c hooks m a).1
unfolding process_as answer_heartbeat take_suspend take_resume take_force_restart take_terminated
    suspend update_suspend_reason dispatch
process_as-IsSynced halts hooks m a h = h
process_as-IsSynced pings hooks m a h =
    ground (arith, ping-IsSynced (hooks.unroutable (heartbeat_ack m a)) m a h)
process_as-IsSynced suspends hooks m a h =
    let reason = get_or "reason" (str "") m.payload in
    let category = some (parse_category (get_or "category" (str "other") m.payload)) in
    ground
      (arith, update_marker-IsSynced hooks reason category (lookup suspend_state_key a.state) a h)
process_as-IsSynced resumes hooks m a h =
    ground (arith, resume-IsSynced hooks (get_or "approver" (str "") m.payload) a h)
process_as-IsSynced forces_restart hooks m a h =
    ground (arith, agrees-flagged a.name crashed a.registry)
process_as-IsSynced ends_child hooks m a h =
    let child = get_or "child_name" (str "") m.payload in
    let reason = get_or "reason" (str "") m.payload in
    let called = record a { log = called_child_terminated child reason ∷ a.log } in
    let call = hooks.on_child_terminated child reason a.state in
    terminated-IsSynced call.result (after_call call called) (after_call-IsSynced call called h)
process_as-IsSynced is_dispatched hooks m a h =
    turn_of-IsSynced (dispatch hooks m a)
      (dispatch_loop-IsSynced hooks (suc (suc a.max_retries - m.attempt)) m a h)

boundary-IsSynced :
    (hooks : Hooks) (now : ℕ) (a : Agent) → IsSynced a → IsSynced (boundary hooks now a)
unfolding boundary enter_suspended checkpoint
boundary-IsSynced hooks now a h = ground (arith, agrees-flagged a.name suspended a.registry)

fetched-IsSynced :
    (hooks : Hooks) (r : Option Message × Agent)
    → IsSynced r.1
    → IsSynced (process_fetched hooks r).1
fetched-IsSynced hooks (none, a) h = h
fetched-IsSynced hooks (some m, a) h = process_as-IsSynced (classify m.type) hooks m a h

turn-IsSynced : (hooks : Hooks) (now : ℕ) (a : Agent) → IsSynced a → IsSynced (turn hooks now a).1
unfolding turn fetch
turn-IsSynced hooks now a h = ground (
  arith,
  fetched-IsSynced hooks (fetch now (boundary hooks now a)) (boundary-IsSynced hooks now a h),
)

-- What happens to an agent once it has reached its loop.
pub data Stimulus : Type 0 where
  arrives : Message → Stimulus
  takes_turn : ℕ → Stimulus
  asks_suspend : Value → SuspendCategory → Stimulus
  asks_resume : Value → Stimulus
  leaves : Stimulus

unfoldable pub live : Hooks → Stimulus → Agent → Agent
live hooks (arrives m) a = record a { mailbox = after_put m a.mailbox }
live hooks (takes_turn now) a = (turn hooks now a).1
live hooks (asks_suspend reason category) a = suspend reason category a
live hooks (asks_resume approver) a = (resume hooks approver a).1
live hooks leaves a = leave_loop a

-- The agent after stimuli, oldest first.
unfoldable pub live_all : Hooks → List Stimulus → Agent → Agent
live_all hooks [] a = a
live_all hooks (e ∷ es) a = live_all hooks es (live hooks e a)

live-IsSynced : (hooks : Hooks) (e : Stimulus) (a : Agent) → IsSynced a → IsSynced (live hooks e a)
unfolding live suspend leave_loop
live-IsSynced hooks (arrives m) a h = h
live-IsSynced hooks (takes_turn now) a h = turn-IsSynced hooks now a h
live-IsSynced hooks (asks_suspend reason category) a h = h
live-IsSynced hooks (asks_resume approver) a h = resume-IsSynced hooks approver a h
live-IsSynced hooks leaves a h =
    ground (arith, agrees-flagged a.name stopped (set_status stopping a).registry)

live_all-IsSynced :
    (hooks : Hooks) (es : List Stimulus) (a : Agent) → IsSynced a → IsSynced (live_all hooks es a)
unfolding live_all
live_all-IsSynced hooks [] a h = h
live_all-IsSynced hooks (e ∷ es) a h =
    live_all-IsSynced hooks es (live hooks e a) (live-IsSynced hooks e a h)

-- From the moment a fresh incarnation reaches its loop, whatever messages arrive, turns are taken,
-- suspends and resumes are asked for and the loop is left, in any order, the registry (if there is one)
-- has the agent's suspension flag exactly while its status is SUSPENDED.
pub flag_follows_status :
    (hooks : Hooks) (on_start : Payload → Payload) (es : List Stimulus) (a : Agent)
    → IsSynced (live_all hooks es (reach_loop on_start a))
unfolding reach_loop
flag_follows_status hooks on_start es a = live_all-IsSynced hooks es (reach_loop on_start a) (
    ground
      (arith, agrees-flagged a.name suspended a.registry, agrees-flagged a.name running a.registry))
