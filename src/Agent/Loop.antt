-- ===== src/Agent/Loop.antt =====
-- The message loop of civitas/process.py: its turns, its exit, and the start of an incarnation.
use python_civitas.Base.{
  ℕ, true, false, not, ◌&&◌, ◌||◌, Option, none, some, [], ◌∷◌, String, ◌==◌, string_eq,
  if◌then◌else◌,
}
use python_civitas.Base.Dict.{lookup}
use python_civitas.Message.{Value, str, Payload, Message, truthy, blank}
use python_civitas.Mailbox.{get, get_priority}
use python_civitas.Agent.{
  Agent, Hooks, CallResult, returns, raises, Error, raised_by_user, forced_restart, running,
  suspended, stopping, stopped, crashed, is_running, is_suspended_status, is_crashed, set_status,
  routed, called_stop, called_child_terminated, audited_force_restart,
}
use python_civitas.Agent.Suspension.{
  suspend, resume, enter_suspended, update_suspend_reason, parse_category, is_marked,
}
use python_civitas.Agent.Dispatch.{
  Dispatched, delivered, propagated, out_of_fuel, dispatch, after_call,
}

-- What a message is to the loop, by its type.
pub data Control : Type 0 where
  halts pings suspends resumes forces_restart ends_child is_dispatched : Control

unfoldable pub classify : String → Control
classify type =
    if type == "_agency.shutdown" || type == "civitas.eval.halt"
    then halts
    else if type == "_agency.heartbeat"
    then pings
    else if type == "_agency.suspend"
    then suspends
    else if type == "_agency.resume"
    then resumes
    else if type == "_agency.force_restart"
    then forces_restart
    else if type == "civitas.dynamic.terminated"
    then ends_child
    else is_dispatched

-- How a turn ends: the loop goes on, awaits a message, breaks, or lets an exception out.
pub data Turn : Type 0 where
  goes_on awaits breaks : Turn
  lets_out : Error → Turn
  stuck : Turn

-- message.payload.get(key, default)
abbrev pub get_or : String → Value → Payload → Value
get_or key default payload = elim (lookup key payload) [ none ↦ default | some v ↦ v ]

abbrev pub or_else : Option String → String → String
or_else none default = default
or_else (some s) default = if s == "" then default else s

abbrev pub heartbeat_ack : Message → Agent → Message
heartbeat_ack m a = record (blank "" m.timestamp) {
  type = "_agency.heartbeat_ack";
  sender = a.name;
  recipient = or_else m.reply_to m.sender;
  correlation_id = m.correlation_id;
  trace_id = m.trace_id;
}

abbrev pub pong : Option String → Message → Agent → Turn × Agent
pong none m a = (goes_on, record a { log = routed (heartbeat_ack m a) ∷ a.log })
pong (some exc) m a = (lets_out (raised_by_user exc), a)

unfoldable pub answer_heartbeat : Hooks → Message → Agent → Turn × Agent
answer_heartbeat hooks m a =
    if a.has_bus then pong (hooks.unroutable (heartbeat_ack m a)) m a else (goes_on, a)

unfoldable pub take_suspend : Hooks → Message → Agent → Agent
unfolding lookup parse_category suspend update_suspend_reason
take_suspend hooks m a =
    let reason = get_or "reason" (str "") m.payload in
    let category = parse_category (get_or "category" (str "other") m.payload) in
    if not hooks.suspend_allowed
    then a
    else if is_suspended_status a.status
    then update_suspend_reason hooks reason (some category) a
    else record (suspend reason category a) {
      suspend_initiated_by = get_or "initiated_by" (str "") m.payload;
    }

unfoldable pub take_resume : Hooks → Message → Agent → Agent
unfolding lookup truthy resume
take_resume hooks m a =
    let approver = get_or "approver" (str "") m.payload in
    if truthy approver then (resume hooks approver a).1 else a

unfoldable pub take_force_restart : Hooks → Message → Agent → Turn × Agent
unfolding lookup set_status
take_force_restart hooks m a =
    let initiated_by = get_or "initiated_by" (str "") m.payload in
    let reason = get_or "reason" (str "") m.payload in
    if not hooks.suspend_allowed then (goes_on, a) else (
      lets_out (forced_restart initiated_by reason),
      let down = set_status crashed a in
          record down { log = audited_force_restart reason initiated_by ∷ down.log },
    )

abbrev pub turn_after : CallResult → Agent → Turn × Agent
turn_after (returns reply) a = (goes_on, a)
turn_after (raises exc) a = (lets_out (raised_by_user exc), a)

unfoldable pub take_terminated : Hooks → Message → Agent → Turn × Agent
unfolding lookup after_call
take_terminated hooks m a =
    let child = get_or "child_name" (str "") m.payload in
    let reason = get_or "reason" (str "") m.payload in
    let call = hooks.on_child_terminated child reason a.state in
    turn_after call.result
      (after_call call (record a { log = called_child_terminated child reason ∷ a.log }))

abbrev pub turn_of : Dispatched × Agent → Turn × Agent
turn_of (delivered, a) = (goes_on, a)
turn_of (propagated exc, a) = (lets_out exc, a)
turn_of (out_of_fuel, a) = (stuck, a)

unfoldable pub process_as : Control → Hooks → Message → Agent → Turn × Agent
unfolding answer_heartbeat take_suspend take_resume take_force_restart take_terminated dispatch
process_as halts hooks m a = (breaks, a)
process_as pings hooks m a = answer_heartbeat hooks m a
process_as suspends hooks m a = (goes_on, take_suspend hooks m a)
process_as resumes hooks m a = (goes_on, take_resume hooks m a)
process_as forces_restart hooks m a = take_force_restart hooks m a
process_as ends_child hooks m a = take_terminated hooks m a
process_as is_dispatched hooks m a = turn_of (dispatch hooks m a)

-- A requested suspend takes effect before the next message is fetched.
unfoldable pub boundary : Hooks → ℕ → Agent → Agent
unfolding enter_suspended
boundary hooks now a =
    if a.suspend_requested && is_running a.status
    then record (enter_suspended hooks now a.suspend_reason a) { suspend_requested = false }
    else record a { suspend_requested = false }

unfoldable pub fetch : ℕ → Agent → Option Message × Agent
unfolding get get_priority
fetch now a =
    let (found, box) =
      if is_suspended_status a.status then get_priority now a.mailbox else get now a.mailbox in
    (found, record a { mailbox = box })

abbrev pub process_fetched : Hooks → Option Message × Agent → Turn × Agent
process_fetched hooks (none, a) = (awaits, a)
process_fetched hooks (some m, a) = process_as (classify m.type) hooks m a

-- One round of the loop.
unfoldable pub turn : Hooks → ℕ → Agent → Turn × Agent
unfolding boundary fetch process_as classify
turn hooks now a =
    if is_running a.status || is_suspended_status a.status
    then process_fetched hooks (fetch now (boundary hooks now a))
    else (breaks, a)

-- The `finally` of the loop.
unfoldable pub leave_loop : Agent → Agent
unfolding set_status
leave_loop a =
    if is_crashed a.status
    then record a { log = called_stop ∷ a.log }
    else let stopping_now = set_status stopping a in
      set_status stopped (record stopping_now { log = called_stop ∷ stopping_now.log })

-- _restore_state on a fresh incarnation, and the status with which it reaches the loop.
abbrev pub restored : Option (Option Payload) → Payload
restored none = []
restored (some none) = []
restored (some (some saved)) = saved

unfoldable pub reach_loop : (Payload → Payload) → Agent → Agent
unfolding set_status lookup
reach_loop on_start a =
    let ready = record a { state = on_start (restored a.store) } in
    record (set_status (if is_marked ready.state then suspended else running) ready) {
      reached_loop = true;
    }
