-- ===== src/Agent/Pauses.antt =====
-- The business queue of an agent of civitas/process.py that is suspended or about to be.
use python_civitas.Base.{
  ℕ, zero, suc, ◌+◌, ◌-◌, ◌≡◌, refl, ◌⊎◌, true, Option, none, some, ◌∷◌, string_eq, arith,
}
use python_civitas.Base.Dict.{lookup}
use python_civitas.Message.{Value, str, Message}
use python_civitas.Mailbox.{Mailbox, get_priority}
use python_civitas.Agent.{
  Agent, Hooks, Call, CallResult, returns, raises, SuspendCategory, running, suspended, set_status,
  called_handle, called_correction, called_child_terminated,
}
use python_civitas.Agent.Suspension.{
  suspend, resume, leave_suspended, enter_suspended, update_suspend_reason, update_marker,
  checkpoint, suspend_state_key, parse_category,
}
use python_civitas.Agent.Dispatch.{
  Dispatched, delivered, propagated, out_of_fuel, after_call, route_reply, attempt,
  retry_or_give_up, apply_error_action, settle, dispatch_loop, dispatch,
}
use python_civitas.Agent.Loop.{
  Control, halts, pings, suspends, resumes, forces_restart, ends_child, is_dispatched, classify,
  answer_heartbeat, get_or, take_suspend, take_resume, take_force_restart, take_terminated, turn_of,
  process_as, boundary, fetch, process_fetched, turn,
}

mailbox-after_call : (c : Call) (a : Agent) → (after_call c a).mailbox ≡ a.mailbox
unfolding after_call suspend set_status
mailbox-after_call c a = ground arith

mailbox-attempt :
    (hooks : Hooks) (m : Message) (a : Agent) → (attempt hooks m a).1.mailbox ≡ a.mailbox
unfolding attempt route_reply
mailbox-attempt hooks m a = ground (
  arith,
  mailbox-after_call (hooks.handle m a.state) (record a { log = called_handle m ∷ a.log }),
  mailbox-after_call (hooks.on_correction m a.state)
      (record a { log = called_correction m ∷ a.log }),
)

mailbox-settle :
    (hooks : Hooks) (m : Message) (result : CallResult) (a : Agent) (again : Dispatched × Agent)
    → again.1.mailbox ≡ a.mailbox
    → (settle hooks m result a again).1.mailbox ≡ a.mailbox
unfolding settle retry_or_give_up apply_error_action set_status
mailbox-settle hooks m (returns reply) a again h = refl
mailbox-settle hooks m (raises exc) a again h = ground arith

mailbox-dispatch_loop :
    (hooks : Hooks) (fuel : ℕ) (m : Message) (a : Agent)
    → (dispatch_loop hooks fuel m a).1.mailbox ≡ a.mailbox
unfolding dispatch_loop
mailbox-dispatch_loop hooks zero m a = refl
mailbox-dispatch_loop hooks (suc fuel) m a =
    let after = (attempt hooks m a).1 in
    let next = record m { attempt = hooks.attempt_left m after.state + 1 } in
    ground (
      arith,
      mailbox-attempt hooks m a,
      mailbox-settle hooks m (attempt hooks m a).0 after (dispatch_loop hooks fuel next after)
          (mailbox-dispatch_loop hooks fuel next after),
    )

mailbox-update_marker :
    (hooks : Hooks) (reason : Value) (category : Option SuspendCategory) (o : Option Value)
    (a : Agent)
    → (update_marker hooks reason category o a).mailbox ≡ a.mailbox
unfolding checkpoint
mailbox-update_marker hooks reason category o a = ground arith

mailbox-resume :
    (hooks : Hooks) (approver : Value) (a : Agent) → (resume hooks approver a).1.mailbox ≡ a.mailbox
unfolding resume leave_suspended checkpoint set_status
mailbox-resume hooks approver a = ground arith

mailbox-turn_of : (r : Dispatched × Agent) → (turn_of r).1.mailbox ≡ r.1.mailbox
mailbox-turn_of (delivered, a) = refl
mailbox-turn_of (propagated exc, a) = refl
mailbox-turn_of (out_of_fuel, a) = refl

mailbox-process_as :
    (c : Control) (hooks : Hooks) (m : Message) (a : Agent)
    → (process_as c hooks m a).1.mailbox ≡ a.mailbox
unfolding process_as answer_heartbeat take_suspend take_resume take_force_restart take_terminated
    suspend update_suspend_reason dispatch set_status
mailbox-process_as halts hooks m a = refl
mailbox-process_as pings hooks m a = ground arith
mailbox-process_as suspends hooks m a =
    let reason = get_or "reason" (str "") m.payload in
    let category = some (parse_category (get_or "category" (str "other") m.payload)) in
    ground (arith, mailbox-update_marker hooks reason category (lookup suspend_state_key a.state) a)
mailbox-process_as resumes hooks m a =
    ground (arith, mailbox-resume hooks (get_or "approver" (str "") m.payload) a)
mailbox-process_as forces_restart hooks m a = ground arith
mailbox-process_as ends_child hooks m a =
    let child = get_or "child_name" (str "") m.payload in
    let reason = get_or "reason" (str "") m.payload in
    let called = record a { log = called_child_terminated child reason ∷ a.log } in
    ground (arith, mailbox-after_call (hooks.on_child_terminated child reason a.state) called)
mailbox-process_as is_dispatched hooks m a = ground (
  arith,
  mailbox-turn_of (dispatch_loop hooks (suc (suc a.max_retries - m.attempt)) m a),
  mailbox-dispatch_loop hooks (suc (suc a.max_retries - m.attempt)) m a,
)

mailbox-process_fetched :
    (hooks : Hooks) (r : Option Message × Agent) → (process_fetched hooks r).1.mailbox ≡ r.1.mailbox
mailbox-process_fetched hooks (none, a) = refl
mailbox-process_fetched hooks (some m, a) = mailbox-process_as (classify m.type) hooks m a

queue-get_priority : (now : ℕ) (b : Mailbox) → (get_priority now b).1.queue ≡ b.queue
unfolding get_priority
queue-get_priority now b = refl

-- A turn of a suspended agent, or of a running one whose suspension has been requested, leaves every
-- buffered business message where it is, whatever control and priority messages it handles.
pub paused_turn_keeps_queue :
    (hooks : Hooks) (now : ℕ) (a : Agent)
    → (a.status ≡ suspended) ⊎ ((a.status ≡ running) × (a.suspend_requested ≡ true))
    → (turn hooks now a).1.mailbox.queue ≡ a.mailbox.queue
unfolding turn boundary fetch enter_suspended checkpoint set_status
paused_turn_keeps_queue hooks now a paused = ground (
  arith,
  mailbox-process_fetched hooks (fetch now (boundary hooks now a)),
  queue-get_priority now a.mailbox,
)
