-- ===== src/Agent/Dispatch.antt =====
-- _dispatch and _apply_error_action of civitas/process.py: one delivery, retried in place.
-- The fuel counts attempts: each one raises the attempt number, which ends the loop above the bound,
-- unless the user's code lowers that number.
use python_civitas.Base.{
  ℕ, zero, suc, ◌+◌, ◌-◌, Bool, false, not, ◌&&◌, Option, none, some, ◌∷◌, String, ◌==◌, string_eq,
  ltb, if◌then◌else◌,
}
use python_civitas.Message.{Value, Message}
use python_civitas.Agent.{
  Agent, Hooks, Call, CallResult, returns, raises, ErrorAction, SuspendCategory, retry, skip,
  escalate, stop, Error, raised_by_user, ProcessStatus, stopping, crashed, is_running, set_status,
  called_handle, called_correction, routed,
}
use python_civitas.Agent.Suspension.{suspend}

pub data Dispatched : Type 0 where
  delivered : Dispatched
  propagated : Error → Dispatched
  out_of_fuel : Dispatched

abbrev pub maybe_suspend : Option (Value × SuspendCategory) → Agent → Agent
maybe_suspend none a = a
maybe_suspend (some (reason, category)) a = suspend reason category a

abbrev pub maybe_status : Option ProcessStatus → Agent → Agent
maybe_status none a = a
maybe_status (some new) a = set_status new a

-- What a call of the user's code does to the agent.
unfoldable pub after_call : Call → Agent → Agent
unfolding suspend set_status
after_call c a =
    maybe_status c.outside_status (maybe_suspend c.self_suspend (record a { state = c.state }))

-- message.correlation_id as a condition
abbrev pub has_text : Option String → Bool
has_text none = false
has_text (some s) = not (s == "")

abbrev pub routing : Option String → Message → Agent → CallResult × Agent
routing none reply a = (returns (some reply), record a { log = routed reply ∷ a.log })
routing (some exc) reply a = (raises exc, a)

-- if result is not None and message.correlation_id and self._bus is not None: route(result), which
-- raises where the bus refuses the reply
unfoldable pub route_reply : Hooks → CallResult → Message → Agent → CallResult × Agent
route_reply hooks (raises exc) m a = (raises exc, a)
route_reply hooks (returns none) m a = (returns none, a)
route_reply hooks (returns (some reply)) m a =
    if has_text m.correlation_id && a.has_bus
    then routing (hooks.unroutable reply) reply a
    else (returns (some reply), a)

unfoldable pub apply_error_action : ErrorAction → String → Agent → Dispatched × Agent
unfolding set_status
apply_error_action skip exc a = (delivered, a)
apply_error_action stop exc a = (delivered, set_status stopping a)
apply_error_action escalate exc a = (propagated (raised_by_user exc), set_status crashed a)
apply_error_action retry exc a = (delivered, a)

-- One run of the hook that the message type asks for, and the agent after it.
unfoldable pub attempt : Hooks → Message → Agent → CallResult × Agent
unfolding after_call route_reply
attempt hooks m a =
    if m.type == "civitas.eval.correction"
    then (
      (hooks.on_correction m a.state).result,
      after_call (hooks.on_correction m a.state) (record a { log = called_correction m ∷ a.log }),
    )
    else route_reply hooks (hooks.handle m a.state).result m
        (after_call (hooks.handle m a.state) (record a { log = called_handle m ∷ a.log }))

-- An error whose action is RETRY: the message's new attempt number decides.
-- The recursive call of the loop is the argument `again`.
unfoldable pub retry_or_give_up : String → Message → Agent → Dispatched × Agent → Dispatched × Agent
unfolding set_status
retry_or_give_up exc m a again =
    if ltb a.max_retries m.attempt
    then (propagated (raised_by_user exc), set_status crashed a)
    else if not (is_running a.status)
    then (delivered, a)
    else again

-- What the action of on_error leads to; without an action on_error itself has raised.
abbrev pub act_on :
    Option ErrorAction → String → Message → Agent → Dispatched × Agent → Dispatched × Agent
act_on none exc m a again = (propagated (raised_by_user exc), a)
act_on (some retry) exc m a again =
    retry_or_give_up exc (record m { attempt = m.attempt + 1 }) a again
act_on (some skip) exc m a again = apply_error_action skip exc a
act_on (some escalate) exc m a again = apply_error_action escalate exc a
act_on (some stop) exc m a again = apply_error_action stop exc a

-- What follows a run of the hook.
unfoldable pub settle :
    Hooks → Message → CallResult → Agent → Dispatched × Agent → Dispatched × Agent
unfolding apply_error_action retry_or_give_up
settle hooks m (returns reply) a again = (delivered, a)
settle hooks m (raises exc) a again =
    act_on (hooks.on_error exc m a.state) exc (record m { attempt = hooks.attempt_left m a.state })
      a again

unfoldable pub dispatch_loop : Hooks → ℕ → Message → Agent → Dispatched × Agent
unfolding attempt settle
dispatch_loop hooks zero m a = (out_of_fuel, a)
dispatch_loop hooks (suc fuel) m a =
    let (result, after) = attempt hooks m a in
    let next = record m { attempt = hooks.attempt_left m after.state + 1 } in
    let again = dispatch_loop hooks fuel next after in settle hooks m result after again

unfoldable pub dispatch : Hooks → Message → Agent → Dispatched × Agent
unfolding dispatch_loop
dispatch hooks m a = dispatch_loop hooks (suc (suc a.max_retries - m.attempt)) m a
