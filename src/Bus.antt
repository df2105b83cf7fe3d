-- ===== src/Bus.antt =====
-- MessageBus of civitas/bus.py over a registry and a transport.
-- The transport and the serializer are the argument `link`: which reply addresses it knows, and
-- whether a message can be serialized and published. What was published and subscribed is in the
-- state, the newest first. The identifiers of spans are given by the tracer, and those of new messages
-- are arguments. A timeout of zero or less is 0.
pub mod Routing
pub mod Pending
pub mod Teardown
use text.Mathlib.Text.{starts_with}
use python_civitas.Base.{
  ℕ, Bool, true, false, not, ◌&&◌, ◌||◌, Option, none, some, List, [], ◌∷◌, String, leb, ◌==◌,
  string_eq, if◌then◌else◌, contains, filter,
}
use python_civitas.Base.Dict.{Dict, lookup, insert, erase}
use python_civitas.Message.{str, Payload, Message, blank, system_message_types}
use python_civitas.Mailbox.{Mailbox, drain}
use python_civitas.Registry.{LocalRegistry, RoutingEntry, lookup_entry, is_suspended}

pub record Link : Type 0 where
  pub has_reply_address : String → Bool
  pub delivers : String → Message → Bool
  -- the trace and the span that the tracer gives a message, and the identifiers of a new one
  pub span : Message → String × String
  pub message_id : String
  pub span_id : String

pub record Audited : Type 0 where
  pub sender : String
  pub recipient : String
  pub type : String
  pub message_id : String

pub record MessageBus : Type 0 where
  pub registry : LocalRegistry
  pub local_agents : Dict String Mailbox
  pub subscribed : List String
  pub published : List (String × Message)
  pub audits : Bool
  pub audited : List Audited
  -- messages that a teardown dropped
  pub dropped : List Message

unfoldable pub setup_agent : String → Mailbox → MessageBus → MessageBus
unfolding insert
setup_agent name box b = record b {
  local_agents = insert name box b.local_agents;
  subscribed = name ∷ b.subscribed;
}

-- _validate_message_type, as whether the type is let through
unfoldable pub is_valid_type : Message → Bool
is_valid_type m = not (starts_with m.type "_agency.") || contains m.type system_message_types

abbrev pub address_in : Link → String → Option RoutingEntry → Option String
address_in link recipient (some entry) = some entry.address
address_in link recipient none =
    if link.has_reply_address recipient
    then some recipient
    else if starts_with recipient "_reply."
    then some recipient
    else none

-- Where route sends to.
unfoldable pub address_of : Link → String → MessageBus → Option String
unfolding lookup_entry
address_of link recipient b = address_in link recipient (lookup_entry recipient b.registry)

pub data Routed : Type 0 where
  sent validation_error routing_error delivery_error : Routed

abbrev pub stamped : Link → Message → Message
stamped link m = record m { trace_id = (link.span m).0; span_id = (link.span m).1 }

abbrev pub audit_route : Message → MessageBus → MessageBus
audit_route m b =
    if b.audits
    then record b {
      audited =
          record { sender = m.sender; recipient = m.recipient; type = m.type; message_id = m.id }
          ∷ b.audited;
    }
    else b

abbrev pub publish : Link → Option String → Message → MessageBus → Routed × MessageBus
publish link none m b = (routing_error, b)
publish link (some address) m b =
    if link.delivers address (stamped link m)
    then (
      sent,
      audit_route (stamped link m)
          (record b { published = (address, stamped link m) ∷ b.published }),
    )
    else (delivery_error, b)

unfoldable pub route : Link → Message → MessageBus → Routed × MessageBus
unfolding is_valid_type address_of
route link m b =
    if not (is_valid_type m)
    then (validation_error, b)
    else publish link (address_of link m.recipient b) m b

pub data Requested : Type 0 where
  invalid suspended unroutable : Requested
  -- the address, the message and the wait: none waits for ever
  awaiting : String → Message → Option ℕ → Requested

abbrev pub normal_timeout : Option ℕ → Option ℕ
normal_timeout none = none
normal_timeout (some n) = if leb n 0 then none else some n

abbrev pub request_to : Link → Message → Option ℕ → Option RoutingEntry → Requested
request_to link m timeout none = unroutable
request_to link m timeout (some entry) =
    awaiting entry.address (stamped link m) (normal_timeout timeout)

-- Up to the call of transport.request.
unfoldable pub request : Link → Message → Option ℕ → Bool → MessageBus → Requested
unfolding is_valid_type lookup_entry is_suspended
request link m timeout fail_if_suspended b =
    if not (is_valid_type m)
    then invalid
    else if fail_if_suspended && is_suspended m.recipient b.registry
    then suspended
    else request_to link m timeout (lookup_entry m.recipient b.registry)

-- message.reply_to or message.sender
abbrev pub reply_destination : Message → String
reply_destination m = elim m.reply_to [
  | none ↦ m.sender
  | some to ↦ if to == "" then m.sender else to
]

abbrev pub error_reply : Link → ℕ → String → String → Message → Message
error_reply link now name text m = record (blank link.message_id now) {
  type = "reply";
  sender = name;
  recipient = reply_destination m;
  payload = ("status", str "error") ∷ ("error", str text) ∷ [];
  correlation_id = m.correlation_id;
  trace_id = m.trace_id;
  span_id = link.span_id;
  parent_span_id = some m.span_id;
}

abbrev pub is_some {ℓ} : {A : Type ℓ} → Option A → Bool
is_some none = false
is_some (some a) = true

abbrev pub wants_reply : Message → Bool
wants_reply m = is_some m.correlation_id && not (reply_destination m == "")

-- Whether the loop goes on after an answer: MessageRoutingError alone is caught.
abbrev pub goes_on : Routed → Bool
goes_on sent = true
goes_on routing_error = true
goes_on _ = false

unfoldable pub fail_pending :
    Link → ℕ → String → String → List Message → MessageBus → Bool × MessageBus
unfolding route
fail_pending link now name text [] b = (true, b)
fail_pending link now name text (m ∷ ms) b =
    let answer = route link (error_reply link now name text m) b in
    let answered = fail_pending link now name text ms answer.1 in
    let dropped = fail_pending link now name text ms (record b { dropped = m ∷ b.dropped }) in
    if wants_reply m then (if goes_on answer.0 then answered else (false, answer.1)) else dropped

abbrev pub teardown_popped :
    Link → ℕ → String → String → Option Mailbox → MessageBus → Bool × MessageBus
teardown_popped link now name text none b = (true, b)
teardown_popped link now name text (some box) b =
    fail_pending link now name text (drain box).0
      (record b { local_agents = erase name b.local_agents })

-- `text` is the text of the error with the agent's name. The result tells whether the teardown ended
-- without an exception.
unfoldable pub teardown_agent : Link → ℕ → String → String → MessageBus → Bool × MessageBus
unfolding lookup erase drain fail_pending
teardown_agent link now name text b =
    teardown_popped link now name text (lookup name b.local_agents)
      (record b { subscribed = filter (λ n. not (n == name)) b.subscribed })
