-- ===== src/GenServer.antt =====
-- GenServer of civitas/genserver.py, and cast, send and ask of civitas/process.py that address it.
-- The handlers of a subclass are the argument `handlers`: from a payload and the server's state they
-- give what they return or raise and the new state. handle() runs while its message is the current one,
-- so reply() answers that message. The type in a reply's payload is a string. Spans are newest first.
pub mod Dispatch
use python_civitas.Base.{
  ℕ, Bool, true, false, not, Option, none, some, List, [], ◌∷◌, ◌++◌, String, ◌==◌, string_eq,
  if◌then◌else◌, filter,
}
use python_civitas.Base.Dict.{lookup, insert, erase}
use python_civitas.Message.{Value, bool, str, truthy, Payload, Message, blank}

-- What handle_call gives back: a dict, an object of another type, or an exception.
pub data Returned : Type 0 where
  dict : Payload → Returned
  no_dict : String → Returned
  raised : String → Returned

pub record Handlers : Type 0 where
  pub handle_call : Payload → String → Payload → Returned × Payload
  pub handle_cast : Payload → Payload → Option String × Payload
  pub handle_info : Payload → Payload → Option String × Payload

pub record Span : Type 0 where
  pub name : String
  pub trace_id : String
  pub parent_span_id : Option String
  pub success : Bool
  pub error : Option String
  pub ended : Bool

pub record Timer : Type 0 where
  pub delay_ms : ℕ
  pub payload : Payload
  pub finished : Bool

pub record GenServer : Type 0 where
  pub name : String
  pub state : Payload
  pub has_tracer : Bool
  pub current_handle_span : Option String
  pub spans : List Span
  pub timers : List Timer

-- The identifiers drawn for a new message.
pub record Fresh : Type 0 where
  pub message_id : String
  pub correlation_id : String
  pub span_id : String
  pub now : ℕ

pub data Handled : Type 0 where
  replied : Message → Handled
  silent : Handled
  failed : String → Handled

-- message.span_id or None
abbrev pub text_or_none : String → Option String
text_or_none s = if s == "" then none else some s

abbrev pub parent_of : Option String → Message → Option String
parent_of none m = text_or_none m.span_id
parent_of (some span) m = some span

unfoldable pub gs_span : String → Message → GenServer → GenServer
gs_span name m s =
    if s.has_tracer
    then record s {
      spans =
          record {
            name = name;
            trace_id = m.trace_id;
            parent_span_id = parent_of s.current_handle_span m;
            success = false;
            error = none;
            ended = false;
          }
          ∷ s.spans;
    }
    else s

abbrev pub end_first : Bool → Option String → List Span → List Span
end_first success error [] = []
end_first success error (span ∷ spans) =
    record span { success = success; error = error; ended = true } ∷ spans

-- set_attribute, set_error and end of the turn's span
unfoldable pub end_span : Bool → Option String → GenServer → GenServer
end_span success error s =
    if s.has_tracer then record s { spans = end_first success error s.spans } else s

abbrev pub type_or_reply : Option Value → String
type_or_reply (some (str t)) = t
type_or_reply _ = "reply"

abbrev pub reply_recipient_of : Option String → String → String
reply_recipient_of none sender = sender
reply_recipient_of (some to) sender = if to == "" then sender else to

unfoldable pub reply_to : Fresh → String → Message → Payload → Message
unfolding lookup
reply_to fresh name original payload = record (blank fresh.message_id fresh.now) {
  type = type_or_reply (lookup "type" payload);
  sender = name;
  recipient = reply_recipient_of original.reply_to original.sender;
  payload = payload;
  correlation_id = original.correlation_id;
  trace_id = original.trace_id;
  span_id = fresh.span_id;
  parent_span_id = some original.span_id;
}

abbrev pub after_call : Fresh → Message → Returned × Payload → GenServer → Handled × GenServer
after_call fresh m (dict payload, state) s =
    (replied (reply_to fresh s.name m payload), end_span true none (record s { state = state }))
after_call fresh m (no_dict kind, state) s =
    (failed "TypeError", end_span false (some "TypeError") (record s { state = state }))
after_call fresh m (raised exc, state) s =
    (failed exc, end_span false (some exc) (record s { state = state }))

unfoldable pub do_call : Handlers → Fresh → Message → GenServer → Handled × GenServer
unfolding reply_to end_span
do_call handlers fresh m s =
    after_call fresh m (handlers.handle_call m.payload m.sender s.state)
      (gs_span "civitas.genserver.call" m s)

abbrev pub after_notice : Option String × Payload → GenServer → Handled × GenServer
after_notice (none, state) s = (silent, end_span false none (record s { state = state }))
after_notice (some exc, state) s =
    (failed exc, end_span false (some exc) (record s { state = state }))

unfoldable pub do_cast : Handlers → Message → GenServer → Handled × GenServer
unfolding end_span
do_cast handlers m s =
    after_notice (handlers.handle_cast (erase "__cast__" m.payload) s.state)
      (gs_span "civitas.genserver.cast" m s)

unfoldable pub do_info : Handlers → Message → GenServer → Handled × GenServer
unfolding end_span
do_info handlers m s =
    after_notice (handlers.handle_info m.payload s.state) (gs_span "civitas.genserver.info" m s)

abbrev pub is_true : Option Value → Bool
is_true none = false
is_true (some v) = truthy v

abbrev pub by_kind :
    Option String → Bool → Handlers → Fresh → Message → GenServer → Handled × GenServer
by_kind (some to) is_cast handlers fresh m s = do_call handlers fresh m s
by_kind none is_cast handlers fresh m s =
    if is_cast then do_cast handlers m s else do_info handlers m s

unfoldable pub handle : Handlers → Fresh → Message → GenServer → Handled × GenServer
unfolding do_call do_cast do_info lookup
handle handlers fresh m s =
    by_kind m.reply_to (is_true (lookup "__cast__" m.payload)) handlers fresh m s

-- send() outside a turn or within the turn of `current`
unfoldable pub send : Fresh → Option Message → String → String → Payload → Message
send fresh none name recipient payload = record (blank fresh.message_id fresh.now) {
  sender = name;
  recipient = recipient;
  payload = payload;
  span_id = fresh.span_id;
}
send fresh (some current) name recipient payload = record (blank fresh.message_id fresh.now) {
  sender = name;
  recipient = recipient;
  payload = payload;
  trace_id = current.trace_id;
  span_id = fresh.span_id;
  parent_span_id = some current.span_id;
}

unfoldable pub cast : Fresh → Option Message → String → String → Payload → Message
unfolding send
cast fresh current name recipient payload =
    send fresh current name recipient (insert "__cast__" (bool true) payload)

-- ask(), up to the request of the bus
unfoldable pub ask : Fresh → Option Message → String → String → Payload → Message
unfolding send
ask fresh current name recipient payload = record (send fresh current name recipient payload) {
  correlation_id = some fresh.correlation_id;
}

-- The message that a timer sends when it fires.
unfoldable pub info_message : Fresh → String → Payload → Message
info_message fresh name payload = record (blank fresh.message_id fresh.now) {
  type = "genserver.info";
  sender = name;
  recipient = name;
  payload = payload;
  span_id = fresh.span_id;
}

unfoldable pub send_after : ℕ → Payload → GenServer → GenServer
send_after delay payload s = record s {
  timers =
      filter (λ t. not t.finished) s.timers
      ++ (record { delay_ms = delay; payload = payload; finished = false } ∷ []);
}
