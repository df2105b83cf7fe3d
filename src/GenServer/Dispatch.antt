-- ===== src/GenServer/Dispatch.antt =====
-- How GenServer of civitas/genserver.py serves what cast and ask of civitas/process.py and a timer send.
use python_civitas.Base.{
  ◌≡◌, refl, ap, ◌∙◌, Bool, true, false, Option, none, some, [], ◌∷◌, String, arith, ◌==◌,
  string_eq, if◌then◌else◌,
}
use python_civitas.Base.Dict.{lookup, insert, erase, lookup-insert_self}
use python_civitas.Message.{Value, bool, truthy, Payload, Message}
use python_civitas.GenServer.{
  Returned, dict, no_dict, raised, Handlers, GenServer, Fresh, Handled, replied, silent, failed,
  gs_span, end_span, reply_recipient_of, reply_to, after_call, do_call, after_notice, do_cast,
  do_info, is_true, by_kind, handle, send, cast, ask, info_message,
}

-- The payload that a call returned, and what a client gets: the correlation, the address, the payload.
abbrev pub payload_of : Returned → Option Payload
payload_of (dict p) = some p
payload_of (no_dict kind) = none
payload_of (raised exc) = none

abbrev pub answer_of : Handled → Option (Option String × String × Payload)
answer_of (replied r) = some (r.correlation_id, r.recipient, r.payload)
answer_of silent = none
answer_of (failed exc) = none

abbrev pub addressed :
    Option String → String → Option Payload → Option (Option String × String × Payload)
addressed id to none = none
addressed id to (some p) = some (id, to, p)

erase-insert : (k : String) (v : Value) (d : Payload) → erase k (insert k v d) ≡ erase k d
unfolding insert erase
erase-insert k v [] = ground (arith, string_eq.same_iff k k)
erase-insert k v ((j, w) ∷ d) = ground (
  arith,
  string_eq.same_iff k k,
  string_eq.same_iff j k,
  string_eq.same_iff j j,
  erase-insert k v d,
)

state-end_span : (b : Bool) (e : Option String) (s : GenServer) → (end_span b e s).state ≡ s.state
unfolding end_span
state-end_span b e s = ground arith

state-after_notice :
    (o : Option String × Payload) (s : GenServer) → (after_notice o s).1.state ≡ o.1
state-after_notice (none, state) s = state-end_span false none (record s { state = state })
state-after_notice (some exc, state) s =
    state-end_span false (some exc) (record s { state = state })

state-after_call :
    (fresh : Fresh) (m : Message) (o : Returned × Payload) (s : GenServer)
    → (after_call fresh m o s).1.state ≡ o.1
state-after_call fresh m (dict p, state) s = state-end_span true none (record s { state = state })
state-after_call fresh m (no_dict kind, state) s =
    state-end_span false (some "TypeError") (record s { state = state })
state-after_call fresh m (raised exc, state) s =
    state-end_span false (some exc) (record s { state = state })

answer_of-after_call :
    (fresh : Fresh) (m : Message) (o : Returned × Payload) (s : GenServer)
    → answer_of (after_call fresh m o s).0
      ≡ addressed m.correlation_id (reply_recipient_of m.reply_to m.sender) (payload_of o.0)
unfolding reply_to
answer_of-after_call fresh m (dict p, state) s = refl
answer_of-after_call fresh m (no_dict kind, state) s = refl
answer_of-after_call fresh m (raised exc, state) s = refl

by_kind-state :
    (o : Option String) (b : Bool) (handlers : Handlers) (g : Fresh) (m : Message) (s : GenServer)
    → o ≡ none
    → (by_kind o b handlers g m s).1.state ≡ (
        if b
        then (handlers.handle_cast (erase "__cast__" m.payload) s.state).1
        else (handlers.handle_info m.payload s.state).1)
unfolding do_cast do_info
by_kind-state none true handlers g m s h =
    state-after_notice (handlers.handle_cast (erase "__cast__" m.payload) s.state)
      (gs_span "civitas.genserver.cast" m s)
by_kind-state none false handlers g m s h =
    state-after_notice (handlers.handle_info m.payload s.state)
      (gs_span "civitas.genserver.info" m s)
by_kind-state (some a) b handlers g m s h = ground (arith, h)

notice-handled :
    (handlers : Handlers) (g : Fresh) (m : Message) (s : GenServer)
    → m.reply_to ≡ none
    → (handle handlers g m s).1.state ≡ (
        if is_true (lookup "__cast__" m.payload)
        then (handlers.handle_cast (erase "__cast__" m.payload) s.state).1
        else (handlers.handle_info m.payload s.state).1)
unfolding handle
notice-handled handlers g m s no_call =
    by_kind-state m.reply_to (is_true (lookup "__cast__" m.payload)) handlers g m s no_call

marked :
    (handlers : Handlers) (payload state : Payload)
    → (if is_true (lookup "__cast__" (insert "__cast__" (bool true) payload))
        then (handlers.handle_cast
            (erase "__cast__" (insert "__cast__" (bool true) payload))
            state).1
        else (handlers.handle_info (insert "__cast__" (bool true) payload) state).1)
      ≡ (handlers.handle_cast (erase "__cast__" payload) state).1
unfolding truthy
marked handlers payload state =
    rw (
      lookup-insert_self "__cast__" (bool true) payload,
      erase-insert "__cast__" (bool true) payload,
    )

cast-handled :
    (handlers : Handlers) (f g : Fresh) (current : Option Message) (sender name : String)
    (payload : Payload) (s : GenServer)
    → (handle handlers g (cast f current sender name payload) s).1.state
      ≡ (handlers.handle_cast (erase "__cast__" payload) s.state).1
unfolding cast send
cast-handled handlers f g none sender name payload s =
    notice-handled handlers g (cast f none sender name payload) s refl
    ∙ marked handlers payload s.state
cast-handled handlers f g (some m) sender name payload s =
    notice-handled handlers g (cast f (some m) sender name payload) s refl
    ∙ marked handlers payload s.state

info-handled :
    (handlers : Handlers) (f g : Fresh) (name : String) (payload : Payload) (s : GenServer)
    → (handle handlers g (info_message f name payload) s).1.state ≡ (
        if is_true (lookup "__cast__" payload)
        then (handlers.handle_cast (erase "__cast__" payload) s.state).1
        else (handlers.handle_info payload s.state).1)
unfolding info_message
info-handled handlers f g name payload s =
    notice-handled handlers g (info_message f name payload) s refl

-- The message of ask as it arrives: the transport has set its reply address.
abbrev pub delivered : String → Message → Message
delivered address m = record m { reply_to = some address }

call-handled :
    (handlers : Handlers) (f g : Fresh) (current : Option Message) (sender name address : String)
    (payload : Payload) (s : GenServer)
    → address == "" ≡ false
    → let m = delivered address (ask f current sender name payload) in
      ((handle handlers g m s).1.state ≡ (handlers.handle_call payload sender s.state).1)
      × (answer_of (handle handlers g m s).0
          ≡ addressed
              (some f.correlation_id)
              address
              (payload_of (handlers.handle_call payload sender s.state).0))
unfolding handle do_call ask send
call-handled handlers f g none sender name address payload s given =
    let m = delivered address (ask f none sender name payload) in
    let o = handlers.handle_call payload sender s.state in
    let opened = gs_span "civitas.genserver.call" m s in
    (
      state-after_call g m o opened,
      answer_of-after_call g m o opened
          ∙ ap
              (λ b.
                addressed (some f.correlation_id) (if b then sender else address) (payload_of o.0))
              given,
    )
call-handled handlers f g (some c) sender name address payload s given =
    let m = delivered address (ask f (some c) sender name payload) in
    let o = handlers.handle_call payload sender s.state in
    let opened = gs_span "civitas.genserver.call" m s in
    (
      state-after_call g m o opened,
      answer_of-after_call g m o opened
          ∙ ap
              (λ b.
                addressed (some f.correlation_id) (if b then sender else address) (payload_of o.0))
              given,
    )

-- What is sent to a server reaches the handler that it is meant for. A cast leaves the server in the
-- state that handle_cast leaves for the sender's payload without the mark; a timer's payload that
-- carries no mark goes to handle_info, and one that carries a true mark to handle_cast. A call that
-- arrives with a reply address that is not empty goes to handle_call with the caller's payload and name; the answer is
-- the dict that it returned, under the caller's correlation and to that address, and there is no
-- answer when it raised or returned something else.
pub sent_reaches_handler :
    (handlers : Handlers) (f g : Fresh) (current : Option Message) (sender name address : String)
    (payload : Payload) (s : GenServer)
    → address == "" ≡ false
    → let asked = delivered address (ask f current sender name payload) in
      ((handle handlers g (cast f current sender name payload) s).1.state
        ≡ (handlers.handle_cast (erase "__cast__" payload) s.state).1)
      × ((handle handlers g (info_message f name payload) s).1.state ≡ (
          if is_true (lookup "__cast__" payload)
          then (handlers.handle_cast (erase "__cast__" payload) s.state).1
          else (handlers.handle_info payload s.state).1))
      × ((handle handlers g asked s).1.state ≡ (handlers.handle_call payload sender s.state).1)
      × (answer_of (handle handlers g asked s).0
          ≡ addressed
              (some f.correlation_id)
              address
              (payload_of (handlers.handle_call payload sender s.state).0))
sent_reaches_handler handlers f g current sender name address payload s given =
    let call = call-handled handlers f g current sender name address payload s given in
    (
      cast-handled handlers f g current sender name payload s,
      info-handled handlers f g name payload s,
      call.0,
      call.1,
    )
