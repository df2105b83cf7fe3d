-- ===== src/Frames.antt =====
-- The two ends of a streamed reply in civitas/process.py: the frames that a producer emits, and what a
-- consumer does with them. `show` is what str() gives for a value of a payload, `routes` whether the
-- bus takes a message, and `now` the reading of time.monotonic(). A new frame's identifiers and
-- its timestamp are left blank.
pub mod Arrival
pub mod Guards
use python_civitas.Base.{
  ℕ, suc, ◌+◌, ◌-◌, Bool, true, false, not, ◌&&◌, ◌||◌, Option, none, some, List, [], ◌∷◌, String,
  leb, ◌==◌, string_eq, nat_eq, if◌then◌else◌,
}
use python_civitas.Base.Dict.{Dict, lookup, insert, erase}
use python_civitas.Message.{Value, str, truthy, Payload, Message, blank}
use python_civitas.Streaming.{StreamSink, open_sink, push, end_stream, fail}

abbrev pub stream_chunk : String
stream_chunk = "civitas.stream.chunk"

abbrev pub stream_end : String
stream_end = "civitas.stream.end"

abbrev pub stream_error : String
stream_error = "civitas.stream.error"

abbrev pub stream_cancel : String
stream_cancel = "civitas.stream.cancel"

pub record OutStream : Type 0 where
  pub started_at : ℕ
  pub recipient : String
  pub max_frames : Option ℕ
  pub max_duration : Option ℕ
  pub seq : ℕ
  pub frames : ℕ
  pub cancelled : Bool

pub record Endpoint : Type 0 where
  pub name : String
  pub has_bus : Bool
  pub out_streams : Dict String OutStream
  pub pending_streams : Dict String (StreamSink Payload)
  pub stream_producers : Dict String String
  -- what was routed, the newest first
  pub routed : List Message

-- str(payload.get("error") or "stream error")
abbrev error_or_default : (Value → String) → Option Value → String
error_or_default show none = "stream error"
error_or_default show (some v) = if truthy v then show v else "stream error"

abbrev pub set_sink : String → StreamSink Payload → Endpoint → Endpoint
set_sink cid sink a = record a { pending_streams = insert cid sink a.pending_streams }

abbrev pub feed : (Value → String) → Message → StreamSink Payload → StreamSink Payload
feed show m sink =
    if m.type == stream_chunk
    then push m.payload m.seq sink
    else if m.type == stream_end
    then end_stream m.seq sink
    else if m.type == stream_error
    then fail (error_or_default show (lookup "error" m.payload)) sink
    else end_stream none (push m.payload none sink)

abbrev pub is_producer : String → Option String → Bool
is_producer sender none = false
is_producer sender (some producer) = sender == producer

abbrev pub cancel_out : String → Option OutStream → Endpoint → Bool × Endpoint
cancel_out cid none a = (false, a)
cancel_out cid (some o) a =
    (true, record a { out_streams = insert cid (record o { cancelled = true }) a.out_streams })

abbrev pub consume_for :
    (Value → String) → Message → String → Option (StreamSink Payload) → Endpoint → Bool × Endpoint
consume_for show m cid none a = (false, a)
consume_for show m cid (some sink) a =
    if is_producer m.sender (lookup cid a.stream_producers)
    then (true, set_sink cid (feed show m sink) a)
    else (true, a)

abbrev pub consume_with : (Value → String) → Message → Option String → Endpoint → Bool × Endpoint
consume_with show m none a = (false, a)
consume_with show m (some cid) a =
    if m.type == stream_cancel
    then cancel_out cid (lookup cid a.out_streams) a
    else consume_for show m cid (lookup cid a.pending_streams) a

unfoldable pub consume_stream_frame : (Value → String) → Message → Endpoint → Bool × Endpoint
consume_stream_frame show m a = consume_with show m m.correlation_id a

abbrev pub reaches : Option ℕ → ℕ → Bool
reaches none n = false
reaches (some limit) n = leb limit n

abbrev is_stopped : ℕ → Option OutStream → Bool
is_stopped now none = false
is_stopped now (some o) =
    o.cancelled || (reaches o.max_frames o.frames || reaches o.max_duration (now - o.started_at))

-- Whether _StreamStop is raised.
unfoldable pub raise_if_stream_stopped : ℕ → Option String → Endpoint → Bool
unfolding lookup
raise_if_stream_stopped now none a = false
raise_if_stream_stopped now (some cid) a = is_stopped now (lookup cid a.out_streams)

-- message.reply_to or message.sender
abbrev pub reply_recipient : Message → String
reply_recipient m = elim m.reply_to [
  | none ↦ m.sender
  | some to ↦ if to == "" then m.sender else to
]

abbrev pub new_out_stream : ℕ → String → OutStream
new_out_stream now recipient = record {
  started_at = now;
  recipient = recipient;
  max_frames = none;
  max_duration = none;
  seq = 0;
  frames = 0;
  cancelled = false;
}

abbrev pub current_out : ℕ → Message → Option OutStream → OutStream
current_out now m none = new_out_stream now (reply_recipient m)
current_out now m (some o) = o

abbrev pub seq_of : Option OutStream → Option ℕ
seq_of none = none
seq_of (some o) = some o.seq

-- The sequence number of a frame, and the streams with the frame counted.
abbrev pub number_frame :
    ℕ → Message → String → Option String → Endpoint → Option ℕ × Dict String OutStream
number_frame now m kind none a = (none, a.out_streams)
number_frame now m kind (some cid) a =
    let o = current_out now m (lookup cid a.out_streams) in
    if kind == stream_chunk
    then (
      some o.seq,
      insert cid (record o { seq = suc o.seq; frames = suc o.frames }) a.out_streams,
    )
    else (seq_of (lookup cid a.out_streams), a.out_streams)

abbrev pub frame_of : Endpoint → Message → Payload → String → Option ℕ → Message
frame_of a m payload kind seq = record (blank "" 0) {
  type = kind;
  sender = a.name;
  recipient = reply_recipient m;
  payload = payload;
  correlation_id = m.correlation_id;
  seq = seq;
  trace_id = m.trace_id;
  parent_span_id = some m.span_id;
}

-- The stream is over after its terminator.
abbrev pub forget_out : String → Option String → Dict String OutStream → Dict String OutStream
forget_out kind none streams = streams
forget_out kind (some cid) streams =
    if (kind == stream_end) || (kind == stream_error) then erase cid streams else streams

-- Whether it ended without an exception, and the agent after it.
unfoldable pub emit_stream :
    (Message → Bool) → ℕ → Message → Payload → String → Endpoint → Bool × Endpoint
unfolding lookup insert erase
emit_stream routes now m payload kind a =
    let (seq, streams) = number_frame now m kind m.correlation_id a in
    let frame = frame_of a m payload kind seq in
    if not a.has_bus
    then (false, a)
    else if routes frame
    then (
      true,
      record a {
        out_streams = forget_out kind m.correlation_id streams;
        routed = frame ∷ a.routed;
      },
    )
    else (false, record a { out_streams = streams })

abbrev is_cancelled : Option OutStream → Bool
is_cancelled none = false
is_cancelled (some o) = o.cancelled

abbrev out_of : Option String → Dict String OutStream → Option OutStream
out_of none streams = none
out_of (some cid) streams = lookup cid streams

-- `m` is the message that is being handled.
unfoldable pub emit : (Message → Bool) → ℕ → Message → Payload → Endpoint → Bool × Endpoint
unfolding lookup emit_stream
emit routes now m payload a =
    if is_cancelled (out_of m.correlation_id a.out_streams)
    then (true, a)
    else emit_stream routes now m payload stream_chunk a

unfoldable pub finish_stream : (Message → Bool) → ℕ → Message → Endpoint → Bool × Endpoint
unfolding emit_stream
finish_stream routes now m a = emit_stream routes now m [] stream_end a

-- The entry of stream_reply.
abbrev pub open_reply : ℕ → Option String → Option ℕ → Option ℕ → Endpoint → Endpoint
open_reply now none frames duration a = a
open_reply now (some cid) frames duration a = record a {
  out_streams =
      insert cid (record (new_out_stream now "") { max_frames = frames; max_duration = duration })
        a.out_streams;
}

-- The consumer's side of `stream`, before the request and after the end.
unfoldable pub open_stream : String → String → ℕ → Endpoint → Endpoint
unfolding insert open_sink
open_stream cid recipient maxsize a = record a {
  pending_streams = insert cid (open_sink maxsize) a.pending_streams;
  stream_producers = insert cid recipient a.stream_producers;
}

unfoldable pub close_stream : String → Endpoint → Endpoint
unfolding erase
close_stream cid a = record a {
  pending_streams = erase cid a.pending_streams;
  stream_producers = erase cid a.stream_producers;
}

unfoldable pub fail_each :
    String → Dict String (StreamSink Payload) → Dict String (StreamSink Payload)
unfolding fail
fail_each reason [] = []
fail_each reason ((cid, sink) ∷ sinks) = (cid, fail reason sink) ∷ fail_each reason sinks

unfoldable pub fail_local_streams : String → Endpoint → Endpoint
unfolding fail_each
fail_local_streams reason a = record a { pending_streams = fail_each reason a.pending_streams }

abbrev pub interrupt_frame : String → String → OutStream → Message
interrupt_frame name cid o = record (blank "" 0) {
  type = stream_error;
  sender = name;
  recipient = o.recipient;
  payload = ("error", str "producer_stopped") ∷ [];
  correlation_id = some cid;
  seq = some o.seq;
}

-- Each stream with a recipient is told; one that cannot be routed does not stop the others.
unfoldable pub interrupt_each :
    (Message → Bool) → String → Dict String OutStream → List Message → List Message
interrupt_each routes name [] routed = routed
interrupt_each routes name ((cid, o) ∷ streams) routed = interrupt_each routes name streams (
    if not (o.recipient == "") && routes (interrupt_frame name cid o)
    then interrupt_frame name cid o ∷ routed
    else routed)

unfoldable pub interrupt_out_streams : (Message → Bool) → Endpoint → Endpoint
unfolding interrupt_each
interrupt_out_streams routes a =
    if not a.has_bus
    then a
    else record a { routed = interrupt_each routes a.name a.out_streams a.routed; out_streams = [] }
