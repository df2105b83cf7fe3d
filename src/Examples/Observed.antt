-- ===== src/Examples/Observed.antt =====
-- Streams, heartbeats and spans with concrete values.
use python_civitas.Base.{
  arith, ℕ, ◌≡◌, refl, ◌≤◌, ◌<◌, true, none, some, [], ◌∷◌, String, string_eq,
}
use python_civitas.Base.Dict.{lookup, insert}
use python_civitas.Message.{Message, Payload, Value, str, blank}
use python_civitas.Streaming.{chunk, finish}
use python_civitas.Frames.{Endpoint, consume_stream_frame, open_stream, stream_chunk}
use python_civitas.Frames.Arrival.{stream_all, stream_arrives}
use python_civitas.Frames.Guards.{foreign_frame_ignored}
use python_civitas.Supervisor.Heartbeats.{Monitor, timed_out, failed, heartbeat}
use python_civitas.Supervisor.Heartbeats.Misses.{
  after_heartbeats, silence, reports, time_outs, silent_child_reported, report_needs_silence,
}
use python_civitas.Spans.{SpanData, SpanQueue, InMemorySpanStore, record_of, export}
use python_civitas.Spans.Bounds.{put_all, last_of, queue_keeps_newest, export_keeps_newest}

abbrev endpoint : String → Endpoint
endpoint name = record {
  name = name;
  has_bus = true;
  out_streams = [];
  pending_streams = [];
  stream_producers = [];
  routed = [];
}

abbrev show : Value → String
show value = "text"

abbrev one : Payload
one = ("token", str "a") ∷ []

abbrev two : Payload
two = ("token", str "b") ∷ []

stream_arrives_example :
    lookup "c"
      (stream_all show 5
        (record (blank "m" 1) { correlation_id = some "c" })
        (one ∷ two ∷ [])
        (endpoint "writer")
        (open_stream "c" "writer" 8 (endpoint "reader"))).pending_streams
    ≡ some (record {
      queue = chunk one ∷ chunk two ∷ finish ∷ [];
      maxsize = 8;
      pending = 2;
      closed = true;
      next_seq = 2;
    })
unfolding lookup
stream_arrives_example =
    stream_arrives show 5 "c" (blank "m" 1) (one ∷ two ∷ []) 8 (endpoint "writer")
      (endpoint "reader") refl refl (ground arith)

abbrev intruder : Message
intruder = record (blank "m" 1) {
  type = stream_chunk;
  sender = "intruder";
  correlation_id = some "c";
  payload = one;
}

foreign_frame_ignored_example :
    lookup "c"
      (consume_stream_frame show intruder
        (open_stream "c" "writer" 8 (endpoint "reader"))).1.pending_streams
    ≡ lookup "c" (open_stream "c" "writer" 8 (endpoint "reader")).pending_streams
unfolding lookup insert open_stream
foreign_frame_ignored_example =
    foreign_frame_ignored show intruder "c" (open_stream "c" "writer" 8 (endpoint "reader")) refl

abbrev monitor : Monitor
monitor = record {
  has_bus = true;
  registry = none;
  remote_children = "w" ∷ [];
  missed_heartbeats = ("w", 0) ∷ [];
  remote_child_config = ("w", record { interval = 5; timeout = 2; threshold = 2 }) ∷ [];
  crash_events = [];
}

silent_child_reported_example :
    reports "w" monitor.crash_events < reports "w" (time_outs 2 "w" monitor).crash_events
unfolding lookup
silent_child_reported_example = silent_child_reported "w" monitor (ground arith)

report_needs_silence_example :
    2 ≤ silence "w" (("w", timed_out) ∷ ("w", failed) ∷ ("w", timed_out) ∷ [])
unfolding lookup insert reports after_heartbeats heartbeat
report_needs_silence_example =
    report_needs_silence "w" "w" timed_out (("w", failed) ∷ ("w", timed_out) ∷ []) monitor refl
      (ground arith)

abbrev span : ℕ → SpanData
span time = record {
  name = "civitas.llm.chat";
  trace_id = "t";
  span_id = "s";
  parent_span_id = none;
  start_time = time;
  end_time = time;
  attributes = [];
  status = "ok";
  error_message = none;
}

abbrev store : InMemorySpanStore
store = record { maxsize = 2; spans = record_of (span 3) ∷ record_of (span 90) ∷ [] }

abbrev queue : SpanQueue
queue = record { maxsize = 2; queue = span 1 ∷ [] }

queue_keeps_newest_example :
    (put_all (span 2 ∷ span 3 ∷ []) queue).queue ≡ last_of 2 (span 1 ∷ span 2 ∷ span 3 ∷ [])
queue_keeps_newest_example =
    queue_keeps_newest (span 2 ∷ span 3 ∷ []) queue (ground arith) (ground arith)

export_keeps_newest_example :
    (export (span 95 ∷ []) store).spans
    ≡ last_of 2 (record_of (span 3) ∷ record_of (span 90) ∷ record_of (span 95) ∷ [])
export_keeps_newest_example = export_keeps_newest (span 95 ∷ []) store (ground arith)
