-- ===== src/Frames/Guards.antt =====
-- Whose frames reach a sink of civitas/process.py.
use python_civitas.Base.{
  ◌≡◌, refl, Bool, true, false, Option, none, some, String, arith, ◌==◌, string_eq, if◌then◌else◌,
  Bool-cases, inl, inr,
}
use python_civitas.Base.Dict.{lookup, insert, lookup-insert}
use python_civitas.Message.{Value, Message, Payload}
use python_civitas.Streaming.{StreamSink}
use python_civitas.Frames.{
  Endpoint, OutStream, consume_stream_frame, consume_for, consume_with, cancel_out, feed,
  is_producer, stream_cancel,
}

module _ (show : Value → String) (m : Message) (cid : String) where
  set_other :
      (other : String) (sink : StreamSink Payload) (a : Endpoint)
      → is_producer m.sender (lookup cid a.stream_producers) ≡ false
      → is_producer m.sender (lookup other a.stream_producers) ≡ true
      → lookup cid (insert other sink a.pending_streams) ≡ lookup cid a.pending_streams
  set_other other sink a foreign own = ground (
    arith,
    foreign,
    own,
    lookup-insert other cid sink a.pending_streams,
    string_eq.same_iff other cid,
  )

  consume_for-other :
      (other : String) (found : Option (StreamSink Payload)) (a : Endpoint)
      → is_producer m.sender (lookup cid a.stream_producers) ≡ false
      → lookup cid (consume_for show m other found a).1.pending_streams
        ≡ lookup cid a.pending_streams
  consume_for-other other none a foreign = refl
  consume_for-other other (some sink) a foreign =
      elim (Bool-cases (is_producer m.sender (lookup other a.stream_producers))) [
        | inl own ↦ simp (own) (set_other other (feed show m sink) a foreign own)
        | inr not_own ↦ simp (not_own) refl
      ]

  cancel_out-pending :
      (other : String) (found : Option OutStream) (a : Endpoint)
      → (cancel_out other found a).1.pending_streams ≡ a.pending_streams
  cancel_out-pending other none a = refl
  cancel_out-pending other (some o) a = refl

  consume_with-other :
      (cid_of : Option String) (a : Endpoint)
      → is_producer m.sender (lookup cid a.stream_producers) ≡ false
      → lookup cid (consume_with show m cid_of a).1.pending_streams ≡ lookup cid a.pending_streams
  consume_with-other none a foreign = refl
  consume_with-other (some other) a foreign =
      by_type (m.type == stream_cancel)
        (consume_for-other other (lookup other a.pending_streams) a foreign)
    where
      by_type :
          (c : Bool)
          → lookup cid
              (consume_for show m other (lookup other a.pending_streams) a).1.pending_streams
            ≡ lookup cid a.pending_streams
          → lookup cid
              (if c
                then cancel_out other (lookup other a.out_streams) a
                else consume_for show m other (lookup other a.pending_streams) a).1.pending_streams
            ≡ lookup cid a.pending_streams
      by_type true h = ground (arith, cancel_out-pending other (lookup other a.out_streams) a)
      by_type false h = h

-- A frame of whatever type and for whatever stream changes nothing of a sink whose producer is not the
-- sender of the frame.
pub foreign_frame_ignored :
    (show : Value → String) (m : Message) (cid : String) (a : Endpoint)
    → is_producer m.sender (lookup cid a.stream_producers) ≡ false
    → lookup cid (consume_stream_frame show m a).1.pending_streams ≡ lookup cid a.pending_streams
unfolding consume_stream_frame
foreign_frame_ignored show m cid a foreign =
    consume_with-other show m cid m.correlation_id a foreign
