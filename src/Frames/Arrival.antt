-- ===== src/Frames/Arrival.antt =====
-- What a producer of civitas/process.py emits, a consumer gets.
use python_civitas.Base.{
  ℕ, suc, ◌+◌, ◌≤◌, ◌<◌, ◌≡◌, refl, sym, ap, ◌∙◌, true, false, Option, none, some, List, [], ◌∷◌,
  ◌++◌, map, String, arith, nat_eq, string_eq, nat_beq_iff, length, append-nil, append_assoc,
}
use python_civitas.Base.Dict.{lookup, insert, lookup-insert_self}
use python_civitas.Message.{Value, Payload, Message}
use python_civitas.Streaming.{StreamSink, Item, chunk, finish, push, end_stream, open_sink}
use python_civitas.Frames.{
  Endpoint, OutStream, consume_stream_frame, emit, emit_stream, finish_stream, frame_of,
  stream_chunk, stream_end, open_stream, current_out, seq_of, set_sink,
}

-- The newest frame is delivered before the next is emitted.
abbrev pub newest_to : (Value → String) → List Message → Endpoint → Endpoint
newest_to show [] b = b
newest_to show (frame ∷ frames) b = (consume_stream_frame show frame b).1

-- Over a bus that takes every frame a producer emits payloads and ends the stream; the consumer after
-- that.
unfoldable pub stream_all :
    (Value → String) → ℕ → Message → List Payload → Endpoint → Endpoint → Endpoint
stream_all show now m [] a b = newest_to show (finish_stream (λ frame. true) now m a).1.routed b
stream_all show now m (p ∷ ps) a b =
    let sent = (emit (λ frame. true) now m p a).1 in
    stream_all show now m ps sent (newest_to show sent.routed b)

-- The producer is about to send the frame with number k.
abbrev IsAt : ℕ → Option OutStream → Type 0
IsAt k none = k ≡ 0
IsAt k (some o) = (o.seq ≡ k) × (o.cancelled ≡ false)

-- A sink that took k chunks and is open.
abbrev sink_at : ℕ → ℕ → List (Item Payload) → StreamSink Payload
sink_at maxsize k queue = record {
  queue = queue;
  maxsize = maxsize;
  pending = k;
  closed = false;
  next_seq = k;
}

module _ (show : Value → String) (now : ℕ) (cid : String) (request : Message) where
  abbrev asked : Message
  asked = record request { correlation_id = some cid }

  -- The producer after a chunk.
  abbrev after_chunk : Payload → OutStream → Endpoint → Endpoint
  after_chunk p o a = record a {
    out_streams = insert cid (record o { seq = suc o.seq; frames = suc o.frames }) a.out_streams;
    routed = frame_of a asked p stream_chunk (some o.seq) ∷ a.routed;
  }

  emit-frame :
      (k : ℕ) (p : Payload) (found : Option OutStream) (a : Endpoint)
      → a.has_bus ≡ true
      → lookup cid a.out_streams ≡ found
      → IsAt k found
      → emit (λ frame. true) now asked p a ≡ (true, after_chunk p (current_out now asked found) a)
  unfolding emit emit_stream
  emit-frame k p none a bus h at = simp (h, bus) refl
  emit-frame k p (some o) a bus h at = simp (h, at.1, bus) refl

  seq_now :
      (k : ℕ) (found : Option OutStream) → IsAt k found → (current_out now asked found).seq ≡ k
  seq_now k none at = sym at
  seq_now k (some o) at = at.0

  still_open :
      (k : ℕ) (found : Option OutStream)
      → IsAt k found
      → (current_out now asked found).cancelled ≡ false
  still_open k none at = refl
  still_open k (some o) at = at.1

  -- The consumer has an open sink for this stream, fed by the producer.
  abbrev Awaits : Endpoint → Endpoint → StreamSink Payload → Type 0
  Awaits a b sink =
      (lookup cid b.pending_streams ≡ some sink) × (lookup cid b.stream_producers ≡ some a.name)

  push-chunk :
      (maxsize k : ℕ) (queue : List (Item Payload)) (p : Payload)
      → k < maxsize
      → push p (some k) (sink_at maxsize k queue) ≡ sink_at maxsize (suc k) (queue ++ chunk p ∷ [])
  unfolding push
  push-chunk maxsize k queue p room = ground (arith, room, nat_beq_iff k k)

  consume_chunk :
      (maxsize k : ℕ) (queue : List (Item Payload)) (p : Payload) (a b : Endpoint)
      → k < maxsize
      → Awaits a b (sink_at maxsize k queue)
      → (consume_stream_frame show (frame_of a asked p stream_chunk (some k)) b).1
        ≡ set_sink cid (sink_at maxsize (suc k) (queue ++ chunk p ∷ [])) b
  unfolding consume_stream_frame
  consume_chunk maxsize k queue p a b room h =
      simp (h.0, h.1, (string_eq.same_iff a.name a.name).1 refl)
        (ap (λ sink. set_sink cid sink b) (push-chunk maxsize k queue p room))

  -- The sink after the terminator.
  abbrev ended : ℕ → ℕ → List (Item Payload) → StreamSink Payload
  ended maxsize k queue = record (sink_at maxsize k (queue ++ finish ∷ [])) { closed = true }

  end-frame :
      (k : ℕ) (found : Option OutStream) (a : Endpoint)
      → a.has_bus ≡ true
      → lookup cid a.out_streams ≡ found
      → (finish_stream (λ frame. true) now asked a).1.routed
        ≡ frame_of a asked [] stream_end (seq_of found) ∷ a.routed
  unfolding finish_stream emit_stream
  end-frame k found a bus h = simp (h, bus) refl

  consume_end :
      (maxsize k : ℕ) (queue : List (Item Payload)) (found : Option OutStream) (a b : Endpoint)
      → IsAt k found
      → Awaits a b (sink_at maxsize k queue)
      → lookup cid
          (consume_stream_frame show
            (frame_of a asked [] stream_end (seq_of found))
            b).1.pending_streams
        ≡ some (ended maxsize k queue)
  unfolding consume_stream_frame end_stream
  consume_end maxsize k queue none a b at h =
      simp (h.0, h.1, (string_eq.same_iff a.name a.name).1 refl)
        (lookup-insert_self cid (ended maxsize k queue) b.pending_streams)
  consume_end maxsize k queue (some o) a b at h =
      simp (h.0, h.1, at.0, (string_eq.same_iff a.name a.name).1 refl, (nat_beq_iff k k).1 refl)
        (lookup-insert_self cid (ended maxsize k queue) b.pending_streams)

  one_frame :
      (maxsize k : ℕ) (queue : List (Item Payload)) (p : Payload) (ps : List Payload)
      (found : Option OutStream) (a b : Endpoint)
      → a.has_bus ≡ true
      → lookup cid a.out_streams ≡ found
      → IsAt k found
      → k < maxsize
      → Awaits a b (sink_at maxsize k queue)
      → stream_all show now asked (p ∷ ps) a b
        ≡ stream_all show now asked ps
            (after_chunk p (current_out now asked found) a)
            (set_sink cid (sink_at maxsize (suc k) (queue ++ chunk p ∷ [])) b)
  unfolding stream_all
  one_frame maxsize k queue p ps found a b bus out at room h =
      ap (λ r. stream_all show now asked ps r.1 (newest_to show r.1.routed b))
        (emit-frame k p found a bus out at)
      ∙ ap (λ c. stream_all show now asked ps (after_chunk p (current_out now asked found) a) c)
          (ap (λ j. (consume_stream_frame show (frame_of a asked p stream_chunk (some j)) b).1)
              (seq_now k found at)
            ∙ consume_chunk maxsize k queue p a b room h)

  arrives :
      (maxsize k : ℕ) (queue : List (Item Payload)) (ps : List Payload) (found : Option OutStream)
      (a b : Endpoint)
      → a.has_bus ≡ true
      → lookup cid a.out_streams ≡ found
      → IsAt k found
      → k + length ps ≤ maxsize
      → Awaits a b (sink_at maxsize k queue)
      → lookup cid (stream_all show now asked ps a b).pending_streams
        ≡ some (ended maxsize (k + length ps) (queue ++ map chunk ps))
  unfolding stream_all
  arrives maxsize k queue [] found a b bus out at room h =
      let same : k ≡ k + 0 = omega arith in
      ap (λ frames. lookup cid (newest_to show frames b).pending_streams)
        (end-frame k found a bus out)
      ∙ consume_end maxsize k queue found a b at h
      ∙ ap (λ j. some (ended maxsize j queue)) same
      ∙ ap (λ q. some (ended maxsize (k + 0) q)) (sym (append-nil queue))
  arrives maxsize k queue (p ∷ ps) found a b bus out at room h =
      let o = current_out now asked found in
      let next = record o { seq = suc o.seq; frames = suc o.frames } in
      let fed = sink_at maxsize (suc k) (queue ++ chunk p ∷ []) in
      let same : suc k + length ps ≡ k + suc (length ps) = omega arith in
      ap (λ c. lookup cid c.pending_streams)
        (one_frame maxsize k queue p ps found a b bus out at (omega (arith, room)) h)
      ∙ arrives maxsize (suc k) (queue ++ chunk p ∷ []) ps (some next) (after_chunk p o a)
          (set_sink cid fed b) bus (lookup-insert_self cid next a.out_streams)
          (ap suc (seq_now k found at), still_open k found at) (omega (arith, room, same))
          (lookup-insert_self cid fed b.pending_streams, h.1)
      ∙ ap (λ j. some (ended maxsize j ((queue ++ chunk p ∷ []) ++ map chunk ps))) same
      ∙ ap (λ q. some (ended maxsize (k + suc (length ps)) q))
          (append_assoc queue (chunk p ∷ []) (map chunk ps))

-- An agent asks another for a stream, with a sink of a size for all payloads. The other, which is
-- wired to a bus that takes everything and has no stream of this identifier, emits the payloads and
-- ends the stream, and each frame is delivered before the next is emitted. Then the sink holds
-- exactly the payloads in their order and the end, and has seen no gap.
pub stream_arrives :
    (show : Value → String) (now : ℕ) (cid : String) (request : Message) (ps : List Payload)
    (maxsize : ℕ) (a b : Endpoint)
    → a.has_bus ≡ true
    → lookup cid a.out_streams ≡ none
    → length ps ≤ maxsize
    → lookup cid
        (stream_all show now
          (record request { correlation_id = some cid })
          ps
          a
          (open_stream cid a.name maxsize b)).pending_streams
      ≡ some (record {
        queue = map chunk ps ++ finish ∷ [];
        maxsize = maxsize;
        pending = length ps;
        closed = true;
        next_seq = length ps;
      })
unfolding open_stream open_sink
stream_arrives show now cid request ps maxsize a b bus free room =
    let none_before : 0 + length ps ≡ length ps = omega arith in
    arrives show now cid request maxsize 0 [] ps none a (open_stream cid a.name maxsize b) bus free
      refl (omega (arith, room))
      (
        lookup-insert_self cid (open_sink maxsize) b.pending_streams,
        lookup-insert_self cid a.name b.stream_producers,
      )
    ∙ ap
        (λ n. some (record {
          queue = map chunk ps ++ finish ∷ [];
          maxsize = maxsize;
          pending = n;
          closed = true;
          next_seq = n;
        }))
        none_before
