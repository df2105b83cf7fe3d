-- ===== src/Streaming/Buffer.antt =====
-- The invariant of the buffer of a StreamSink of streaming.py.
use python_civitas.Base.{
  ℕ, ◌≤◌, ◌≡◌, refl, ◌⊎◌, inl, inr, ap, sym, subst, true, false, List, [], ◌∷◌, ◌++◌, String, arith,
  length, append-nil, append_assoc, nat_eq, length-append,
}
use python_civitas.Streaming.{StreamSink, Item, chunk, finish, error, open_sink, receive, consume}
use python_civitas.Streaming.Trace.{
  Event, arrives, ends, fails, reads, Trace, give, act, trace, waiting_payloads,
  waiting_payloads-append, Closing, kept, finished, broken, Change, refused, added, push-Change,
  end-Closing, fail-Closing,
}

module _ {P : Type 0} where
  -- Chunks only; chunks with at most one terminator, which stands last.
  abbrev pub AllChunks : List (Item P) → Type 0
  AllChunks [] = Unit
  AllChunks (chunk p ∷ xs) = AllChunks xs
  AllChunks (finish ∷ xs) = ⊥
  AllChunks (error reason ∷ xs) = ⊥

  abbrev pub IsTerminated : List (Item P) → Type 0
  IsTerminated [] = Unit
  IsTerminated (chunk p ∷ xs) = IsTerminated xs
  IsTerminated (finish ∷ xs) = xs ≡ []
  IsTerminated (error reason ∷ xs) = xs ≡ []

  pub record IsBuffer (s : StreamSink P) : Type 0 where
    pub counted : s.pending ≡ length (waiting_payloads s.queue)
    pub bounded : s.pending ≤ s.maxsize
    pub chunks_only : (s.closed ≡ true) ⊎ AllChunks s.queue
    pub terminated : IsTerminated s.queue

  while_open : {s : StreamSink P} → IsBuffer s → s.closed ≡ false → AllChunks s.queue
  while_open v alive = elim v.chunks_only [ inl c ↦ absurd (cc) | inr h ↦ h ]

  AllChunks-append : (xs : List (Item P)) (p : P) → AllChunks xs → AllChunks (xs ++ chunk p ∷ [])
  AllChunks-append [] p h = tt
  AllChunks-append (chunk q ∷ xs) p h = AllChunks-append xs p h
  AllChunks-append (finish ∷ xs) p h = elim h [ ]
  AllChunks-append (error reason ∷ xs) p h = elim h [ ]

  AllChunks-IsTerminated : (xs : List (Item P)) → AllChunks xs → IsTerminated xs
  AllChunks-IsTerminated [] h = tt
  AllChunks-IsTerminated (chunk q ∷ xs) h = AllChunks-IsTerminated xs h
  AllChunks-IsTerminated (finish ∷ xs) h = elim h [ ]
  AllChunks-IsTerminated (error reason ∷ xs) h = elim h [ ]

  finish-IsTerminated : (xs : List (Item P)) → AllChunks xs → IsTerminated (xs ++ finish ∷ [])
  finish-IsTerminated [] h = refl
  finish-IsTerminated (chunk q ∷ xs) h = finish-IsTerminated xs h
  finish-IsTerminated (finish ∷ xs) h = elim h [ ]
  finish-IsTerminated (error reason ∷ xs) h = elim h [ ]

  error-IsTerminated :
      (reason : String) (xs : List (Item P)) → AllChunks xs → IsTerminated (xs ++ error reason ∷ [])
  error-IsTerminated reason [] h = refl
  error-IsTerminated reason (chunk q ∷ xs) h = error-IsTerminated reason xs h
  error-IsTerminated reason (finish ∷ xs) h = elim h [ ]
  error-IsTerminated reason (error why ∷ xs) h = elim h [ ]

  Closing-IsBuffer : {s t : StreamSink P} → Closing s t → IsBuffer s → IsBuffer t
  Closing-IsBuffer (kept c) v = v
  Closing-IsBuffer {s} (finished alive) v = record {
    counted =
        rw (waiting_payloads-append s.queue (finish ∷ []), append-nil (waiting_payloads s.queue))
          v.counted;
    bounded = v.bounded;
    chunks_only = inl refl;
    terminated = finish-IsTerminated s.queue (while_open v alive);
  }
  Closing-IsBuffer {s} (broken reason alive) v = record {
    counted =
        rw
          (
            waiting_payloads-append s.queue (error reason ∷ []),
            append-nil (waiting_payloads s.queue),
          )
          v.counted;
    bounded = v.bounded;
    chunks_only = inl refl;
    terminated = error-IsTerminated reason s.queue (while_open v alive);
  }

  Change-IsBuffer : {i : ℕ} {p : P} {s t : StreamSink P} → Change i p s t → IsBuffer s → IsBuffer t
  Change-IsBuffer (refused c) v = Closing-IsBuffer c v
  Change-IsBuffer {p = p} {s = s} (added e alive room) v = record {
    counted =
        grind (arith, waiting_payloads-append s.queue (chunk p ∷ []), length-append, v.counted);
    bounded = omega arith;
    chunks_only = inr (AllChunks-append s.queue p (while_open v alive));
    terminated =
        AllChunks-IsTerminated (s.queue ++ chunk p ∷ [])
          (AllChunks-append s.queue p (while_open v alive));
  }

  -- What a read takes from the front of the queue.
  pub record IsRead (s t : StreamSink P) (given given' : List P) : Type 0 where
    pub same_bound : t.maxsize ≡ s.maxsize
    pub same_closed : t.closed ≡ s.closed
    pub same_next : t.next_seq ≡ s.next_seq
    pub conserved : given' ++ waiting_payloads t.queue ≡ given ++ waiting_payloads s.queue

  consume-IsRead :
      (s : StreamSink P) (xs : List (Item P)) (given : List P)
      → s.queue ≡ xs
      → IsRead s (give (consume s xs) given).sink given (give (consume s xs) given).given
  consume-IsRead s [] given e = record {
    same_bound = refl;
    same_closed = refl;
    same_next = refl;
    conserved = refl;
  }
  consume-IsRead s (chunk p ∷ xs) given e = record {
    same_bound = refl;
    same_closed = refl;
    same_next = refl;
    conserved = rw e (append_assoc given (p ∷ []) (waiting_payloads xs));
  }
  consume-IsRead s (finish ∷ xs) given e = record {
    same_bound = refl;
    same_closed = refl;
    same_next = refl;
    conserved = rw e;
  }
  consume-IsRead s (error reason ∷ xs) given e = record {
    same_bound = refl;
    same_closed = refl;
    same_next = refl;
    conserved = rw e;
  }

  consume-IsBuffer :
      (s : StreamSink P) (xs : List (Item P)) (given : List P)
      → s.queue ≡ xs
      → IsBuffer s
      → IsBuffer (give (consume s xs) given).sink
  consume-IsBuffer s [] given e v = v
  consume-IsBuffer s (chunk p ∷ xs) given e v = record {
    counted = omega (arith, ap (λ q. length (waiting_payloads q)) e, v.counted);
    bounded = omega (arith, v.bounded);
    chunks_only = elim v.chunks_only [ inl c ↦ inl c | inr h ↦ inr (subst AllChunks e h) ];
    terminated = subst IsTerminated e v.terminated;
  }
  consume-IsBuffer s (finish ∷ xs) given e v = record {
    counted = omega (arith, ap (λ q. length (waiting_payloads q)) e, v.counted);
    bounded = v.bounded;
    chunks_only = elim v.chunks_only [ inl c ↦ inl c | inr h ↦ absurd (subst AllChunks e h) ];
    terminated = subst IsTerminated (sym (subst IsTerminated e v.terminated)) tt;
  }
  consume-IsBuffer s (error reason ∷ xs) given e v = record {
    counted = omega (arith, ap (λ q. length (waiting_payloads q)) e, v.counted);
    bounded = v.bounded;
    chunks_only = elim v.chunks_only [ inl c ↦ inl c | inr h ↦ absurd (subst AllChunks e h) ];
    terminated = subst IsTerminated (sym (subst IsTerminated e v.terminated)) tt;
  }

  pub front_taken : (t : Trace P) → IsRead t.sink (act reads t).sink t.given (act reads t).given
  unfolding act receive
  front_taken t = consume-IsRead t.sink t.sink.queue t.given refl

  act-IsBuffer : (e : Event P) (t : Trace P) → IsBuffer t.sink → IsBuffer (act e t).sink
  unfolding act receive
  act-IsBuffer (arrives i p) t v = Change-IsBuffer (push-Change i p t.sink) v
  act-IsBuffer (ends total) t v = Closing-IsBuffer (end-Closing total t.sink) v
  act-IsBuffer (fails reason) t v = Closing-IsBuffer (fail-Closing reason t.sink) v
  act-IsBuffer reads t v = consume-IsBuffer t.sink t.sink.queue t.given refl v

  -- In every history of frames, terminators and reads the count of unread chunks is right and never
  -- above `maxsize`, an open sink holds chunks only, and a closed one holds at most one terminator,
  -- behind its chunks.
  pub trace-IsBuffer : (maxsize : ℕ) (es : List (Event P)) → IsBuffer (trace maxsize es).sink
  unfolding trace open_sink
  trace-IsBuffer maxsize [] = record {
    counted = refl;
    bounded = omega arith;
    chunks_only = inr tt;
    terminated = tt;
  }
  trace-IsBuffer maxsize (e ∷ es) = act-IsBuffer e (trace maxsize es) (trace-IsBuffer maxsize es)
