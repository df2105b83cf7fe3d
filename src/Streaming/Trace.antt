-- ===== src/Streaming/Trace.antt =====
-- What frames, terminators and reads do to a StreamSink of streaming.py.
use python_civitas.Base.{
  ℕ, ◌+◌, ◌<◌, ◌≡◌, refl, ◌⊎◌, inl, inr, ap, sym, subst, true, false, Option, none, some, List, [],
  ◌∷◌, ◌++◌, String, arith, nat_eq,
}
use python_civitas.Streaming.{
  StreamSink, Item, chunk, finish, error, Outcome, waiting, yielded, returned, raised, open_sink,
  push, end_stream, fail, receive,
}
use python_civitas.Streaming.Sequence.{Frame}

-- What happens to a sink that a bus stream feeds: frames that carry sequence numbers, and reads.
pub data Event (P : Type 0) : Type 0 where
  arrives : ℕ → P → Event P
  ends : Option ℕ → Event P
  fails : String → Event P
  reads : Event P

-- The sink, and the payloads that its consumer was given, oldest first.
pub record Trace (P : Type 0) : Type 0 where
  pub sink : StreamSink P
  pub given : List P

module _ {P : Type 0} where
  abbrev pub give : Outcome P × StreamSink P → List P → Trace P
  give (yielded p, s) given = record { sink = s; given = given ++ p ∷ [] }
  give (waiting, s) given = record { sink = s; given = given }
  give (returned, s) given = record { sink = s; given = given }
  give (raised reason, s) given = record { sink = s; given = given }

  unfoldable pub act : Event P → Trace P → Trace P
  act (arrives i p) t = record t { sink = push p (some i) t.sink }
  act (ends total) t = record t { sink = end_stream total t.sink }
  act (fails reason) t = record t { sink = fail reason t.sink }
  act reads t = give (receive t.sink) t.given

  -- The trace of a history of events, newest first.
  unfoldable pub trace : ℕ → List (Event P) → Trace P
  trace maxsize [] = record { sink = open_sink maxsize; given = [] }
  trace maxsize (e ∷ es) = act e (trace maxsize es)

  -- The frames of a history, oldest first.
  abbrev pub arrived : List (Event P) → List (Frame P)
  arrived [] = []
  arrived (arrives i p ∷ es) = arrived es ++ (i, p) ∷ []
  arrived (ends total ∷ es) = arrived es
  arrived (fails reason ∷ es) = arrived es
  arrived (reads ∷ es) = arrived es

  abbrev pub payloads : List (Frame P) → List P
  payloads [] = []
  payloads ((i, p) ∷ fs) = p ∷ payloads fs

  -- The payloads that wait in a queue.
  abbrev pub waiting_payloads : List (Item P) → List P
  waiting_payloads [] = []
  waiting_payloads (chunk p ∷ xs) = p ∷ waiting_payloads xs
  waiting_payloads (finish ∷ xs) = waiting_payloads xs
  waiting_payloads (error reason ∷ xs) = waiting_payloads xs

  pub waiting_payloads-append :
      (xs ys : List (Item P))
      → waiting_payloads (xs ++ ys) ≡ waiting_payloads xs ++ waiting_payloads ys
  waiting_payloads-append [] ys = refl
  waiting_payloads-append (chunk q ∷ xs) ys = ap (λ zs. q ∷ zs) (waiting_payloads-append xs ys)
  waiting_payloads-append (finish ∷ xs) ys = waiting_payloads-append xs ys
  waiting_payloads-append (error reason ∷ xs) ys = waiting_payloads-append xs ys

  -- The ways in which a terminator, or a frame that is refused, changes a sink.
  pub data Closing (s : StreamSink P) : StreamSink P → Type 0 where
    kept : s.closed ≡ true → Closing s s
    finished :
        s.closed ≡ false → Closing s (record s { closed = true; queue = s.queue ++ finish ∷ [] })
    broken :
        (reason : String)
        → s.closed ≡ false
        → Closing s (record s { closed = true; queue = s.queue ++ error reason ∷ [] })

  -- The ways in which a chunk frame changes a sink.
  pub data Change (i : ℕ) (p : P) (s : StreamSink P) : StreamSink P → Type 0 where
    refused : {t : StreamSink P} → Closing s t → Change i p s t
    added :
        i ≡ s.next_seq
        → s.closed ≡ false
        → s.pending < s.maxsize
        → Change i p s (record s {
          next_seq = s.next_seq + 1;
          pending = s.pending + 1;
          queue = s.queue ++ chunk p ∷ [];
        })

  push_outcome :
      (i : ℕ) (p : P) (s : StreamSink P)
      → ((s.closed ≡ true) × (push p (some i) s ≡ s))
        ⊎ (((s.closed ≡ false)
              × (i ≡ s.next_seq)
              × (s.pending < s.maxsize)
              × (push p (some i) s ≡ record s {
                next_seq = s.next_seq + 1;
                pending = s.pending + 1;
                queue = s.queue ++ chunk p ∷ [];
              }))
            ⊎ (((s.closed ≡ false)
                  × (push p (some i) s
                      ≡ record s { closed = true; queue = s.queue ++ error "out_of_order" ∷ [] }))
                ⊎ ((s.closed ≡ false)
                    × (push p (some i) s ≡ record s {
                      closed = true;
                      queue = s.queue ++ error "slow_consumer" ∷ [];
                    }))))
  unfolding push
  push_outcome i p s = ground arith

  pub push-Change : (i : ℕ) (p : P) (s : StreamSink P) → Change i p s (push p (some i) s)
  push-Change i p s = elim (push_outcome i p s) [
    | inl (c, e) ↦ subst (Change i p s) (sym e) (refused (kept c))
    | inr (inl (c, next, room, e)) ↦ subst (Change i p s) (sym e) (added next c room)
    | inr (inr (inl (c, e))) ↦ subst (Change i p s) (sym e) (refused (broken "out_of_order" c))
    | inr (inr (inr (c, e))) ↦ subst (Change i p s) (sym e) (refused (broken "slow_consumer" c))
  ]

  end_outcome :
      (total : Option ℕ) (s : StreamSink P)
      → ((s.closed ≡ true) × (end_stream total s ≡ s))
        ⊎ (((s.closed ≡ false)
              × (end_stream total s ≡ record s { closed = true; queue = s.queue ++ finish ∷ [] }))
            ⊎ ((s.closed ≡ false)
                × (end_stream total s ≡ record s {
                  closed = true;
                  queue = s.queue ++ error "truncated_stream" ∷ [];
                })))
  unfolding end_stream
  end_outcome none s = ground arith
  end_outcome (some total) s = ground arith

  pub end-Closing : (total : Option ℕ) (s : StreamSink P) → Closing s (end_stream total s)
  end-Closing total s = elim (end_outcome total s) [
    | inl (c, e) ↦ subst (Closing s) (sym e) (kept c)
    | inr (inl (c, e)) ↦ subst (Closing s) (sym e) (finished c)
    | inr (inr (c, e)) ↦ subst (Closing s) (sym e) (broken "truncated_stream" c)
  ]

  fail_outcome :
      (reason : String) (s : StreamSink P)
      → ((s.closed ≡ true) × (fail reason s ≡ s))
        ⊎ ((s.closed ≡ false)
            × (fail reason s ≡ record s { closed = true; queue = s.queue ++ error reason ∷ [] }))
  unfolding fail
  fail_outcome reason s = ground arith

  pub fail-Closing : (reason : String) (s : StreamSink P) → Closing s (fail reason s)
  fail-Closing reason s = elim (fail_outcome reason s) [
    | inl (c, e) ↦ subst (Closing s) (sym e) (kept c)
    | inr (c, e) ↦ subst (Closing s) (sym e) (broken reason c)
  ]
