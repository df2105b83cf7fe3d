-- ===== src/Streaming/Delivery.antt =====
-- What the consumer of a StreamSink of streaming.py receives.
use python_civitas.Base.{
  ℕ, ◌+◌, ◌≡◌, refl, ◌⊎◌, inl, inr, ap, sym, subst, ◌∙◌, true, false, List, [], ◌∷◌, ◌++◌, arith,
  length, append-nil, append_assoc, nat_eq, length-append,
}
use python_civitas.Streaming.{StreamSink, chunk, finish, error, open_sink}
use python_civitas.Streaming.Sequence.{Frame, IsRun}
use python_civitas.Streaming.Trace.{
  Event, arrives, ends, fails, reads, Trace, act, trace, arrived, payloads, waiting_payloads,
  waiting_payloads-append, Closing, kept, finished, broken, Change, refused, added, push-Change,
  end-Closing, fail-Closing,
}
use python_civitas.Streaming.Buffer.{front_taken}

module _ {P : Type 0} where
  -- Of the frames that arrived, `taken` is what the sink took and `rest` what it refused.
  pub record IsFaithful (frames : List (Frame P)) (t : Trace P) : Type 0 where
    pub taken : List (Frame P)
    pub rest : List (Frame P)
    pub split : frames ≡ taken ++ rest
    pub numbered : IsRun 0 taken
    pub next : t.sink.next_seq ≡ length taken
    pub delivered : t.given ++ waiting_payloads t.sink.queue ≡ payloads taken
    pub complete : (t.sink.closed ≡ true) ⊎ (rest ≡ [])

  while_open :
      {frames : List (Frame P)} {t : Trace P} (f : IsFaithful frames t)
      → t.sink.closed ≡ false
      → f.rest ≡ []
  while_open f alive = elim f.complete [ inl c ↦ absurd (cc) | inr h ↦ h ]

  payloads-append :
      (fs : List (Frame P)) (i : ℕ) (p : P) → payloads (fs ++ (i, p) ∷ []) ≡ payloads fs ++ p ∷ []
  payloads-append [] i p = refl
  payloads-append ((j, q) ∷ fs) i p = ap (λ ps. q ∷ ps) (payloads-append fs i p)

  IsRun-append :
      (k : ℕ) (fs : List (Frame P)) (i : ℕ) (p : P)
      → IsRun k fs
      → i ≡ k + length fs
      → IsRun k (fs ++ (i, p) ∷ [])
  IsRun-append k [] i p h e = (omega arith, tt)
  IsRun-append k ((j, q) ∷ fs) i p h e = (h.0, IsRun-append (k + 1) fs i p h.1 (omega arith))

  -- A terminator changes neither the chunks of the queue nor what was given.
  terminator_delivers :
      {s t : StreamSink P}
      → Closing s t
      → (t.next_seq ≡ s.next_seq)
        × (waiting_payloads t.queue ≡ waiting_payloads s.queue)
        × (t.closed ≡ true)
  terminator_delivers (kept c) = (refl, refl, c)
  terminator_delivers {s} (finished c) = (
    refl,
    waiting_payloads-append s.queue (finish ∷ []) ∙ append-nil (waiting_payloads s.queue),
    refl,
  )
  terminator_delivers {s} (broken reason c) = (
    refl,
    waiting_payloads-append s.queue (error reason ∷ []) ∙ append-nil (waiting_payloads s.queue),
    refl,
  )

  Closing-IsFaithful :
      (frames more : List (Frame P)) (given : List P) {s t : StreamSink P}
      → Closing s t
      → IsFaithful frames (record { sink = s; given = given })
      → IsFaithful (frames ++ more) (record { sink = t; given = given })
  Closing-IsFaithful frames more given c f = record {
    taken = f.taken;
    rest = f.rest ++ more;
    split = ap (λ fs. fs ++ more) f.split ∙ append_assoc f.taken f.rest more;
    numbered = f.numbered;
    next = (terminator_delivers c).0 ∙ f.next;
    delivered = ap (λ ps. given ++ ps) (terminator_delivers c).1 ∙ f.delivered;
    complete = inl (terminator_delivers c).2;
  }

  arrival-IsFaithful :
      (frames : List (Frame P)) (i : ℕ) (p : P) (given : List P) {s t : StreamSink P}
      → Change i p s t
      → IsFaithful frames (record { sink = s; given = given })
      → IsFaithful (frames ++ (i, p) ∷ []) (record { sink = t; given = given })
  arrival-IsFaithful frames i p given (refused c) f =
      Closing-IsFaithful frames ((i, p) ∷ []) given c f
  arrival-IsFaithful frames i p given {s = s} (added e alive room) f = record {
    taken = f.taken ++ (i, p) ∷ [];
    rest = [];
    split =
        ap (λ fs. fs ++ (i, p) ∷ [])
          (f.split ∙ ap (λ r. f.taken ++ r) (while_open f alive) ∙ append-nil f.taken)
        ∙ sym (append-nil (f.taken ++ (i, p) ∷ []));
    numbered = IsRun-append 0 f.taken i p f.numbered (omega (arith, f.next));
    next = omega (arith, f.next, length-append f.taken ((i, p) ∷ []));
    delivered = rw (
      waiting_payloads-append s.queue (chunk p ∷ []),
      ← append_assoc given (waiting_payloads s.queue) (p ∷ []),
      f.delivered,
      payloads-append f.taken i p,
    );
    complete = inr refl;
  }

  act-IsFaithful :
      (e : Event P) (es : List (Event P)) (t : Trace P)
      → IsFaithful (arrived es) t
      → IsFaithful (arrived (e ∷ es)) (act e t)
  unfolding act
  act-IsFaithful (arrives i p) es t f =
      arrival-IsFaithful (arrived es) i p t.given (push-Change i p t.sink) f
  act-IsFaithful (ends total) es t f =
      subst (λ fs. IsFaithful fs (act (ends total) t)) (append-nil (arrived es))
        (Closing-IsFaithful (arrived es) [] t.given (end-Closing total t.sink) f)
  act-IsFaithful (fails reason) es t f =
      subst (λ fs. IsFaithful fs (act (fails reason) t)) (append-nil (arrived es))
        (Closing-IsFaithful (arrived es) [] t.given (fail-Closing reason t.sink) f)
  act-IsFaithful reads es t f =
      let r = front_taken t in
      record {
        taken = f.taken;
        rest = f.rest;
        split = f.split;
        numbered = f.numbered;
        next = r.same_next ∙ f.next;
        delivered = r.conserved ∙ f.delivered;
        complete = elim f.complete [ inl c ↦ inl (r.same_closed ∙ c) | inr h ↦ inr h ];
      }

  -- However chunk frames, terminators and reads interleave, what the consumer was given and what
  -- still waits for it are together the payloads of a first part of the frames that arrived, and
  -- these are numbered 0, 1, 2 and so on without gap; while the sink is open that part is all of them.
  pub trace-IsFaithful :
      (maxsize : ℕ) (es : List (Event P)) → IsFaithful (arrived es) (trace maxsize es)
  unfolding trace open_sink
  trace-IsFaithful maxsize [] = record {
    taken = [];
    rest = [];
    split = refl;
    numbered = tt;
    next = refl;
    delivered = refl;
    complete = inr refl;
  }
  trace-IsFaithful maxsize (e ∷ es) =
      act-IsFaithful e es (trace maxsize es) (trace-IsFaithful maxsize es)
