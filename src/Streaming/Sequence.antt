-- ===== src/Streaming/Sequence.antt =====
-- Sequence integrity of StreamSink in streaming.py, without and with a consumer in between.
use python_civitas.Base.{
  ℕ, ◌+◌, ◌≤◌, ◌<◌, ◌≡◌, refl, ◌≢◌, ◌⊎◌, inl, inr, sym, subst, ◌∙◌, true, false, Option, none, some,
  List, [], ◌∷◌, ◌++◌, arith, length, append-nil, append_assoc, nat_eq,
}
use python_civitas.Streaming.{StreamSink, Item, chunk, finish, error, open_sink, push, end_stream}

-- A chunk frame with its sequence number.
abbrev pub Frame : Type 0 → Type 0
Frame P = ℕ × P

module _ {P : Type 0} where
  -- The frames are numbered k, k + 1, k + 2 and so on.
  abbrev pub IsRun : ℕ → List (Frame P) → Type 0
  IsRun k [] = Unit
  IsRun k ((i, p) ∷ fs) = (i ≡ k) × IsRun (k + 1) fs

  -- The payloads as the queue holds them.
  abbrev pub chunks : List (Frame P) → List (Item P)
  chunks [] = []
  chunks ((i, p) ∷ fs) = chunk p ∷ chunks fs

  unfoldable pub push_all : List (Frame P) → StreamSink P → StreamSink P
  push_all [] s = s
  push_all ((i, p) ∷ fs) s = push_all fs (push p (some i) s)

  abbrev pub last_item : List (Item P) → Option (Item P)
  last_item [] = none
  last_item (x ∷ []) = some x
  last_item (x ∷ y ∷ ys) = last_item (y ∷ ys)

  last_item-append : (xs : List (Item P)) (x : Item P) → last_item (xs ++ x ∷ []) ≡ some x
  last_item-append [] x = refl
  last_item-append (y ∷ []) x = refl
  last_item-append (y ∷ z ∷ zs) x = last_item-append (z ∷ zs) x

  push_cases :
      (p : P) (i : ℕ) (s : StreamSink P)
      → s.closed ≡ false
      → s.pending ≤ s.maxsize
      → ((i ≡ s.next_seq)
          × (s.pending < s.maxsize)
          × (push p (some i) s ≡ record s {
            next_seq = s.next_seq + 1;
            pending = s.pending + 1;
            queue = s.queue ++ chunk p ∷ [];
          }))
        ⊎ (((i ≢ s.next_seq) ⊎ (s.pending ≡ s.maxsize))
            × ((push p (some i) s).closed ≡ true)
            × (last_item (push p (some i) s).queue ≢ some finish))
  unfolding push
  push_cases p i s alive fits = ground (
    arith,
    last_item-append s.queue (error "out_of_order"),
    last_item-append s.queue (error "slow_consumer"),
  )

  push_closed : (p : P) (i : ℕ) (s : StreamSink P) → s.closed ≡ true → push p (some i) s ≡ s
  unfolding push
  push_closed p i s h = ground arith

  push_all_closed : (fs : List (Frame P)) (s : StreamSink P) → s.closed ≡ true → push_all fs s ≡ s
  unfolding push_all
  push_all_closed [] s h = refl
  push_all_closed ((i, p) ∷ fs) s h = rw (push_closed p i s h) (push_all_closed fs s h)

  -- What pushing a run leaves.
  abbrev accepts : List (Frame P) → StreamSink P → StreamSink P
  accepts fs s = record s {
    next_seq = s.next_seq + length fs;
    pending = s.pending + length fs;
    queue = s.queue ++ chunks fs;
  }

  accepts-cons :
      (p : P) (i : ℕ) (fs : List (Frame P)) (s : StreamSink P)
      → accepts fs (record s {
        next_seq = s.next_seq + 1;
        pending = s.pending + 1;
        queue = s.queue ++ chunk p ∷ [];
      })
        ≡ accepts ((i, p) ∷ fs) s
  accepts-cons p i fs s = ground (arith, append_assoc s.queue (chunk p ∷ []) (chunks fs))

  -- `t` is what pushing the frames on `s` leaves: all of them, or a sink closed by an error.
  abbrev Pushed : List (Frame P) → StreamSink P → StreamSink P → Type 0
  Pushed fs s t =
      (IsRun s.next_seq fs × (s.pending + length fs ≤ s.maxsize) × (t ≡ accepts fs s))
      ⊎ (¬ (IsRun s.next_seq fs × (s.pending + length fs ≤ s.maxsize))
          × (t.closed ≡ true)
          × (last_item t.queue ≢ some finish))

  push_all_run :
      (fs : List (Frame P)) (s : StreamSink P)
      → s.closed ≡ false
      → s.pending ≤ s.maxsize
      → Pushed fs s (push_all fs s)
  unfolding push_all
  push_all_run [] s alive fits = inl (tt, omega arith, ground (arith, append-nil s.queue))
  push_all_run ((i, p) ∷ fs) s alive fits = elim (push_cases p i s alive fits) [
    | inl (e, room, same) ↦
        subst (λ t. Pushed ((i, p) ∷ fs) s (push_all fs t)) (sym same)
          (elim (push_all_run fs (accepts ((i, p) ∷ []) s) alive (omega arith)) [
            | inl (run, enough, eq) ↦ inl ((e, run), omega arith, eq ∙ accepts-cons p i fs s)
            | inr (bad_run, shut, bad) ↦ inr (λ h. bad_run (h.0.1, omega arith), shut, bad)
          ])
    | inr (inl unexpected, shut, bad) ↦
        subst (Pushed ((i, p) ∷ fs) s) (sym (push_all_closed fs (push p (some i) s) shut))
          (inr (λ h. unexpected h.0.0, shut, bad))
    | inr (inr at_bound, shut, bad) ↦
        subst (Pushed ((i, p) ∷ fs) s) (sym (push_all_closed fs (push p (some i) s) shut))
          (inr (λ h. absurd (omega arith), shut, bad))
  ]

  end_cases :
      (total : ℕ) (s : StreamSink P)
      → s.closed ≡ false
      → ((total ≡ s.next_seq) × ((end_stream (some total) s).queue ≡ s.queue ++ finish ∷ []))
        ⊎ ((total ≢ s.next_seq) × (last_item (end_stream (some total) s).queue ≢ some finish))
  unfolding end_stream
  end_cases total s alive = ground (arith, last_item-append s.queue (error "truncated_stream"))

  end_closed : (total : Option ℕ) (s : StreamSink P) → s.closed ≡ true → end_stream total s ≡ s
  unfolding end_stream
  end_closed total s h = ground arith

  -- Without a reader in between: chunk frames in any order and any number, followed by an end frame
  -- with a total, leave a stream that ends cleanly exactly when the frames are numbered 0, 1, 2 and so on
  -- without gap, repetition or reordering, are no more than the buffer holds, and the total is their
  -- number; the queue then holds every payload in order. In every other case the queue does not end
  -- in the end marker.
  pub clean_end_iff :
      (maxsize total : ℕ) (fs : List (Frame P))
      → ((IsRun 0 fs × (length fs ≤ maxsize) × (total ≡ length fs))
          × ((end_stream (some total) (push_all fs (open_sink maxsize))).queue
              ≡ chunks fs ++ finish ∷ []))
        ⊎ (¬ (IsRun 0 fs × (length fs ≤ maxsize) × (total ≡ length fs))
            × (last_item (end_stream (some total) (push_all fs (open_sink maxsize))).queue
                ≢ some finish))
  unfolding open_sink
  clean_end_iff maxsize total fs = elim (push_all_run fs (open_sink maxsize) refl (omega arith)) [
    | inl (run, enough, eq) ↦ rw eq (elim (end_cases total (accepts fs (open_sink maxsize)) refl) [
      | inl (e, q) ↦ inl ((run, omega arith, omega arith), q)
      | inr (e, bad) ↦ inr (λ h. e (omega arith), bad)
    ])
    | inr (bad_run, shut, bad) ↦
        rw (end_closed (some total) (push_all fs (open_sink maxsize)) shut)
          (inr (λ h. bad_run (h.0, omega arith), bad))
  ]
