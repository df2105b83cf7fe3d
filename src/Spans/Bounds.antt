-- ===== src/Spans/Bounds.antt =====
-- The bounds of the span queue and of the span store, and what they drop.
use python_civitas.Base.{
  ℕ, zero, suc, ◌+◌, ◌-◌, ◌≤◌, ◌<◌, ◌≡◌, refl, sym, ap, ◌∙◌, false, List, [], ◌∷◌, ◌++◌, map, arith,
  ltb, leb, leb→le, Bool-cases, inl, inr, nat_eq, length, drop, length-append, append-nil,
  append_assoc,
}
use python_civitas.Spans.{
  SpanData, SpanQueue, put_nowait, InMemorySpanStore, SpanRecord, record_of, newest, export,
}

-- The queue after spans, the oldest of them first.
unfoldable pub put_all : List SpanData → SpanQueue → SpanQueue
put_all [] q = q
put_all (s ∷ ss) q = put_all ss (put_nowait s q)

module _ {ℓ} {A : Type ℓ} where
  length-drop : (n : ℕ) (xs : List A) → length (drop n xs) ≡ length xs - n
  length-drop zero xs = omega arith
  length-drop (suc n) [] = omega arith
  length-drop (suc n) (x ∷ xs) = length-drop n xs ∙ omega arith

  drop_short : (n : ℕ) (xs ys : List A) → n ≤ length xs → drop n (xs ++ ys) ≡ drop n xs ++ ys
  drop_short zero xs ys h = refl
  drop_short (suc n) [] ys h = ground (arith, h)
  drop_short (suc n) (x ∷ xs) ys h = drop_short n xs ys (omega (arith, h))

  drop_nil : (n : ℕ) → drop {A = A} n [] ≡ []
  drop_nil zero = refl
  drop_nil (suc n) = refl

  drop_twice : (m n : ℕ) (xs : List A) → drop m (drop n xs) ≡ drop (m + n) xs
  drop_twice m zero xs = let e : m ≡ m + 0 = omega arith in ap (λ k. drop k xs) e
  drop_twice m (suc n) [] = drop_nil m ∙ sym (drop_nil (m + suc n))
  drop_twice m (suc n) (x ∷ xs) =
      let e : suc (m + n) ≡ m + suc n = omega arith in
      drop_twice m n xs ∙ ap (λ k. drop k (x ∷ xs)) e

  -- The last n of a list.
  abbrev pub last_of : ℕ → List A → List A
  last_of n xs = drop (length xs - n) xs

  last_append : (n : ℕ) (xs ys : List A) → last_of n (last_of n xs ++ ys) ≡ last_of n (xs ++ ys)
  last_append n xs ys =
      let k = length xs - n in
      ap (λ zs. drop (length zs - n) zs) (sym (drop_short k xs ys (omega arith)))
      ∙ drop_twice (length (drop k (xs ++ ys)) - n) k (xs ++ ys)
      ∙ ap (λ j. drop j (xs ++ ys)) (omega (arith, length-drop k (xs ++ ys), length-append xs ys))

  length-last : (n : ℕ) (xs : List A) → length (last_of n xs) ≤ n
  length-last n xs = omega (arith, length-drop (length xs - n) xs)

  last_short : (n : ℕ) (xs : List A) → length xs ≤ n → last_of n xs ≡ xs
  last_short n xs h = let e : length xs - n ≡ 0 = omega (arith, h) in ap (λ k. drop k xs) e

put-newest :
    (s : SpanData) (q : SpanQueue)
    → 0 < q.maxsize
    → length q.queue ≤ q.maxsize
    → (put_nowait s q).queue ≡ last_of q.maxsize (q.queue ++ s ∷ [])
unfolding put_nowait
put-newest s q bounded h = elim (Bool-cases (leb q.maxsize (length q.queue))) [
  | inl full ↦ ground (
    arith,
    full,
    bounded,
    h,
    drop_short 1 q.queue (s ∷ []) (omega (arith, bounded, leb→le q.maxsize (length q.queue) full)),
    ap (λ k. drop k (q.queue ++ s ∷ []))
        (the_excess q.maxsize q.queue s h (leb→le q.maxsize (length q.queue) full)),
  )
  | inr room ↦
      ground
        (arith, room, last_short q.maxsize (q.queue ++ s ∷ []) (below q.maxsize q.queue s room))
]
  where
    the_excess :
        (n : ℕ) (xs : List SpanData) (s : SpanData)
        → length xs ≤ n
        → n ≤ length xs
        → 1 ≡ length (xs ++ s ∷ []) - n
    the_excess n xs s h k = omega (arith, h, k, length-append xs (s ∷ []))

    below :
        (n : ℕ) (xs : List SpanData) (s : SpanData)
        → leb n (length xs) ≡ false
        → length (xs ++ s ∷ []) ≤ n
    below n xs s h = ground (arith, h, length-append xs (s ∷ []))

maxsize-put : (s : SpanData) (q : SpanQueue) → (put_nowait s q).maxsize ≡ q.maxsize
unfolding put_nowait
maxsize-put s q = ground arith

-- A queue that is bounded and not over its bound took spans: it holds the newest of what it had and
-- took, as many as its bound, in their order.
pub queue_keeps_newest :
    (ss : List SpanData) (q : SpanQueue)
    → 0 < q.maxsize
    → length q.queue ≤ q.maxsize
    → (put_all ss q).queue ≡ last_of q.maxsize (q.queue ++ ss)
unfolding put_all
queue_keeps_newest [] q bounded h =
    sym (last_short q.maxsize (q.queue ++ []) (rw append-nil h) ∙ append-nil q.queue)
queue_keeps_newest (s ∷ ss) q bounded h =
    let next = put_nowait s q in
    let same = maxsize-put s q in
    let newest = put-newest s q bounded h in
    queue_keeps_newest ss next (omega (arith, bounded, same))
      (omega (arith, same, ap length newest, length-last q.maxsize (q.queue ++ s ∷ [])))
    ∙ ap (λ n. last_of n (next.queue ++ ss)) same
    ∙ ap (λ xs. last_of q.maxsize (xs ++ ss)) newest
    ∙ last_append q.maxsize (q.queue ++ s ∷ []) ss
    ∙ ap (last_of q.maxsize) (append_assoc q.queue (s ∷ []) ss)

newest_lem : (n : ℕ) (xs : List SpanRecord) → 0 < n → newest n xs ≡ last_of n xs
unfolding newest
newest_lem zero xs h = ground (arith, h)
newest_lem (suc n) xs h = refl

kept_whole : (n : ℕ) (xs : List SpanRecord) → ltb n (length xs) ≡ false → xs ≡ last_of n xs
kept_whole n xs h = sym (last_short n xs (ground (arith, h)))

-- A store that is bounded holds, after an export, the newest of the spans that it had and got, as many
-- as its bound, in their order.
pub export_keeps_newest :
    (spans : List SpanData) (s : InMemorySpanStore)
    → 0 < s.maxsize
    → (export spans s).spans ≡ last_of s.maxsize (s.spans ++ map record_of spans)
unfolding export newest
export_keeps_newest spans s bounded =
    let all = s.spans ++ map record_of spans in
    ground (arith, newest_lem s.maxsize all bounded, kept_whole s.maxsize all)
