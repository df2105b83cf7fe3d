-- ===== src/Mailbox/Valid.antt =====
-- The invariant of the mailbox of process.py: its bounds and its two classes.
use python_civitas.Base.{
  ℕ, suc, ◌≤◌, ◌<◌, ◌≡◌, refl, true, none, some, List, [], ◌∷◌, ◌++◌, arith, length, All,
  All-append, inl, inr, length-append, Bool-cases, Option-cases, ◌⊎◌,
}
use python_civitas.Message.{Message}
use python_civitas.Mailbox.{
  Mailbox, put, put_nowait, get, get_loop, get_priority, get_priority_loop, drain, expired,
}

abbrev pub IsUrgent : Message → Type 0
IsUrgent m = 0 < m.priority

abbrev pub IsBusiness : Message → Type 0
IsBusiness m = m.priority ≡ 0

-- A bound of 0 is no bound.
abbrev pub Fits : ℕ → ℕ → Type 0
Fits bound n = (bound ≡ 0) ⊎ (n ≤ bound)

-- Each message stands in the queue of its class, and no queue is over its bound.
pub record IsValid (b : Mailbox) : Type 0 where
  pub urgent : All IsUrgent b.priority_queue
  pub business : All IsBusiness b.queue
  pub urgent_fits : Fits b.priority_maxsize (length b.priority_queue)
  pub business_fits : Fits b.maxsize (length b.queue)

put_inversion :
    (m : Message) (b b' : Mailbox)
    → put m b ≡ some b'
    → ((0 < m.priority)
        × Fits b.priority_maxsize (suc (length b.priority_queue))
        × (b' ≡ record b { priority_queue = b.priority_queue ++ m ∷ []; notify = true }))
      ⊎ ((m.priority ≡ 0)
          × Fits b.maxsize (suc (length b.queue))
          × (b' ≡ record b { queue = b.queue ++ m ∷ []; notify = true }))
unfolding put
put_inversion m b b' h = ground arith

append-Fits :
    (bound : ℕ) (m : Message) (ms : List Message)
    → Fits bound (suc (length ms))
    → Fits bound (length (ms ++ m ∷ []))
append-Fits bound m ms (inl h) = inl h
append-Fits bound m ms (inr h) = inr (omega (arith, length-append ms (m ∷ [])))

put-IsValid : (m : Message) (b b' : Mailbox) → put m b ≡ some b' → IsValid b → IsValid b'
put-IsValid m b b' h v = elim (put_inversion m b b' h) [
  | inl (u, room, e) ↦ rw e (record {
    urgent = All-append IsUrgent b.priority_queue (m ∷ []) v.urgent (u, tt);
    business = v.business;
    urgent_fits = append-Fits b.priority_maxsize m b.priority_queue room;
    business_fits = v.business_fits;
  })
  | inr (u, room, e) ↦ rw e (record {
    urgent = v.urgent;
    business = All-append IsBusiness b.queue (m ∷ []) v.business (u, tt);
    urgent_fits = v.urgent_fits;
    business_fits = append-Fits b.maxsize m b.queue room;
  })
]

-- A queue that only loses messages from its front.
data Shrinks : List Message → List Message → Type 0 where
  same : (ms : List Message) → Shrinks ms ms
  lose : {ms ns : List Message} (m : Message) → Shrinks ms ns → Shrinks (m ∷ ms) ns

Shrinks-All : (P : Message → Type 0) {ms ns : List Message} → Shrinks ms ns → All P ms → All P ns
Shrinks-All P (same ms) h = h
Shrinks-All P (lose m s) h = Shrinks-All P s h.1

Shrinks-length : {ms ns : List Message} → Shrinks ms ns → length ns ≤ length ms
Shrinks-length (same ms) = omega arith
Shrinks-length (lose m s) = omega (arith, Shrinks-length s)

Shrinks-Fits :
    (bound : ℕ) {ms ns : List Message}
    → Shrinks ms ns
    → Fits bound (length ms)
    → Fits bound (length ns)
Shrinks-Fits bound s (inl h) = inl h
Shrinks-Fits bound s (inr h) = inr (omega (arith, Shrinks-length s))

Shrinks-nil : (ms : List Message) → Shrinks ms []
Shrinks-nil [] = same []
Shrinks-nil (m ∷ ms) = lose m (Shrinks-nil ms)

Shrinks-IsValid :
    {b b' : Mailbox}
    → Shrinks b.priority_queue b'.priority_queue
    → Shrinks b.queue b'.queue
    → b.maxsize ≡ b'.maxsize
    → b.priority_maxsize ≡ b'.priority_maxsize
    → IsValid b
    → IsValid b'
Shrinks-IsValid p q em ep v = record {
  urgent = Shrinks-All IsUrgent p v.urgent;
  business = Shrinks-All IsBusiness q v.business;
  urgent_fits = Shrinks-Fits _ p (rw ep at v.urgent_fits);
  business_fits = Shrinks-Fits _ q (rw em at v.business_fits);
}

get_loop-Shrinks :
    (now : ℕ) (ps qs : List Message)
    → Shrinks ps (get_loop now ps qs).1 × Shrinks qs (get_loop now ps qs).2
unfolding get_loop
get_loop-Shrinks now (m ∷ ps) qs =
    let (p, q) = get_loop-Shrinks now ps qs in
    elim (Bool-cases (expired now m)) [
      | inl e ↦ rw e (lose m p, q)
      | inr e ↦ rw e (lose m (same ps), same qs)
    ]
get_loop-Shrinks now [] (m ∷ qs) =
    let (p, q) = get_loop-Shrinks now [] qs in
    elim (Bool-cases (expired now m)) [
      | inl e ↦ rw e (p, lose m q)
      | inr e ↦ rw e (same [], lose m (same qs))
    ]
get_loop-Shrinks now [] [] = (same [], same [])

get_priority_loop-Shrinks : (now : ℕ) (ps : List Message) → Shrinks ps (get_priority_loop now ps).1
unfolding get_priority_loop
get_priority_loop-Shrinks now [] = same []
get_priority_loop-Shrinks now (m ∷ ps) =
    let p = get_priority_loop-Shrinks now ps in
    elim (Bool-cases (expired now m)) [ inl e ↦ rw e (lose m p) | inr e ↦ rw e (lose m (same ps)) ]

-- The mailbox after an attempt to put, which leaves it as it is while there is no room.
pub after_put : Message → Mailbox → Mailbox
after_put m b = elim (put m b) [ none ↦ b | some b' ↦ b' ]

after_put-IsValid : (m : Message) (b : Mailbox) → IsValid b → IsValid (after_put m b)
unfolding after_put
after_put-IsValid m b v = elim (Option-cases (put m b)) [
  | inl e ↦ rw (e, after_put) v
  | inr (b', e) ↦ rw (e, after_put) (put-IsValid m b b' e v)
]

-- The mailbox after put_nowait, which leaves it as it is where it raises QueueFull.
pub after_put_nowait : Message → Mailbox → Mailbox
after_put_nowait m b = elim (put_nowait m b) [ none ↦ b | some b' ↦ b' ]

put_nowait_inversion :
    (m : Message) (b b' : Mailbox)
    → put_nowait m b ≡ some b'
    → Fits b.priority_maxsize (suc (length b.priority_queue))
      × (b' ≡ record b { priority_queue = b.priority_queue ++ m ∷ []; notify = true })
unfolding put_nowait
put_nowait_inversion m b b' h = ground arith

-- What an operation that asks for no class leaves: the bounds, the class of the normal queue, and the
-- class of the priority queue if the message has a priority.
abbrev pub IsValidUnless : Message → Mailbox → Type 0
IsValidUnless m b =
    IsValid b
    ⊎ ((m.priority ≡ 0)
        × All IsBusiness b.queue
        × Fits b.priority_maxsize (length b.priority_queue)
        × Fits b.maxsize (length b.queue))

by_priority : (m : Message) → (0 < m.priority) ⊎ (m.priority ≡ 0)
by_priority m = omega arith

put_nowait-IsValidUnless :
    (m : Message) (b b' : Mailbox) → put_nowait m b ≡ some b' → IsValid b → IsValidUnless m b'
put_nowait-IsValidUnless m b b' h v =
    let (room, e) = put_nowait_inversion m b b' h in
    elim (by_priority m) [
      | inl u ↦ rw e (
          inl (record {
            urgent = All-append IsUrgent b.priority_queue (m ∷ []) v.urgent (u, tt);
            business = v.business;
            urgent_fits = append-Fits b.priority_maxsize m b.priority_queue room;
            business_fits = v.business_fits;
          }))
      | inr u ↦ rw e (
          inr (
            u,
            v.business,
            append-Fits b.priority_maxsize m b.priority_queue room,
            v.business_fits,
          ))
    ]

after_put_nowait-IsValidUnless :
    (m : Message) (b : Mailbox) → IsValid b → IsValidUnless m (after_put_nowait m b)
unfolding after_put_nowait
after_put_nowait-IsValidUnless m b v = elim (Option-cases (put_nowait m b)) [
  | inl e ↦ rw (e, after_put_nowait) (inl v)
  | inr (b', e) ↦ rw (e, after_put_nowait) (put_nowait-IsValidUnless m b b' e v)
]

-- A put, both reads and a drain keep the mailbox within its bounds and each message in the queue of its
-- class. put_nowait does too, unless its message has no priority; then it keeps the bounds and the class
-- of the normal queue.
pub operations-IsValid :
    (b : Mailbox) (m : Message) (now : ℕ)
    → IsValid b
    → IsValid (after_put m b)
      × IsValid (get now b).1
      × IsValid (get_priority now b).1
      × IsValid (drain b).1
      × IsValidUnless m (after_put_nowait m b)
unfolding get get_priority drain
operations-IsValid b m now v =
    let (p, q) = get_loop-Shrinks now b.priority_queue b.queue in
    (
      after_put-IsValid m b v,
      Shrinks-IsValid p q refl refl v,
      Shrinks-IsValid (get_priority_loop-Shrinks now b.priority_queue) (same b.queue) refl refl v,
      Shrinks-IsValid (Shrinks-nil b.priority_queue) (Shrinks-nil b.queue) refl refl v,
      after_put_nowait-IsValidUnless m b v,
    )
