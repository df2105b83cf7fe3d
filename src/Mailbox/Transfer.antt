-- ===== src/Mailbox/Transfer.antt =====
-- _transfer_mailbox of supervisor.py: what a fresh incarnation finds in its mailbox.
use python_civitas.Base.{
  ℕ, suc, ◌+◌, ◌<◌, ◌≡◌, refl, true, Option, some, List, [], ◌∷◌, ◌++◌, arith, length, All,
  append-nil, append_assoc, inl, inr, length-append, ◌∙◌, sym,
}
use python_civitas.Message.{Message}
use python_civitas.Mailbox.{Mailbox, put, put_all, transfer_mailbox, empty_mailbox}
use python_civitas.Mailbox.Valid.{IsValid, IsUrgent, IsBusiness, Fits}

-- What the puts of a transfer leave: the new queues, the old bounds.
record Puts (b : Mailbox) (ps qs : List Message) (r : Option Mailbox) : Type 0 where
  result : Mailbox
  returned : r ≡ some result
  priority_queue : result.priority_queue ≡ b.priority_queue ++ ps
  queue : result.queue ≡ b.queue ++ qs

put_business_lem :
    (m : Message) (b : Mailbox)
    → m.priority ≡ 0
    → Fits b.maxsize (suc (length b.queue))
    → put m b ≡ some (record b { queue = b.queue ++ m ∷ []; notify = true })
unfolding put
put_business_lem m b h room = ground arith

put_urgent_lem :
    (m : Message) (b : Mailbox)
    → 0 < m.priority
    → Fits b.priority_maxsize (suc (length b.priority_queue))
    → put m b ≡ some (record b { priority_queue = b.priority_queue ++ m ∷ []; notify = true })
unfolding put
put_urgent_lem m b h room = ground arith

put_all-cons :
    (m : Message) (ms : List Message) (b b' : Mailbox)
    → put m b ≡ some b'
    → put_all (m ∷ ms) b ≡ put_all ms b'
unfolding put_all
put_all-cons m ms b b' h = rw (h, put_all)

Fits-first : (bound a n : ℕ) → Fits bound (a + suc n) → Fits bound (suc a)
Fits-first bound a n (inl h) = inl h
Fits-first bound a n (inr h) = inr (omega arith)

Fits-rest :
    (bound n : ℕ) (m : Message) (ms : List Message)
    → Fits bound (length ms + suc n)
    → Fits bound (length (ms ++ m ∷ []) + n)
Fits-rest bound n m ms (inl h) = inl h
Fits-rest bound n m ms (inr h) = inr (omega (arith, length-append ms (m ∷ [])))

Fits-zero : (bound n : ℕ) → Fits bound n → Fits bound (0 + n)
Fits-zero bound n (inl h) = inl h
Fits-zero bound n (inr h) = inr (omega arith)

put_business :
    (qs : List Message) (b : Mailbox)
    → All IsBusiness qs
    → Fits b.maxsize (length b.queue + length qs)
    → Puts b [] qs (put_all qs b)
unfolding put_all
put_business [] b h room = record {
  result = b;
  returned = refl;
  priority_queue = sym (append-nil b.priority_queue);
  queue = sym (append-nil b.queue);
}
put_business (m ∷ qs) b h room =
    let next : Mailbox = record b { queue = b.queue ++ m ∷ []; notify = true } in
    let rest = put_business qs next h.1 (Fits-rest b.maxsize (length qs) m b.queue room) in
    record {
      result = rest.result;
      returned =
          put_all-cons m qs b next
            (put_business_lem m b h.0 (Fits-first b.maxsize (length b.queue) (length qs) room))
          ∙ rest.returned;
      priority_queue = rest.priority_queue;
      queue = rest.queue ∙ append_assoc b.queue (m ∷ []) qs;
    }

put_drained :
    (ps qs : List Message) (b : Mailbox)
    → All IsUrgent ps
    → All IsBusiness qs
    → Fits b.priority_maxsize (length b.priority_queue + length ps)
    → Fits b.maxsize (length b.queue + length qs)
    → Puts b ps qs (put_all (ps ++ qs) b)
put_drained [] qs b hp hq rp rq = put_business qs b hq rq
put_drained (m ∷ ps) qs b hp hq rp rq =
    let next : Mailbox = record b { priority_queue = b.priority_queue ++ m ∷ []; notify = true } in
    let rest =
      put_drained ps qs next hp.1 hq
        (Fits-rest b.priority_maxsize (length ps) m b.priority_queue rp) rq in
    record {
      result = rest.result;
      returned =
          put_all-cons m (ps ++ qs) b next (
            put_urgent_lem m b hp.0
              (Fits-first b.priority_maxsize (length b.priority_queue) (length ps) rp))
          ∙ rest.returned;
      priority_queue = rest.priority_queue ∙ append_assoc b.priority_queue (m ∷ []) ps;
      queue = rest.queue;
    }

-- The transfer from a valid mailbox to a new one with the same bounds never waits for space. The
-- new mailbox holds exactly the queued messages, each in its class and in its order, and the old
-- one is empty.
pub transfer_mailbox_complete :
    (old : Mailbox)
    → IsValid old
    → let fresh = empty_mailbox old.maxsize old.priority_maxsize in
      (b : Mailbox) × ((transfer_mailbox old fresh).0 ≡ some b)
      × (b.priority_queue ≡ old.priority_queue)
      × (b.queue ≡ old.queue)
      × ((transfer_mailbox old fresh).1.priority_queue ≡ [])
      × ((transfer_mailbox old fresh).1.queue ≡ [])
unfolding transfer_mailbox empty_mailbox
transfer_mailbox_complete old v =
    let fresh = empty_mailbox old.maxsize old.priority_maxsize in
    let all =
      put_drained old.priority_queue old.queue fresh v.urgent v.business
        (Fits-zero _ _ v.urgent_fits) (Fits-zero _ _ v.business_fits) in
    (all.result, all.returned, all.priority_queue, all.queue, refl, refl)
