-- ===== src/Bus/Pending.antt =====
-- How teardown_agent of civitas/bus.py goes through the mailbox of the agent.
use python_civitas.Base.{
  ℕ, ◌≡◌, refl, sym, subst, ◌∙◌, ◌⊎◌, inl, inr, Bool, true, false, not, Option, none, some, List,
  [], ◌∷◌, String, arith, ◌==◌, string_eq, if◌then◌else◌, filter, All,
}
use python_civitas.Base.Dict.{lookup, erase}
use python_civitas.Message.{Message}
use python_civitas.Mailbox.{Mailbox, drain}
use python_civitas.Registry.{lookup_entry}
use python_civitas.Bus.{
  Link, MessageBus, is_valid_type, address_of, Routed, audit_route, stamped, route, publish,
  error_reply, reply_destination, wants_reply, goes_on, fail_pending, teardown_agent,
}

-- Membership of a list.
pub data In {ℓ} {A : Type ℓ} (a : A) : List A → Type ℓ where
  here : (xs : List A) → In a (a ∷ xs)
  there : (x : A) (xs : List A) → In a xs → In a (x ∷ xs)

pick {ℓ} :
    {A : Type 0} (P : A → Type ℓ) (w g : Bool) (x y z : A)
    → (w ≡ true → (g ≡ true) × P x)
    → (w ≡ false → P z)
    → P (if w then if g then x else y else z)
pick P true true x y z h k = (h refl).1
pick P true false x y z h k = ground (arith, (h refl).0)
pick P false g x y z h k = k refl

module _ (link : Link) (now : ℕ) (name text : String) where
  reply_is_valid : (m : Message) → is_valid_type (error_reply link now name text m) ≡ true
  unfolding is_valid_type
  reply_is_valid m = refl

  -- What becomes of a message that waited: it is dropped if nobody waits for a reply, or its sender is
  -- in no place, or an error reply to it was published.
  abbrev pub IsSettled : MessageBus → MessageBus → Message → Type 0
  IsSettled before after m =
      ((wants_reply m ≡ false) × In m after.dropped)
      ⊎ ((wants_reply m ≡ true) × (address_of link (reply_destination m) before ≡ none))
      ⊎ ((wants_reply m ≡ true)
          × ((address : String) × (address_of link (reply_destination m) before ≡ some address)
              × In (address, stamped link (error_reply link now name text m)) after.published))

  -- One bus extends another: same registry, and nothing published or dropped is lost.
  record Extends (before after : MessageBus) : Type 0 where
    registry : after.registry ≡ before.registry
    published : (p : String × Message) → In p before.published → In p after.published
    dropped : (m : Message) → In m before.dropped → In m after.dropped

  same_address :
      (b c : MessageBus) (recipient : String)
      → c.registry ≡ b.registry
      → address_of link recipient c ≡ address_of link recipient b
  unfolding address_of lookup_entry
  same_address b c recipient h = ground (arith, h)

  unchanged : (b : MessageBus) → Extends b b
  unchanged b = record { registry = refl; published = λ p h. h; dropped = λ m h. h }

  extends_twice : (b c d : MessageBus) → Extends b c → Extends c d → Extends b d
  extends_twice b c d h k = record {
    registry = k.registry ∙ h.registry;
    published = λ p i. k.published p (h.published p i);
    dropped = λ m i. k.dropped m (h.dropped m i);
  }

  -- What an answer does, by the address of the one who waits.
  abbrev Answers : Message → MessageBus → Routed × MessageBus → Type 0
  Answers m b r = (goes_on r.0 ≡ true) × Extends b r.1 × IsSettled b r.1 m

  after_audit :
      (m : Message) (b : MessageBus) (p : String × Message)
      → let c = audit_route m (record b { published = p ∷ b.published }) in
        (c.registry ≡ b.registry) × (c.published ≡ p ∷ b.published) × (c.dropped ≡ b.dropped)
  after_audit m b p = (ground arith, ground arith, ground arith)

  extends_published :
      (b c : MessageBus) (p : String × Message)
      → (c.registry ≡ b.registry) × (c.published ≡ p ∷ b.published) × (c.dropped ≡ b.dropped)
      → Extends b c
  extends_published b c p h = record {
    registry = h.0;
    published = λ q i. subst (In q) (sym h.1) (there p b.published i);
    dropped = λ m i. subst (In m) (sym h.2) i;
  }

  publish-Answers :
      (m : Message) (b : MessageBus) (address : Option String)
      → ((a : String) (n : Message) → link.delivers a n ≡ true)
      → wants_reply m ≡ true
      → address_of link (reply_destination m) b ≡ address
      → Answers m b (publish link address (error_reply link now name text m) b)
  publish-Answers m b none good wanted h = (refl, unchanged b, inr (inl (wanted, h)))
  publish-Answers m b (some address) good wanted h =
      let reply = stamped link (error_reply link now name text m) in
      let frame = after_audit reply b (address, reply) in
      rw (good address reply) (
        refl,
        extends_published b _ (address, reply) frame,
        inr (
            inr
              (wanted, (address, h, subst (In (address, reply)) (sym frame.1) (here b.published)))),
      )

  route-Answers :
      (m : Message) (b : MessageBus)
      → ((a : String) (n : Message) → link.delivers a n ≡ true)
      → wants_reply m ≡ true
      → Answers m b (route link (error_reply link now name text m) b)
  unfolding route
  route-Answers m b good wanted = rw (reply_is_valid m) (publish-Answers m b _ good wanted refl)

  kept_later : (b c d : MessageBus) (m : Message) → Extends c d → IsSettled b c m → IsSettled b d m
  kept_later b c d m e (inl (quiet, i)) = inl (quiet, e.dropped m i)
  kept_later b c d m e (inr (inl h)) = inr (inl h)
  kept_later b c d m e (inr (inr (wanted, (a, h, i)))) = inr (inr (wanted, (a, h, e.published _ i)))

  kept_earlier :
      (b c d : MessageBus) (m : Message)
      → c.registry ≡ b.registry
      → IsSettled c d m
      → IsSettled b d m
  kept_earlier b c d m e (inl h) = inl h
  kept_earlier b c d m e (inr (inl (wanted, h))) =
      inr (inl (wanted, sym (same_address b c (reply_destination m) e) ∙ h))
  kept_earlier b c d m e (inr (inr (wanted, (a, h, i)))) =
      inr (inr (wanted, (a, sym (same_address b c (reply_destination m) e) ∙ h, i)))

  all_kept_earlier :
      (b c d : MessageBus) (ms : List Message)
      → c.registry ≡ b.registry
      → All (IsSettled c d) ms
      → All (IsSettled b d) ms
  all_kept_earlier b c d [] e h = tt
  all_kept_earlier b c d (m ∷ ms) e h =
      (kept_earlier b c d m e h.0, all_kept_earlier b c d ms e h.1)

  abbrev Completes : List Message → MessageBus → Bool × MessageBus → Type 0
  Completes ms b r = (r.0 ≡ true) × Extends b r.1 × All (IsSettled b r.1) ms

  -- One more message, settled before the others.
  one_more :
      (m : Message) (ms : List Message) (b c : MessageBus) (r : Bool × MessageBus)
      → Extends b c
      → IsSettled b c m
      → Completes ms c r
      → Completes (m ∷ ms) b r
  one_more m ms b c r e settled h = (
    h.0,
    extends_twice b c r.1 e h.1,
    (kept_later b c r.1 m h.1 settled, all_kept_earlier b c r.1 ms e.registry h.2),
  )

  drop_one : (m : Message) (b : MessageBus) → Extends b (record b { dropped = m ∷ b.dropped })
  drop_one m b = record {
    registry = refl;
    published = λ p i. i;
    dropped = λ n i. there m b.dropped i;
  }

  fail_pending-Completes :
      (ms : List Message) (b : MessageBus)
      → ((a : String) (n : Message) → link.delivers a n ≡ true)
      → Completes ms b (fail_pending link now name text ms b)
  unfolding fail_pending
  fail_pending-Completes [] b good = (refl, unchanged b, tt)
  fail_pending-Completes (m ∷ ms) b good =
      pick (Completes (m ∷ ms) b) (wants_reply m)
        (goes_on (route link (error_reply link now name text m) b).0) _ _ _
        (λ wanted.
          let answer = route-Answers m b good wanted in
          (
            answer.0,
            one_more m ms b (route link (error_reply link now name text m) b).1 _ answer.1 answer.2
                (fail_pending-Completes ms _ good),
          ))
        λ quiet.
          one_more m ms b (record b { dropped = m ∷ b.dropped }) _ (drop_one m b)
            (inl (quiet, here b.dropped)) (fail_pending-Completes ms _ good)

  popped : MessageBus → MessageBus
  popped b = record b {
    local_agents = erase name b.local_agents;
    subscribed = filter (λ n. not (n == name)) b.subscribed;
  }

-- The teardown of an agent that is here, as the code sees the waiting messages.
pub teardown-Settles :
    (link : Link) (now : ℕ) (name text : String) (box : Mailbox) (b : MessageBus)
    → ((address : String) (m : Message) → link.delivers address m ≡ true)
    → lookup name b.local_agents ≡ some box
    → let r = teardown_agent link now name text b in
      (r.0 ≡ true) × All (IsSettled link now name text b r.1) (drain box).0
unfolding teardown_agent popped
teardown-Settles link now name text box b good found = rw found (
    let done =
      fail_pending-Completes link now name text (drain box).0 (popped link now name text b) good in
    (
      done.0,
      all_kept_earlier link now name text b (popped link now name text b)
          (fail_pending link now name text (drain box).0 (popped link now name text b)).1
          (drain box).0 refl done.2,
    ))
