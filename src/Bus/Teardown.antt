-- ===== src/Bus/Teardown.antt =====
-- The teardown of an agent in civitas/bus.py and the requests that wait in its mailbox.
use text.Mathlib.Text.{starts_with}
use python_civitas.Base.{
  ℕ, ◌≡◌, refl, ◌⊎◌, inl, inr, true, false, not, ◌&&◌, Option, none, some, List, [], ◌∷◌, ◌++◌,
  String, arith, ◌==◌, string_eq, if◌then◌else◌, All, Bool-cases,
}
use python_civitas.Base.Dict.{lookup}
use python_civitas.Message.{Message, str}
use python_civitas.Mailbox.{Mailbox, drain}
use python_civitas.Registry.{RoutingEntry, lookup_entry}
use python_civitas.Bus.{
  Link, MessageBus, address_of, address_in, stamped, error_reply, reply_destination, is_some,
  teardown_agent,
}
use python_civitas.Bus.Pending
use python_civitas.Bus.Pending.{In, teardown-Settles}

abbrev pub IsSilent : Option String → Type 0
IsSilent none = Unit
IsSilent (some s) = s ≡ ""

-- Nobody waits for a reply: there is no correlation, or neither a reply address nor a sender.
abbrev pub IsUnawaited : Message → Type 0
IsUnawaited m = (m.correlation_id ≡ none) ⊎ (IsSilent m.reply_to × (m.sender ≡ ""))

-- Someone waits for the reply there: at the reply address, or as the sender where there is none.
abbrev pub IsAwaitedAt : Message → String → Type 0
IsAwaitedAt m to =
    ((id : String) × (m.correlation_id ≡ some id))
    × (to == "" ≡ false)
    × ((m.reply_to ≡ some to) ⊎ (IsSilent m.reply_to × (m.sender ≡ to)))

-- A name is reached at the address of its registry entry, or at itself if it is a reply address.
abbrev pub IsReachedAt : Link → MessageBus → String → String → Type 0
IsReachedAt link b to address =
    ((entry : RoutingEntry) × (lookup_entry to b.registry ≡ some entry) × (address ≡ entry.address))
    ⊎ ((lookup_entry to b.registry ≡ none)
        × (address ≡ to)
        × ((link.has_reply_address to ≡ true) ⊎ (starts_with to "_reply." ≡ true)))

abbrev pub IsUnreachable : Link → MessageBus → String → Type 0
IsUnreachable link b to =
    (lookup_entry to b.registry ≡ none)
    × (link.has_reply_address to ≡ false)
    × (starts_with to "_reply." ≡ false)

-- An error reply to a message, from the agent with this name.
abbrev pub IsErrorReply : String → String → Message → String → Message → Type 0
IsErrorReply name text m to reply =
    (reply.sender ≡ name)
    × (reply.recipient ≡ to)
    × (reply.correlation_id ≡ m.correlation_id)
    × (reply.payload ≡ ("status", str "error") ∷ ("error", str text) ∷ [])

-- What becomes of a message that waited for the agent `name`.
abbrev pub IsSettled : Link → String → String → MessageBus → MessageBus → Message → Type 0
IsSettled link name text before after m =
    (IsUnawaited m × In m after.dropped)
    ⊎ ((to : String) × IsAwaitedAt m to
        × (IsUnreachable link before to
            ⊎ ((address : String) × IsReachedAt link before to address
                × ((reply : Message) × IsErrorReply name text m to reply
                    × In (address, reply) after.published))))

abbrev destination : Option String → String → String
destination r sender = elim r [ none ↦ sender | some to ↦ if to == "" then sender else to ]

-- The tests of the code say who waits where.
awaited_by :
    (c r : Option String) (sender : String)
    → (is_some c && not (destination r sender == "")) ≡ true
    → ((id : String) × (c ≡ some id))
      × (destination r sender == "" ≡ false)
      × ((r ≡ some (destination r sender)) ⊎ (IsSilent r × (sender ≡ destination r sender)))
awaited_by none r sender h = ground (arith, h)
awaited_by (some id) none sender h = ((id, refl), ground (arith, h), inr (tt, refl))
awaited_by (some id) (some to) sender h = elim (Bool-cases (to == "")) [
  | inl e ↦ ((id, refl), ground (arith, h), inr ((string_eq.same_iff to "").0 e, ground (arith, e)))
  | inr e ↦ ((id, refl), ground (arith, h), inl (ground (arith, e)))
]

unawaited_by :
    (c r : Option String) (sender : String)
    → (is_some c && not (destination r sender == "")) ≡ false
    → (c ≡ none) ⊎ (IsSilent r × (sender ≡ ""))
unawaited_by none r sender h = inl refl
unawaited_by (some id) none sender h =
    inr (tt, (string_eq.same_iff sender "").0 (ground (arith, h)))
unawaited_by (some id) (some to) sender h = elim (Bool-cases (to == "")) [
  | inl e ↦
      inr ((string_eq.same_iff to "").0 e, (string_eq.same_iff sender "").0 (ground (arith, h, e)))
  | inr e ↦ ground (arith, h, e)
]

reached_by :
    (link : Link) (b : MessageBus) (to address : String) (found : Option RoutingEntry)
    → lookup_entry to b.registry ≡ found
    → address_in link to found ≡ some address
    → IsReachedAt link b to address
reached_by link b to address (some entry) f h = inl (entry, f, ground (arith, h))
reached_by link b to address none f h = elim (Bool-cases (link.has_reply_address to)) [
  | inl e ↦ inr (f, ground (arith, e, h), inl e)
  | inr e ↦ inr (f, ground (arith, e, h), inr (ground (arith, e, h)))
]

without_address :
    (link : Link) (b : MessageBus) (to : String) (found : Option RoutingEntry)
    → lookup_entry to b.registry ≡ found
    → address_in link to found ≡ none
    → IsUnreachable link b to
without_address link b to (some entry) f h = ground (arith, h)
without_address link b to none f h = (f, ground (arith, h), ground (arith, h))

module _ (link : Link) (now : ℕ) (name text : String) (b after : MessageBus) where
  outcome :
      (m : Message)
      → Pending.IsSettled link now name text b after m
      → IsSettled link name text b after m
  unfolding address_of
  outcome m (inl (quiet, i)) = inl (unawaited_by m.correlation_id m.reply_to m.sender quiet, i)
  outcome m (inr (inl (wanted, h))) = inr (
    reply_destination m,
    awaited_by m.correlation_id m.reply_to m.sender wanted,
    inl (without_address link b (reply_destination m) _ refl h),
  )
  outcome m (inr (inr (wanted, (address, h, i)))) = inr (
    reply_destination m,
    awaited_by m.correlation_id m.reply_to m.sender wanted,
    inr (
      address,
      reached_by link b (reply_destination m) address _ refl h,
      (stamped link (error_reply link now name text m), (refl, refl, refl, refl), i),
    ),
  )

  each_outcome :
      (ms : List Message)
      → All (Pending.IsSettled link now name text b after) ms
      → All (IsSettled link name text b after) ms
  each_outcome [] h = tt
  each_outcome (m ∷ ms) h = (outcome m h.0, each_outcome ms h.1)

-- The transport delivers everything. The teardown of an agent that is here then ends without an
-- exception, and each message of both queues of its mailbox is settled: it was dropped and nobody waits
-- for a reply to it, or someone does, at a name that is in no place, or an error reply of the agent with
-- the correlation of the message was published to the place of that name.
pub teardown_settles_all :
    (link : Link) (now : ℕ) (name text : String) (box : Mailbox) (b : MessageBus)
    → ((address : String) (m : Message) → link.delivers address m ≡ true)
    → lookup name b.local_agents ≡ some box
    → let r = teardown_agent link now name text b in
      (r.0 ≡ true) × All (IsSettled link name text b r.1) (box.priority_queue ++ box.queue)
unfolding drain
teardown_settles_all link now name text box b good found =
    let done = teardown-Settles link now name text box b good found in
    (
      done.0,
      each_outcome link now name text b (teardown_agent link now name text b).1
          (box.priority_queue ++ box.queue) done.1,
    )
