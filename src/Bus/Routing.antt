-- ===== src/Bus/Routing.antt =====
-- Where civitas/bus.py sends a message, and what it refuses.
use text.Mathlib.Text.{starts_with}
use python_civitas.Base.{
  ℕ, ◌≡◌, refl, ◌⊎◌, inl, inr, Bool, true, false, not, ◌&&◌, ◌||◌, Option, none, some, List, ◌∷◌,
  String, arith, string_eq, if◌then◌else◌, Option-cases, Bool-cases,
}
use python_civitas.Base.Dict.{lookup, lookup-erase_self}
use python_civitas.Message.{Message}
use python_civitas.Registry.{
  RoutingEntry, lookup_entry, is_suspended, deregister, set_suspended, fire_listeners,
}
use python_civitas.Bus.{
  Link, MessageBus, is_valid_type, address_of, Routed, sent, validation_error, routing_error,
  stamped, route, request, invalid, suspended, request_to, publish,
}

-- An address at which the recipient can be reached: the registered one, or for a name that is not
-- registered the name itself, if it is a reply address.
abbrev pub IsAddress : Link → String → MessageBus → String → Type 0
IsAddress link recipient b address =
    ((entry : RoutingEntry) × (lookup recipient b.registry.entries ≡ some entry)
      × (address ≡ entry.address))
    ⊎ ((lookup recipient b.registry.entries ≡ none)
        × (address ≡ recipient)
        × (link.has_reply_address recipient || starts_with recipient "_reply." ≡ true))

address_of-IsAddress :
    (link : Link) (recipient : String) (b : MessageBus) (address : String)
    → address_of link recipient b ≡ some address
    → IsAddress link recipient b address
unfolding address_of lookup_entry
address_of-IsAddress link recipient b address h =
    elim (Option-cases (lookup recipient b.registry.entries)) [
      | inl unknown ↦ inr (unknown, ground (arith, unknown, h), ground (arith, unknown, h))
      | inr (entry, known) ↦ inl (entry, known, ground (arith, known, h))
    ]

-- What a route comes to: the message is published once, with the identifiers of its span, at an
-- address of its recipient, or the bus is as it was.
abbrev pub RouteResult : Link → Message → MessageBus → Routed × MessageBus → Type 0
RouteResult link m b r =
    ((r.0 ≡ sent)
      × (is_valid_type m ≡ true)
      × ((address : String) × IsAddress link m.recipient b address
          × (r.1.published ≡ (address, stamped link m) ∷ b.published)))
    ⊎ ((¬ (r.0 ≡ sent)) × (r.1 ≡ b))

publish-RouteResult :
    (link : Link) (m : Message) (b : MessageBus) (address : Option String)
    → is_valid_type m ≡ true
    → address_of link m.recipient b ≡ address
    → RouteResult link m b (publish link address m b)
publish-RouteResult link m b none valid h = inr (ground arith, refl)
publish-RouteResult link m b (some address) valid h =
    elim (Bool-cases (link.delivers address (stamped link m))) [
      | inl good ↦ inl (
        ground (arith, good),
        valid,
        (address, address_of-IsAddress link m.recipient b address h, ground (arith, good)),
      )
      | inr bad ↦ inr (ground (arith, bad), ground (arith, bad))
    ]

route_checked :
    (link : Link) (m : Message) (b : MessageBus) (valid : Bool)
    → is_valid_type m ≡ valid
    → RouteResult link m b (
        if not valid
        then (validation_error, b)
        else publish link (address_of link m.recipient b) m b)
route_checked link m b false h = inr (ground arith, refl)
route_checked link m b true h = publish-RouteResult link m b _ h refl

-- Either a route succeeds, then the type of the message is let through and the message was published
-- once, with the identifiers of its span: at the registered address of the recipient if there is one,
-- and else at the recipient itself, which is a reply address. Or it does not succeed, and the bus is
-- as it was.
pub route_lem : (link : Link) (m : Message) (b : MessageBus) → RouteResult link m b (route link m b)
unfolding route
route_lem link m b = route_checked link m b (is_valid_type m) refl

-- After a name has been deregistered, a message to it whose type is let through is refused with a
-- routing error, unless the name is a reply address.
pub route-deregister :
    (link : Link) (m : Message) (b : MessageBus)
    → is_valid_type m ≡ true
    → link.has_reply_address m.recipient ≡ false
    → starts_with m.recipient "_reply." ≡ false
    → let left = record b { registry = deregister m.recipient b.registry } in
      route link m left ≡ (routing_error, left)
unfolding route address_of lookup_entry deregister set_suspended fire_listeners
route-deregister link m b valid unknown plain =
    ground (arith, valid, unknown, plain, lookup-erase_self m.recipient b.registry.entries)

-- With fail_if_suspended a request of a valid type to a recipient that is flagged as suspended is
-- refused at once, and each other request is as without it. Without it the flags make no difference.
pub request_suspended :
    (link : Link) (m : Message) (timeout : Option ℕ) (b : MessageBus) (names : List String)
    → (request link m timeout true b ≡ (
        if is_valid_type m && is_suspended m.recipient b.registry
        then suspended
        else request link m timeout false b))
      × (request link m timeout false
            (record b { registry = record b.registry { suspended = names } })
          ≡ request link m timeout false b)
unfolding request lookup_entry
request_suspended link m timeout b names =
    (by_tests (is_valid_type m) (is_suspended m.recipient b.registry), refl)
  where
    by_tests :
        (v f : Bool)
        → (if not v
            then invalid
            else if true && f
            then suspended
            else request_to link m timeout (lookup m.recipient b.registry.entries))
          ≡ (if v && f
              then suspended
              else if not v
              then invalid
              else if false && f
              then suspended
              else request_to link m timeout (lookup m.recipient b.registry.entries))
    by_tests true true = refl
    by_tests true false = refl
    by_tests false f = refl
