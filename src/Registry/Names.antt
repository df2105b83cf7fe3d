-- ===== src/Registry/Names.antt =====
-- Names in the registry: who may take one, and what a re-registration keeps.
use python_civitas.Base.{
  Bool, true, false, not, ◌&&◌, Option, none, some, List, [], ◌∷◌, String, ◌==◌, nat_eq, string_eq,
  if◌then◌else◌, filter, contains, ◌≡◌, refl, ◌≢◌, ◌⊎◌, arith, eq_iff,
}
use python_civitas.Base.Dict.{erase, lookup-insert, lookup-erase}
use python_civitas.Message.{Payload}
use python_civitas.Registry.{
  has, RoutingEntry, LocalRegistry, done, value_error, register, deregister, lookup_entry,
  reregister_preserving, local_entry, is_suspended, fire_listeners,
}
use python_civitas.Registry.Remote.{register_remote, Announcement}

entries-fire_listeners :
    (e : RoutingEntry) (c : _) (r : LocalRegistry) → (fire_listeners e c r).entries ≡ r.entries
unfolding fire_listeners
entries-fire_listeners e c r = ground arith

-- An entry that is local or has another owner survives every announcement of its name: the registry
-- is unchanged, whether the announcement is dropped as stale or refused.
pub no_takeover :
    (a : Announcement) (existing : RoutingEntry) (r : LocalRegistry)
    → lookup_entry a.name r ≡ some existing
    → (existing.is_local ≡ true) ⊎ (existing.owner ≢ a.owner)
    → (register_remote a r).1 ≡ r
unfolding lookup_entry register_remote
no_takeover a existing r present foreign = ground (arith, eq_iff existing.owner a.owner)

discarded :
    (name : String) (ns : List String) → contains name (filter (λ n. not (n == name)) ns) ≡ false
discarded name [] = refl
discarded name (n ∷ ns) = ground (arith, discarded name ns)

-- A name stands for one entry: `register` raises and changes nothing when the name is taken, and
-- otherwise makes exactly this name resolve to the new entry; after `deregister` it resolves to
-- nothing and is not suspended, and every other name resolves as before.
pub register-deregister :
    (name j : String) (address : Option String) (is_local : Bool) (caps : List String)
    (metadata : Payload) (r : LocalRegistry)
    → let after = register name address is_local caps metadata r in
      (after.0 ≡ (if has name r then value_error else done))
      × (lookup_entry j after.1 ≡ (
          if not (has name r) && (name == j)
          then some (local_entry name address is_local caps metadata)
          else lookup_entry j r))
      × (lookup_entry j (deregister name r) ≡ (if name == j then none else lookup_entry j r))
      × (is_suspended name (deregister name r) ≡ false)
unfolding lookup_entry register deregister has is_suspended
register-deregister name j address is_local caps metadata r = (
  ground arith,
  ground (
    arith,
    lookup-insert name j (local_entry name address is_local caps metadata) r.entries,
    eq_iff name j,
  ),
  ground (arith, lookup-erase name j r.entries, eq_iff name j),
  ground (arith, discarded name r.suspended),
)

-- A re-registration of a name whose entry carries that name succeeds and leaves every other name
-- alone. It keeps the address, the locality, the capabilities and their metadata of the entry, and
-- clears its owner, public key, epoch and health channel.
pub reregister_lem :
    (name j : String) (e : RoutingEntry) (r : LocalRegistry)
    → lookup_entry name r ≡ some e
    → e.name ≡ name
    → let after = reregister_preserving name r in
      (after.0 ≡ done)
      × (lookup_entry j after.1 ≡ (
          if name == j
          then some (record e { owner = ""; pubkey = ""; epoch = 0; health_channel = "" })
          else lookup_entry j r))
unfolding lookup_entry reregister_preserving
reregister_lem name j e r present named =
    let e' = local_entry name (some e.address) e.is_local e.capabilities e.capability_metadata in
    (
      ground (arith, lookup-erase name name r.entries, eq_iff name name),
      ground (
        arith,
        lookup-erase name name r.entries,
        lookup-erase name j r.entries,
        lookup-insert name j e' (erase name r.entries),
        eq_iff name name,
        eq_iff name j,
      ),
    )
