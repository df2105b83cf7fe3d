-- ===== src/Registry/Remote.antt =====
-- Remote entries of civitas/registry.py: what other nodes announce and withdraw, by epoch.
use python_civitas.Base.{
  ℕ, Bool, false, not, ◌&&◌, Option, none, some, List, String, ltb, leb, max, ◌==◌, nat_eq,
  string_eq, if◌then◌else◌,
}
use python_civitas.Base.Dict.{lookup, insert, erase}
use python_civitas.Message.{Payload}
use python_civitas.Registry.{
  RoutingEntry, LocalRegistry, Result, done, value_error, registered, deregistered, fire_listeners,
}

-- What a worker announces of a remote agent.
pub record Announcement : Type 0 where
  pub name : String
  pub capabilities : List String
  pub capability_metadata : Payload
  pub owner : String
  pub pubkey : String
  pub epoch : ℕ
  pub health_channel : String

abbrev pub remote_entry : Announcement → RoutingEntry
remote_entry a = record {
  name = a.name;
  address = a.name;
  is_local = false;
  capabilities = a.capabilities;
  capability_metadata = a.capability_metadata;
  owner = a.owner;
  pubkey = a.pubkey;
  epoch = a.epoch;
  health_channel = a.health_channel;
}

-- last_epoch is not None and epoch < last_epoch
abbrev pub is_stale : Option ℕ → ℕ → Bool
is_stale none epoch = false
is_stale (some last) epoch = ltb epoch last

-- last_epoch is not None and epoch <= last_epoch
abbrev pub is_resurrection : Option ℕ → ℕ → Bool
is_resurrection none epoch = false
is_resurrection (some last) epoch = leb epoch last

abbrev pub raised_floor : Option ℕ → ℕ → ℕ
raised_floor none epoch = epoch
raised_floor (some last) epoch = max epoch last

-- existing.pubkey and pubkey and existing.pubkey != pubkey
abbrev pub key_conflict : String → String → Bool
key_conflict old new = not (old == "") && not (new == "") && not (old == new)

unfoldable pub store_remote : Announcement → Option ℕ → LocalRegistry → LocalRegistry
unfolding insert fire_listeners
store_remote a last r = fire_listeners (remote_entry a) registered (record r {
  entries = insert a.name (remote_entry a) r.entries;
  remote_epochs = insert a.name (raised_floor last a.epoch) r.remote_epochs;
})

-- The checks against an entry of the same name.
unfoldable pub replace_remote :
    Announcement → Option ℕ → RoutingEntry → LocalRegistry → Result × LocalRegistry
replace_remote a last existing r =
    if existing.is_local
    then (value_error, r)
    else if not (existing.owner == a.owner)
    then (value_error, r)
    else if key_conflict existing.pubkey a.pubkey && leb a.epoch existing.epoch
    then (value_error, r)
    else if leb a.epoch existing.epoch
    then (done, r)
    else (done, store_remote a last r)

unfoldable pub register_remote : Announcement → LocalRegistry → Result × LocalRegistry
unfolding lookup replace_remote
register_remote a r =
    let last = lookup a.name r.remote_epochs in
    if is_stale last a.epoch then (done, r) else elim (lookup a.name r.entries) [
      | some existing ↦ replace_remote a last existing r
      | none ↦ if is_resurrection last a.epoch then (done, r) else (done, store_remote a last r)
    ]

-- Only a remote entry is removed.
unfoldable pub drop_remote : String → Option RoutingEntry → LocalRegistry → LocalRegistry
unfolding erase fire_listeners
drop_remote name none r = r
drop_remote name (some e) r =
    if e.is_local
    then r
    else fire_listeners e deregistered (record r { entries = erase name r.entries })

unfoldable pub deregister_remote : String → ℕ → LocalRegistry → LocalRegistry
unfolding lookup insert drop_remote
deregister_remote name epoch r =
    let last = lookup name r.remote_epochs in
    if is_stale last epoch
    then r
    else drop_remote name (lookup name r.entries)
        (record r { remote_epochs = insert name (raised_floor last epoch) r.remote_epochs })
