-- ===== src/Registry/Epochs.antt =====
-- Sequences of operations on the registry of registry.py, and the epoch floor of a name.
use python_civitas.Base.{
  ℕ, ◌≤◌, Bool, true, false, Option, none, some, List, [], ◌∷◌, String, nat_eq, string_eq, ◌≡◌, ◌≢◌,
  ◌⊎◌, inl, inr, arith, eq_iff,
}
use python_civitas.Base.Dict.{Dict, lookup, insert, lookup-insert}
use python_civitas.Message.{Payload}
use python_civitas.Registry.{LocalRegistry, register, deregister, set_suspended}
use python_civitas.Registry.Remote.{
  register_remote, Announcement, replace_remote, is_stale, deregister_remote, raised_floor,
  store_remote, is_resurrection,
}

-- The operations that the runtime of a node makes on its registry.
pub data Operation : Type 0 where
  registers : String → Option String → Bool → List String → Payload → Operation
  deregisters : String → Operation
  suspends : String → Bool → Operation
  announces : Announcement → Operation
  withdraws : String → ℕ → Operation

-- A ValueError leaves the registry as it was.
unfoldable pub apply : Operation → LocalRegistry → LocalRegistry
apply (registers name address is_local caps metadata) r =
    (register name address is_local caps metadata r).1
apply (deregisters name) r = deregister name r
apply (suspends name flag) r = set_suspended name flag r
apply (announces a) r = (register_remote a r).1
apply (withdraws name epoch) r = deregister_remote name epoch r

-- The registry after operations, oldest first.
unfoldable pub apply_all : List Operation → LocalRegistry → LocalRegistry
apply_all [] r = r
apply_all (o ∷ os) r = apply_all os (apply o r)

-- The least epoch at which an announcement of the name is still read.
abbrev pub floor : String → LocalRegistry → ℕ
floor name r = elim (lookup name r.remote_epochs) [ none ↦ 0 | some epoch ↦ epoch ]

-- An announcement is refused or dropped, or it is stored; then it was not stale.
pub announced :
    (a : Announcement) (r : LocalRegistry)
    → ((register_remote a r).1 ≡ r)
      ⊎ (((register_remote a r).1 ≡ store_remote a (lookup a.name r.remote_epochs) r)
          × (is_stale (lookup a.name r.remote_epochs) a.epoch ≡ false)
          × ((is_resurrection (lookup a.name r.remote_epochs) a.epoch ≡ false)
              ⊎ (lookup a.name r.entries ≢ none)))
unfolding register_remote replace_remote
announced a r = ground arith

floor-insert :
    (j name : String) (epoch : ℕ) (r : LocalRegistry) (d : Dict String ℕ)
    → d ≡ insert j (raised_floor (lookup j r.remote_epochs) epoch) r.remote_epochs
    → floor name r ≤ floor name (record r { remote_epochs = d })
floor-insert j name epoch r d e = rw e (
    ground (
      arith,
      lookup-insert j name (raised_floor (lookup j r.remote_epochs) epoch) r.remote_epochs,
      eq_iff j name,
    ))

floor-store_remote :
    (a : Announcement) (name : String) (r : LocalRegistry)
    → floor name r ≤ floor name (store_remote a (lookup a.name r.remote_epochs) r)
unfolding store_remote
floor-store_remote a name r = ground (
  arith,
  lookup-insert a.name name (raised_floor (lookup a.name r.remote_epochs) a.epoch) r.remote_epochs,
  eq_iff a.name name,
)

-- No operation lowers the epoch floor of any name.
pub floor_grows :
    (name : String) (o : Operation) (r : LocalRegistry) → floor name r ≤ floor name (apply o r)
unfolding apply register deregister set_suspended deregister_remote
floor_grows name (registers j address is_local caps metadata) r = ground arith
floor_grows name (deregisters j) r = ground arith
floor_grows name (suspends j true) r = ground arith
floor_grows name (suspends j false) r = ground arith
floor_grows name (announces a) r = elim (announced a r) [
  | inl e ↦ rw e (omega arith)
  | inr (e, fresh, free) ↦ rw e (floor-store_remote a name r)
]
floor_grows name (withdraws j epoch) r = ground (
  arith,
  lookup-insert j name (raised_floor (lookup j r.remote_epochs) epoch) r.remote_epochs,
  eq_iff j name,
)
