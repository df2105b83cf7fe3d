-- ===== src/Registry/Burial.antt =====
-- Names that a withdrawal has removed from the registry of registry.py, and what comes late for them.
use python_civitas.Base.{
  ℕ, ◌≤◌, Bool, true, false, Option, none, some, List, [], ◌∷◌, String, ltb, max, ◌==◌, nat_eq,
  string_eq, if◌then◌else◌, All, ◌≡◌, ◌≢◌, ◌⊎◌, inl, inr, arith, eq_iff, Bool-cases,
}
use python_civitas.Base.Dict.{lookup, lookup-insert, lookup-erase}
use python_civitas.Message.{Payload}
use python_civitas.Registry.{
  LocalRegistry, register, deregister, lookup_entry, local_entry, set_suspended,
}
use python_civitas.Registry.Remote.{
  register_remote, Announcement, remote_entry, is_stale, deregister_remote, raised_floor,
  store_remote,
}
use python_civitas.Registry.Epochs.{
  Operation, registers, deregisters, suspends, announces, withdraws, apply, apply_all, announced,
}

-- A name that has no entry, with the floor at which it may come back.
record IsBuried (name : String) (epoch : ℕ) (r : LocalRegistry) : Type 0 where
  seen : ℕ
  recorded : lookup name r.remote_epochs ≡ some seen
  above : epoch ≤ seen
  gone : lookup name r.entries ≡ none

-- An operation that does not register the name here, and does not announce it at a later epoch.
abbrev pub IsLate : String → ℕ → Operation → Type 0
IsLate name epoch (registers j address is_local caps metadata) = j ≢ name
IsLate name epoch (deregisters j) = Unit
IsLate name epoch (suspends j flag) = Unit
IsLate name epoch (announces a) = (a.name ≢ name) ⊎ (a.epoch ≤ epoch)
IsLate name epoch (withdraws j later) = Unit

store-IsBuried :
    (name : String) (epoch : ℕ) (a : Announcement) (r : LocalRegistry)
    → a.name ≢ name
    → IsBuried name epoch r
    → IsBuried name epoch (store_remote a (lookup a.name r.remote_epochs) r)
unfolding store_remote
store-IsBuried name epoch a r other b = record {
  seen = b.seen;
  recorded = ground (
    arith,
    lookup-insert a.name name (raised_floor (lookup a.name r.remote_epochs) a.epoch)
        r.remote_epochs,
    eq_iff a.name name,
    b.recorded,
  );
  above = b.above;
  gone =
      ground
        (arith, lookup-insert a.name name (remote_entry a) r.entries, eq_iff a.name name, b.gone);
}

late_announcement :
    (name : String) (epoch : ℕ) (a : Announcement) (r : LocalRegistry)
    → a.name ≡ name
    → a.epoch ≤ epoch
    → IsBuried name epoch r
    → (register_remote a r).1 ≡ r
unfolding register_remote
late_announcement name epoch a r same late b = ground (arith, b.recorded, b.above, b.gone)

raised-ge : (last : Option ℕ) (epoch : ℕ) → epoch ≤ raised_floor last epoch
raised-ge none epoch = omega arith
raised-ge (some n) epoch = omega arith

register-IsBuried :
    (name : String) (epoch : ℕ) (j : String) (address : Option String) (is_local : Bool)
    (caps : List String) (metadata : Payload) (r : LocalRegistry)
    → j ≢ name
    → IsBuried name epoch r
    → IsBuried name epoch (register j address is_local caps metadata r).1
unfolding register
register-IsBuried name epoch j address is_local caps metadata r other b = record {
  seen = b.seen;
  recorded = ground (arith, b.recorded);
  above = b.above;
  gone = ground (
    arith,
    lookup-insert j name (local_entry j address is_local caps metadata) r.entries,
    eq_iff j name,
    b.gone,
  );
}

deregister-IsBuried :
    (name : String) (epoch : ℕ) (j : String) (r : LocalRegistry)
    → IsBuried name epoch r
    → IsBuried name epoch (deregister j r)
unfolding deregister
deregister-IsBuried name epoch j r b = record {
  seen = b.seen;
  recorded = ground (arith, b.recorded);
  above = b.above;
  gone = ground (arith, lookup-erase j name r.entries, eq_iff j name, b.gone);
}

raised : String → String → ℕ → ℕ → LocalRegistry → ℕ
raised name j later seen r =
    if is_stale (lookup j r.remote_epochs) later
    then seen
    else if j == name
    then raised_floor (lookup j r.remote_epochs) later
    else seen

withdraw-IsBuried :
    (name : String) (epoch : ℕ) (j : String) (later : ℕ) (r : LocalRegistry)
    → IsBuried name epoch r
    → IsBuried name epoch (deregister_remote j later r)
unfolding deregister_remote raised
withdraw-IsBuried name epoch j later r b = record {
  seen = raised name j later b.seen r;
  recorded = ground (
    arith,
    lookup-insert j name (raised_floor (lookup j r.remote_epochs) later) r.remote_epochs,
    eq_iff j name,
    b.recorded,
  );
  above = ground (arith, b.above, b.recorded, eq_iff j name);
  gone = ground (arith, lookup-erase j name r.entries, eq_iff j name, b.gone);
}

suspend-IsBuried :
    (name : String) (epoch : ℕ) (j : String) (flag : Bool) (r : LocalRegistry)
    → IsBuried name epoch r
    → IsBuried name epoch (set_suspended j flag r)
unfolding set_suspended
suspend-IsBuried name epoch j true r b = record {
  seen = b.seen;
  recorded = ground (arith, b.recorded);
  above = b.above;
  gone = ground (arith, b.gone);
}
suspend-IsBuried name epoch j false r b = record {
  seen = b.seen;
  recorded = b.recorded;
  above = b.above;
  gone = b.gone;
}

announce_other-IsBuried :
    (name : String) (epoch : ℕ) (a : Announcement) (r : LocalRegistry)
    → a.name ≢ name
    → IsBuried name epoch r
    → IsBuried name epoch (register_remote a r).1
announce_other-IsBuried name epoch a r other b = elim (announced a r) [
  | inl e ↦ rw e b
  | inr (e, fresh, free) ↦ rw e (store-IsBuried name epoch a r other b)
]

apply-IsBuried :
    (name : String) (epoch : ℕ) (o : Operation) (r : LocalRegistry)
    → IsLate name epoch o
    → IsBuried name epoch r
    → IsBuried name epoch (apply o r)
unfolding apply
apply-IsBuried name epoch (registers j address is_local caps metadata) r late b =
    register-IsBuried name epoch j address is_local caps metadata r late b
apply-IsBuried name epoch (deregisters j) r late b = deregister-IsBuried name epoch j r b
apply-IsBuried name epoch (suspends j flag) r late b = suspend-IsBuried name epoch j flag r b
apply-IsBuried name epoch (announces a) r (inl other) b =
    announce_other-IsBuried name epoch a r other b
apply-IsBuried name epoch (announces a) r (inr late) b = elim (Bool-cases (a.name == name)) [
  | inl same ↦ rw (late_announcement name epoch a r ((eq_iff a.name name).0 same) late b) b
  | inr other ↦ announce_other-IsBuried name epoch a r (ground (arith, eq_iff a.name name)) b
]
apply-IsBuried name epoch (withdraws j later) r late b = withdraw-IsBuried name epoch j later r b

apply_all-IsBuried :
    (name : String) (epoch : ℕ) (os : List Operation) (r : LocalRegistry)
    → All (IsLate name epoch) os
    → IsBuried name epoch r
    → IsBuried name epoch (apply_all os r)
unfolding apply_all
apply_all-IsBuried name epoch [] r late b = b
apply_all-IsBuried name epoch (o ∷ os) r late b =
    apply_all-IsBuried name epoch os (apply o r) late.1 (apply-IsBuried name epoch o r late.0 b)

withdrawn_floor : Option ℕ → ℕ → ℕ
withdrawn_floor none epoch = epoch
withdrawn_floor (some last) epoch = if ltb epoch last then last else max epoch last

withdrawn_floor-ge : (last : Option ℕ) (epoch : ℕ) → epoch ≤ withdrawn_floor last epoch
unfolding withdrawn_floor
withdrawn_floor-ge none epoch = omega arith
withdrawn_floor-ge (some last) epoch = ground arith

recorded_withdrawal :
    (name : String) (epoch : ℕ) (r : LocalRegistry)
    → lookup name (deregister_remote name epoch r).remote_epochs
      ≡ some (withdrawn_floor (lookup name r.remote_epochs) epoch)
unfolding deregister_remote withdrawn_floor
recorded_withdrawal name epoch r = ground (
  arith,
  lookup-insert name name (raised_floor (lookup name r.remote_epochs) epoch) r.remote_epochs,
  eq_iff name name,
)

withdrawn-IsBuried :
    (name : String) (epoch : ℕ) (r : LocalRegistry)
    → lookup_entry name (deregister_remote name epoch r) ≡ none
    → IsBuried name epoch (deregister_remote name epoch r)
withdrawn-IsBuried name epoch r gone = record {
  seen = withdrawn_floor (lookup name r.remote_epochs) epoch;
  recorded = recorded_withdrawal name epoch r;
  above = withdrawn_floor-ge (lookup name r.remote_epochs) epoch;
  gone = unfold lookup_entry in gone;
}

-- Once a deregistration at an epoch has removed a name, no later operations bring it back, in any
-- order, unless it is registered here or announced at a higher epoch: announcements of it at this epoch or
-- an older one, announcements of other names, deregistrations and suspensions do not.
pub no_resurrection :
    (name : String) (epoch : ℕ) (os : List Operation) (r : LocalRegistry)
    → lookup_entry name (deregister_remote name epoch r) ≡ none
    → All (IsLate name epoch) os
    → lookup_entry name (apply_all os (deregister_remote name epoch r)) ≡ none
unfolding lookup_entry
no_resurrection name epoch os r gone late =
    (apply_all-IsBuried name epoch os (deregister_remote name epoch r) late
      (withdrawn-IsBuried name epoch r gone)).gone
