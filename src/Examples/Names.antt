-- ===== src/Examples/Names.antt =====
-- The registry of civitas/registry.py at concrete names.
use python_civitas.Base.{◌≡◌, refl, inr, true, none, some, [], ◌∷◌, arith, string_eq, eq_iff}
use python_civitas.Base.Dict.{lookup, insert, erase}
use python_civitas.Registry.{LocalRegistry, done, lookup_entry, local_entry, reregister_preserving}
use python_civitas.Registry.Remote.{
  Announcement, register_remote, deregister_remote, remote_entry, drop_remote,
}
use python_civitas.Registry.Names.{no_takeover, reregister_lem}
use python_civitas.Registry.Epochs.{announces, suspends, apply_all}
use python_civitas.Registry.Burial.{no_resurrection}

abbrev worker : Announcement
worker = record {
  name = "calc";
  capabilities = "math" ∷ [];
  capability_metadata = [];
  owner = "node1";
  pubkey = "k1";
  epoch = 3;
  health_channel = "h1";
}

abbrev rival : Announcement
rival = record worker { owner = "node2"; epoch = 9 }

abbrev table : LocalRegistry
table = record {
  entries = ("calc", remote_entry worker) ∷ ("_sys", local_entry "_sys" none true [] []) ∷ [];
  listeners = 1 ∷ [];
  remote_epochs = ("calc", 3) ∷ [];
  suspended = "calc" ∷ [];
  loop_running = true;
  tasks = [];
}

calc_entry : lookup_entry "calc" table ≡ some (remote_entry worker)
unfolding lookup_entry lookup
calc_entry = refl

no_takeover_example : (register_remote rival table).1 ≡ table
no_takeover_example =
    no_takeover rival (remote_entry worker) table calc_entry
      (inr (ground (arith, eq_iff "node1" "node2")))

reregister_lem_example :
    let after = reregister_preserving "calc" table in
    (after.0 ≡ done)
    × (lookup_entry "calc" after.1
        ≡ some (record (remote_entry worker) {
          owner = "";
          pubkey = "";
          epoch = 0;
          health_channel = "";
        }))
reregister_lem_example = reregister_lem "calc" "calc" (remote_entry worker) table calc_entry refl

withdrawn : lookup_entry "calc" (deregister_remote "calc" 5 table) ≡ none
unfolding lookup_entry lookup deregister_remote insert drop_remote erase
withdrawn = refl

no_resurrection_example :
    lookup_entry "calc"
      (apply_all (announces worker ∷ suspends "calc" true ∷ []) (deregister_remote "calc" 5 table))
    ≡ none
no_resurrection_example =
    no_resurrection "calc" 5 (announces worker ∷ suspends "calc" true ∷ []) table withdrawn
      (inr (omega arith), (tt, tt))
