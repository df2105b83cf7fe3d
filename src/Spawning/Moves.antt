-- ===== src/Spawning/Moves.antt =====
-- What a step of DynamicSupervisor of civitas/supervisor.py does to the table of children, to the
-- counters.
use python_civitas.Base.{
  ℕ, ◌≡◌, refl, Bool, true, false, Option, none, some, String, arith, ◌==◌, nat_eq, string_eq, inl,
  inr, Option-cases, Bool-cases, if◌then◌else◌,
}
use python_civitas.Base.Dict.{Dict, lookup, insert, erase}
use python_civitas.Agent.{ProcessStatus}
use python_civitas.Spawning.{
  ChildAgent, ChildRec, DynamicSupervisor, SpawnRequest, refusal, admit, Outcome,
}
use python_civitas.Spawning.Exits.{
  update_rec, remove_child, announce_child, announce_deregister, maybe_announce_deregister,
  clear_child_marker, notify_spawner, terminal_cleanup, handle_despawn, handle_stop, begin_announce,
  mark_announced, let_go,
}

pub record Counts : Type 0 where
  pub max_children : Option ℕ
  pub max_total_spawns : Option ℕ
  pub max_children_per_spawner : Option ℕ
  pub max_total_spawns_per_spawner : Option ℕ
  pub spawner_names : Dict String String
  pub spawner_total_counts : Dict String ℕ
  pub total_spawns : ℕ
  pub spawn_epoch : ℕ

abbrev pub counts : DynamicSupervisor → Counts
counts s = record {
  max_children = s.max_children;
  max_total_spawns = s.max_total_spawns;
  max_children_per_spawner = s.max_children_per_spawner;
  max_total_spawns_per_spawner = s.max_total_spawns_per_spawner;
  spawner_names = s.spawner_names;
  spawner_total_counts = s.spawner_total_counts;
  total_spawns = s.total_spawns;
  spawn_epoch = s.spawn_epoch;
}

-- What one step does: the table stays, one record of it is replaced by one of the same epoch, a child
-- leaves it, or the child that is asked for is admitted.
pub data Move (asked : Option SpawnRequest) (s t : DynamicSupervisor) : Type 0 where
  keeps : counts t ≡ counts s → t.dynamic_children ≡ s.dynamic_children → Move asked s t
  changes :
      (name : String) (rec new : ChildRec)
      → lookup name s.dynamic_children ≡ some rec
      → new.epoch ≡ rec.epoch
      → counts t ≡ counts s
      → t.dynamic_children ≡ insert name new s.dynamic_children
      → Move asked s t
  drops :
      (name : String)
      → counts t ≡ counts s
      → t.dynamic_children ≡ erase name s.dynamic_children
      → Move asked s t
  admits :
      (q : SpawnRequest) (agent : ChildAgent) (u : DynamicSupervisor)
      → asked ≡ some q
      → lookup q.name s.dynamic_children ≡ none
      → refusal q s ≡ none
      → counts u ≡ counts s
      → u.dynamic_children ≡ s.dynamic_children
      → t ≡ admit q agent u
      → Move asked s t

pub unchanged : (asked : Option SpawnRequest) (s : DynamicSupervisor) → Move asked s s
unchanged asked s = keeps refl refl

pub if-Move :
    {asked : Option SpawnRequest} {s t u : DynamicSupervisor} (b : Bool)
    → Move asked s t
    → Move asked s u
    → Move asked s (if b then t else u)
if-Move true m n = m
if-Move false m n = n

pub terminal_cleanup-Move :
    (name : String) (s : DynamicSupervisor) → Move none s (terminal_cleanup name s)
unfolding lookup terminal_cleanup remove_child maybe_announce_deregister announce_deregister
terminal_cleanup-Move name s = drops name (ground arith) (ground arith)

pub handle_despawn-Move :
    (name : String) (s : DynamicSupervisor) → Move none s (handle_despawn name s).1
unfolding lookup handle_despawn remove_child clear_child_marker maybe_announce_deregister
    announce_deregister
handle_despawn-Move name s = elim (Option-cases (lookup name s.dynamic_children)) [
  | inl gone ↦ keeps (ground arith) (ground arith)
  | inr (rec, found) ↦ drops name (ground arith) (ground arith)
]

pub handle_stop-Move : (name : String) (s : DynamicSupervisor) → Move none s (handle_stop name s).1
unfolding lookup handle_stop remove_child maybe_announce_deregister announce_deregister
handle_stop-Move name s = elim (Option-cases (lookup name s.dynamic_children)) [
  | inl gone ↦ keeps (ground arith) (ground arith)
  | inr (rec, found) ↦ drops name (ground arith) (ground arith)
]

-- A change of a record in a state that has the counters and the table of `s`.
pub update_rec-Move :
    (name : String) (epoch : ℕ) (change : ChildRec → ChildRec) (t s : DynamicSupervisor)
    → ((rec : ChildRec) → (change rec).epoch ≡ rec.epoch)
    → counts t ≡ counts s
    → t.dynamic_children ≡ s.dynamic_children
    → Move none s (update_rec name epoch change t)
unfolding update_rec
update_rec-Move name epoch change t s same c d =
    elim (Option-cases (lookup name s.dynamic_children)) [
      | inl gone ↦ keeps (ground (arith, c, d)) (ground (arith, d))
      | inr (rec, found) ↦ elim (Bool-cases (rec.epoch == epoch)) [
        | inl held ↦
            changes name rec (change rec) found (same rec) (ground (arith, c, d))
              (ground (arith, d))
        | inr other ↦ keeps (ground (arith, c, d)) (ground (arith, d))
      ]
    ]

pub begin_announce-Move :
    (seen : ProcessStatus) (name : String) (epoch : ℕ) (s : DynamicSupervisor)
    → Move none s (begin_announce seen name epoch s).1
unfolding begin_announce announce_child
begin_announce-Move seen name epoch s = keeps (ground arith) (ground arith)

pub mark_announced-Move :
    (name : String) (epoch : Option ℕ) (s : DynamicSupervisor)
    → Move none s (mark_announced name epoch s)
unfolding mark_announced
mark_announced-Move name none s = unchanged none s
mark_announced-Move name (some epoch) s = update_rec-Move name epoch _ s s (λ rec. refl) refl refl

pub let_go-Move :
    (name : String) (rec : ChildRec) (reason : Outcome) (s : DynamicSupervisor)
    → lookup name s.dynamic_children ≡ some rec
    → Move none s (let_go name rec reason s)
unfolding lookup let_go remove_child clear_child_marker maybe_announce_deregister
    announce_deregister notify_spawner
let_go-Move name rec reason s found = drops name (ground arith) (ground arith)
