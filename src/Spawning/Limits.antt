-- ===== src/Spawning/Limits.antt =====
-- The limits of DynamicSupervisor of civitas/supervisor.py against the admissions of a run.
use python_civitas.Base.{
  ℕ, suc, ◌≡◌, refl, sym, subst, ◌∙◌, Bool, true, false, Option, none, some, List, [], ◌∷◌, String,
  arith, ◌==◌, string_eq, ap, nat_eq, if◌then◌else◌, length,
}
use python_civitas.Base.Dict.{Dict, lookup, lookup-insert, lookup-erase, lookup-insert_self}
use python_civitas.Spawning.{
  ChildRec, DynamicSupervisor, live_for_spawner, admit, count_in, SpawnRequest, ChildAgent, new_rec,
}
use python_civitas.Spawning.Moves.{Counts, counts, Move, keeps, changes, drops, admits}
use python_civitas.Spawning.Handlers.{request_of, step-Move}
use python_civitas.Spawning.Steps.{Op, after_steps, IsNew}
use python_civitas.Spawning.Bounds.{WithinLimit, run-IsBounded}

abbrev is_held : Option ChildRec → Bool
is_held none = false
is_held (some rec) = true

-- A spawn request that puts a child into the table that was not there, noted with its spawner.
noted :
    Option SpawnRequest
    → DynamicSupervisor
    → DynamicSupervisor
    → Dict String String
    → Dict String String
noted none s t ledger = ledger
noted (some q) s t ledger =
    if is_held (lookup q.name s.dynamic_children)
    then ledger
    else if is_held (lookup q.name t.dynamic_children)
    then (q.name, q.spawner) ∷ ledger
    else ledger

-- The admissions of a run, the newest first: who was admitted, and for whom.
unfoldable pub admissions : List Op → DynamicSupervisor → Dict String String
unfolding noted after_steps
admissions [] s = []
admissions (op ∷ ops) s =
    noted (request_of op) (after_steps ops s) (after_steps (op ∷ ops) s) (admissions ops s)

-- How many of the admissions were for a spawner, and how many children have one as their last.
unfoldable pub admissions_for : String → Dict String String → ℕ
admissions_for x [] = 0
admissions_for x ((name, spawner) ∷ ledger) =
    let rest = admissions_for x ledger in if spawner == x then suc rest else rest

abbrev pub is_for : String → Option String → Bool
is_for x none = false
is_for x (some spawner) = spawner == x

unfoldable pub living_for : String → Dict String String → Dict String ChildRec → ℕ
unfolding lookup
living_for x ledger [] = 0
living_for x ledger ((name, rec) ∷ children) =
    let rest = living_for x ledger children in
    if is_for x (lookup name ledger) then suc rest else rest

-- The counters tell the admissions.
record Tracks (ledger : Dict String String) (c : Counts) : Type 0 where
  total : c.total_spawns ≡ length ledger
  totals : (x : String) → count_in (lookup x c.spawner_total_counts) ≡ admissions_for x ledger
  names : (n : String) → lookup n c.spawner_names ≡ lookup n ledger

noted_nothing :
    (asked : Option SpawnRequest) (s t : DynamicSupervisor) (ledger : Dict String String)
    → ((n : String)
        → is_held (lookup n s.dynamic_children) ≡ false
        → is_held (lookup n t.dynamic_children) ≡ false)
    → noted asked s t ledger ≡ ledger
unfolding noted
noted_nothing none s t ledger h = refl
noted_nothing (some q) s t ledger h = ground (arith, h q.name)

noted_one :
    (q : SpawnRequest) (asked : Option SpawnRequest) (s t : DynamicSupervisor)
    (ledger : Dict String String)
    → asked ≡ some q
    → lookup q.name s.dynamic_children ≡ none
    → is_held (lookup q.name t.dynamic_children) ≡ true
    → noted asked s t ledger ≡ (q.name, q.spawner) ∷ ledger
unfolding noted
noted_one q asked s t ledger o absent present = rw (o, absent, present) refl

admit-Tracks :
    (q : SpawnRequest) (agent : ChildAgent) (u : DynamicSupervisor) (ledger : Dict String String)
    → Tracks ledger (counts u)
    → Tracks ((q.name, q.spawner) ∷ ledger) (counts (admit q agent u))
unfolding admit admissions_for lookup
admit-Tracks q agent u ledger h = record {
  total = ap suc h.total;
  totals = λ x. ground (
    arith,
    h.totals x,
    h.totals q.spawner,
    string_eq.same_iff q.spawner x,
    lookup-insert q.spawner x (suc (count_in (lookup q.spawner u.spawner_total_counts)))
        u.spawner_total_counts,
  );
  names = λ n. ground (arith, h.names n, lookup-insert q.name n q.spawner u.spawner_names);
}

-- The limits and the counters of a run, whose start is `s`.
record IsRun (s : DynamicSupervisor) (ledger : Dict String String) (t : DynamicSupervisor)
    : Type 0 where
  max_children : t.max_children ≡ s.max_children
  max_total : t.max_total_spawns ≡ s.max_total_spawns
  max_each : t.max_children_per_spawner ≡ s.max_children_per_spawner
  max_total_each : t.max_total_spawns_per_spawner ≡ s.max_total_spawns_per_spawner
  tracks : Tracks ledger (counts t)

same_counts-IsRun :
    (s t u : DynamicSupervisor) (ledger : Dict String String)
    → counts u ≡ counts t
    → IsRun s ledger t
    → IsRun s ledger u
same_counts-IsRun s t u ledger c h = record {
  max_children = ap (λ k. k.max_children) c ∙ h.max_children;
  max_total = ap (λ k. k.max_total_spawns) c ∙ h.max_total;
  max_each = ap (λ k. k.max_children_per_spawner) c ∙ h.max_each;
  max_total_each = ap (λ k. k.max_total_spawns_per_spawner) c ∙ h.max_total_each;
  tracks = subst (Tracks ledger) (sym c) h.tracks;
}

admit-IsRun :
    (s : DynamicSupervisor) (q : SpawnRequest) (agent : ChildAgent) (u : DynamicSupervisor)
    (ledger : Dict String String)
    → IsRun s ledger u
    → IsRun s ((q.name, q.spawner) ∷ ledger) (admit q agent u)
unfolding admit
admit-IsRun s q agent u ledger h = record {
  max_children = h.max_children;
  max_total = h.max_total;
  max_each = h.max_each;
  max_total_each = h.max_total_each;
  tracks = admit-Tracks q agent u ledger h.tracks;
}

module _ (s a b : DynamicSupervisor) (asked : Option SpawnRequest)
    (ledger : Dict String String) where
  no_newcomer :
      counts b ≡ counts a
      → ((n : String)
          → is_held (lookup n a.dynamic_children) ≡ false
          → is_held (lookup n b.dynamic_children) ≡ false)
      → IsRun s ledger a
      → IsRun s (noted asked a b ledger) b
  no_newcomer c h run =
      subst (λ l. IsRun s l b) (sym (noted_nothing asked a b ledger h))
        (same_counts-IsRun s a b ledger c run)

  newcomer_present :
      (q : SpawnRequest) (agent : ChildAgent) (u : DynamicSupervisor)
      → b ≡ admit q agent u
      → is_held (lookup q.name b.dynamic_children) ≡ true
  unfolding admit
  newcomer_present q agent u e =
      ap (λ t. is_held (lookup q.name t.dynamic_children)) e
      ∙ ap is_held (lookup-insert_self q.name (new_rec q agent u) u.dynamic_children)

  move-IsRun : Move asked a b → IsRun s ledger a → IsRun s (noted asked a b ledger) b
  move-IsRun (keeps c d) run =
      no_newcomer c (λ n h. ap (λ table. is_held (lookup n table)) d ∙ h) run
  move-IsRun (changes name rec new f g c d) run =
      no_newcomer c
        (λ n h.
          ap (λ table. is_held (lookup n table)) d
          ∙ ground
              (arith, h, f, lookup-insert name n new a.dynamic_children, string_eq.same_iff name n))
        run
  move-IsRun (drops name c d) run =
      no_newcomer c
        (λ n h.
          ap (λ table. is_held (lookup n table)) d
          ∙ ground (arith, h, lookup-erase name n a.dynamic_children))
        run
  move-IsRun (admits q agent u o f r c d e) run =
      subst (λ l. IsRun s l b)
        (sym (noted_one q asked a b ledger o f (newcomer_present q agent u e)))
        (subst (IsRun s ((q.name, q.spawner) ∷ ledger)) (sym e)
          (admit-IsRun s q agent u ledger (same_counts-IsRun s a u ledger c run)))

after_steps-IsRun :
    (ops : List Op) (s : DynamicSupervisor)
    → IsNew s
    → IsRun s (admissions ops s) (after_steps ops s)
unfolding after_steps admissions admissions_for lookup
after_steps-IsRun [] s new = record {
  max_children = refl;
  max_total = refl;
  max_each = refl;
  max_total_each = refl;
  tracks = record { total = new.5; totals = λ x. rw new.6 refl; names = λ n. rw new.2 refl };
}
after_steps-IsRun (op ∷ ops) s new =
    move-IsRun s (after_steps ops s) (after_steps (op ∷ ops) s) (request_of op) (admissions ops s)
      (step-Move op (after_steps ops s)) (after_steps-IsRun ops s new)

living_for-tracked :
    (x : String) (names ledger : Dict String String) (children : Dict String ChildRec)
    → ((n : String) → lookup n names ≡ lookup n ledger)
    → live_for_spawner x names children ≡ living_for x ledger children
unfolding live_for_spawner living_for
living_for-tracked x names ledger [] h = refl
living_for-tracked x names ledger ((n, rec) ∷ children) h =
    ground (arith, h n, living_for-tracked x names ledger children h)

-- The limits of `s` on a table and on the admissions up to it.
abbrev pub AreWithin : DynamicSupervisor → Dict String String → Dict String ChildRec → Type 0
AreWithin s ledger children =
    WithinLimit s.max_children (length children)
    × WithinLimit s.max_total_spawns (length ledger)
    × ((x : String) → WithinLimit s.max_children_per_spawner (living_for x ledger children))
    × ((x : String) → WithinLimit s.max_total_spawns_per_spawner (admissions_for x ledger))

-- Whatever the limits that __init__ sets, and after any steps from there: the children are at most
-- max_children, and those that were last admitted for one spawner at most max_children_per_spawner;
-- the requests that so far put a new child into the table are at most max_total_spawns in all, and
-- max_total_spawns_per_spawner for one spawner. A limit that is not given allows anything.
pub limits_hold :
    (ops : List Op) (s : DynamicSupervisor)
    → IsNew s
    → AreWithin s (admissions ops s) (after_steps ops s).dynamic_children
limits_hold ops s new =
    let t = after_steps ops s in
    let bounded = run-IsBounded ops s new in
    let run = after_steps-IsRun ops s new in
    (
      subst (λ limit. WithinLimit limit (length t.dynamic_children)) run.max_children bounded.0,
      rw (sym run.tracks.total)
          (subst (λ limit. WithinLimit limit t.total_spawns) run.max_total bounded.1),
      λ x.
          rw
            (sym (
              living_for-tracked x t.spawner_names (admissions ops s) t.dynamic_children
                run.tracks.names))
            (subst
              (λ limit. WithinLimit limit (live_for_spawner x t.spawner_names t.dynamic_children))
              run.max_each (bounded.2 x)),
      λ x. rw (sym (run.tracks.totals x)) (
          subst (λ limit. WithinLimit limit (count_in (lookup x t.spawner_total_counts)))
            run.max_total_each (bounded.3 x)),
    )
