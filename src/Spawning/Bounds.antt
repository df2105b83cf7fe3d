-- ===== src/Spawning/Bounds.antt =====
-- The counters of DynamicSupervisor of civitas/supervisor.py stay within the limits.
use python_civitas.Base.{
  ℕ, suc, ◌≤◌, ◌≡◌, refl, sym, subst, Bool, true, false, Option, none, some, List, [], ◌∷◌, String,
  arith, ◌==◌, string_eq, nat_eq, if◌then◌else◌, length,
}
use python_civitas.Base.Dict.{Dict, lookup, insert, erase, lookup-insert}
use python_civitas.Spawning.{
  ChildRec, DynamicSupervisor, live_for_spawner, reached, refusal, admit, count_in, SpawnRequest,
  ChildAgent, new_rec,
}
use python_civitas.Spawning.Moves.{Counts, counts, Move, keeps, changes, drops, admits}
use python_civitas.Spawning.Handlers.{request_of, step-Move}
use python_civitas.Spawning.Steps.{Op, after_steps, IsNew}

module _ {ℓ} {V : Type ℓ} where
  length-insert_absent :
      (k : String) (v : V) (d : Dict String V)
      → lookup k d ≡ none
      → length (insert k v d) ≡ suc (length d)
  unfolding lookup insert
  length-insert_absent k v [] h = refl
  length-insert_absent k v ((j, w) ∷ d) h = ground (arith, length-insert_absent k v d)

  length-insert_present :
      (k : String) (v w : V) (d : Dict String V)
      → lookup k d ≡ some w
      → length (insert k v d) ≡ length d
  unfolding lookup insert
  length-insert_present k v w [] h = ground arith
  length-insert_present k v w ((j, u) ∷ d) h = ground (arith, length-insert_present k v w d)

  length-erase_le : (k : String) (d : Dict String V) → length (erase k d) ≤ length d
  unfolding erase
  length-erase_le k [] = omega arith
  length-erase_le k ((j, u) ∷ d) = ground (arith, length-erase_le k d)

module _ (x : String) where
  live-insert_present :
      (k : String) (names : Dict String String) (v w : ChildRec) (d : Dict String ChildRec)
      → lookup k d ≡ some w
      → live_for_spawner x names (insert k v d) ≡ live_for_spawner x names d
  unfolding lookup insert live_for_spawner
  live-insert_present k names v w [] h = ground arith
  live-insert_present k names v w ((j, u) ∷ d) h =
      ground (arith, string_eq.same_iff j k, live-insert_present k names v w d)

  live-erase_le :
      (k : String) (names : Dict String String) (d : Dict String ChildRec)
      → live_for_spawner x names (erase k d) ≤ live_for_spawner x names d
  unfolding erase live_for_spawner
  live-erase_le k names [] = omega arith
  live-erase_le k names ((j, u) ∷ d) = ground (arith, live-erase_le k names d)

  -- The spawner of a name that is not in the table does not matter.
  live_other :
      (k y : String) (names : Dict String String) (d : Dict String ChildRec)
      → lookup k d ≡ none
      → live_for_spawner x (insert k y names) d ≡ live_for_spawner x names d
  unfolding lookup live_for_spawner
  live_other k y names [] h = refl
  live_other k y names ((j, u) ∷ d) h = ground (
    arith,
    string_eq.same_iff j k,
    string_eq.same_iff k j,
    lookup-insert k j y names,
    live_other k y names d,
  )

  live-insert_absent :
      (k y : String) (names : Dict String String) (v : ChildRec) (d : Dict String ChildRec)
      → lookup k d ≡ none
      → live_for_spawner x (insert k y names) (insert k v d)
        ≡ (if y == x then suc (live_for_spawner x names d) else live_for_spawner x names d)
  unfolding lookup insert live_for_spawner
  live-insert_absent k y names v [] h =
      ground (arith, string_eq.same_iff k k, lookup-insert k k y names)
  live-insert_absent k y names v ((j, u) ∷ d) h = ground (
    arith,
    string_eq.same_iff j k,
    string_eq.same_iff k j,
    lookup-insert k j y names,
    live-insert_absent k y names v d,
  )

-- n is at most the limit, where there is one.
abbrev pub WithinLimit : Option ℕ → ℕ → Type 0
WithinLimit none n = Unit
WithinLimit (some limit) n = n ≤ limit

abbrev IsWithin : Counts → Dict String ChildRec → Type 0
IsWithin c children =
    WithinLimit c.max_children (length children)
    × WithinLimit c.max_total_spawns c.total_spawns
    × ((x : String)
        → WithinLimit c.max_children_per_spawner (live_for_spawner x c.spawner_names children))
    × ((x : String)
        → WithinLimit c.max_total_spawns_per_spawner (count_in (lookup x c.spawner_total_counts)))

abbrev pub IsBounded : DynamicSupervisor → Type 0
IsBounded s = IsWithin (counts s) s.dynamic_children

within_less : (limit : Option ℕ) (m n : ℕ) → m ≤ n → WithinLimit limit n → WithinLimit limit m
within_less none m n h k = tt
within_less (some limit) m n h k = omega (arith, h, k)

one_more :
    (limit : Option ℕ) (n : ℕ)
    → reached limit n ≡ false
    → WithinLimit limit n
    → WithinLimit limit (suc n)
one_more none n h k = tt
one_more (some limit) n h k = ground arith

if_more :
    (limit : Option ℕ) (b : Bool) (n : ℕ)
    → (b ≡ true → reached limit n ≡ false)
    → WithinLimit limit n
    → WithinLimit limit (if b then suc n else n)
if_more limit true n h k = one_more limit n (h refl) k
if_more limit false n h k = k

-- The limits leave room for one more child of this spawner.
abbrev HasRoom : String → Counts → Dict String ChildRec → Type 0
HasRoom x c children =
    (reached c.max_children (length children) ≡ false)
    × (reached c.max_total_spawns c.total_spawns ≡ false)
    × (reached c.max_children_per_spawner (live_for_spawner x c.spawner_names children) ≡ false)
    × (reached c.max_total_spawns_per_spawner (count_in (lookup x c.spawner_total_counts)) ≡ false)

refusal-HasRoom :
    (q : SpawnRequest) (s : DynamicSupervisor)
    → refusal q s ≡ none
    → HasRoom q.spawner (counts s) s.dynamic_children
unfolding refusal
refusal-HasRoom q s h = (ground arith, ground arith, ground arith, ground arith)

-- What holds of the counters and the table of a state holds of another with the same.
transported :
    (P : Counts → Dict String ChildRec → Type 0) (s t : DynamicSupervisor)
    (children : Dict String ChildRec)
    → counts t ≡ counts s
    → t.dynamic_children ≡ children
    → P (counts s) children
    → P (counts t) t.dynamic_children
transported P s t children c d h =
    subst (λ table. P (counts t) table) (sym d) (subst (λ k. P k children) (sym c) h)

total_after :
    (x y : String) (limit : Option ℕ) (totals : Dict String ℕ)
    → reached limit (count_in (lookup y totals)) ≡ false
    → WithinLimit limit (count_in (lookup x totals))
    → WithinLimit limit (count_in (lookup x (insert y (suc (count_in (lookup y totals))) totals)))
total_after x y none totals room h = tt
total_after x y (some limit) totals room h =
    ground
      (arith, string_eq.same_iff y x, lookup-insert y x (suc (count_in (lookup y totals))) totals)

spawner_after :
    (x y : String) (limit : Option ℕ) (names : Dict String String) (d : Dict String ChildRec)
    → reached limit (live_for_spawner y names d) ≡ false
    → y == x ≡ true
    → reached limit (live_for_spawner x names d) ≡ false
spawner_after x y limit names d room e =
    subst (λ z. reached limit (live_for_spawner z names d) ≡ false) ((string_eq.same_iff y x).0 e)
      room

admit-IsBounded :
    (q : SpawnRequest) (agent : ChildAgent) (s : DynamicSupervisor)
    → lookup q.name s.dynamic_children ≡ none
    → HasRoom q.spawner (counts s) s.dynamic_children
    → IsBounded s
    → IsBounded (admit q agent s)
unfolding admit
admit-IsBounded q agent s fresh room h = (
  rw (length-insert_absent q.name (new_rec q agent s) s.dynamic_children fresh)
      (one_more s.max_children _ room.0 h.0),
  one_more s.max_total_spawns s.total_spawns room.1 h.1,
  λ x.
      rw
        (live-insert_absent x q.name q.spawner s.spawner_names (new_rec q agent s)
          s.dynamic_children fresh)
        (if_more s.max_children_per_spawner (q.spawner == x) _
          (spawner_after x q.spawner s.max_children_per_spawner s.spawner_names s.dynamic_children
            room.2)
          (h.2 x)),
  λ x. total_after x q.spawner s.max_total_spawns_per_spawner s.spawner_total_counts room.3 (h.3 x),
)

move-IsBounded :
    (asked : Option SpawnRequest) (s t : DynamicSupervisor)
    → Move asked s t
    → IsBounded s
    → IsBounded t
move-IsBounded asked s t (keeps c d) h = transported IsWithin s t _ c d h
move-IsBounded asked s t (changes n r new f g c d) h =
    transported IsWithin s t (insert n new s.dynamic_children) c d (
      rw (length-insert_present n new r s.dynamic_children f) h.0,
      h.1,
      λ x. rw (live-insert_present x n s.spawner_names new r s.dynamic_children f) (h.2 x),
      h.3,
    )
move-IsBounded asked s t (drops n c d) h =
    transported IsWithin s t (erase n s.dynamic_children) c d (
      within_less s.max_children _ _ (length-erase_le n s.dynamic_children) h.0,
      h.1,
      λ x.
          within_less s.max_children_per_spawner _ _
            (live-erase_le x n s.spawner_names s.dynamic_children) (h.2 x),
      h.3,
    )
move-IsBounded asked s t (admits q agent u o f r c d e) h = subst IsBounded (sym e) (
    admit-IsBounded q agent u (rw d f)
      (transported (HasRoom q.spawner) s u _ c d (refusal-HasRoom q s r))
      (transported IsWithin s u _ c d h))

within_zero : (limit : Option ℕ) → WithinLimit limit 0
within_zero none = tt
within_zero (some limit) = omega arith

new-IsBounded : (s : DynamicSupervisor) → IsNew s → IsBounded s
unfolding lookup live_for_spawner
new-IsBounded s new = (
  rw new.0 (within_zero s.max_children),
  rw (new.5) (within_zero s.max_total_spawns),
  λ x. rw new.0 (within_zero s.max_children_per_spawner),
  λ x. rw new.6 (within_zero s.max_total_spawns_per_spawner),
)

pub run-IsBounded :
    (ops : List Op) (s : DynamicSupervisor) → IsNew s → IsBounded (after_steps ops s)
unfolding after_steps
run-IsBounded [] s new = new-IsBounded s new
run-IsBounded (op ∷ ops) s new =
    move-IsBounded (request_of op) (after_steps ops s) _ (step-Move op (after_steps ops s))
      (run-IsBounded ops s new)
