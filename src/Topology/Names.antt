-- ===== src/Topology/Names.antt =====
-- The names that `civitas topology validate` of civitas/cli/topology.py collects and compares.
use python_civitas.Base.{
  ℕ, ◌+◌, ◌≤◌, ◌≡◌, refl, Bool, true, false, not, Option, ◌⊎◌, inl, inr, none, some, List, [], ◌∷◌,
  String, arith, ◌==◌, string_eq, if◌then◌else◌, contains,
}
use python_civitas.Topology.{
  naming, configuration, duplicate, conflict, strategy, backoff, max_restarts, Node, supervisor,
  agent, plain, Nodes, nil, cons, Walk, or_default, is_strategy, is_backoff, is_count, fail_unless,
  add_supervisor, note_empty, is_plain, validate_node, validate_nodes, check_duplicates,
  check_conflicts, is_passed,
}

-- How many agents of a tree have a name, and how many of its supervisors.
abbrev pub has_name : String → Option String → ℕ
has_name x none = 0
has_name x (some name) = if name == "" then 0 else if name == x then 1 else 0

abbrev pub is_name : String → String → ℕ
is_name x name = if name == x then 1 else 0

unfoldable mutual
  pub agents_called : String → Node → ℕ
  agents_called x (supervisor name strat back restarts children) = all_agents_called x children
  agents_called x (agent name kind) = has_name x name
  agents_called x (plain kind name has_class) =
      if is_plain kind name has_class then has_name x name else 0

  pub all_agents_called : String → Nodes → ℕ
  all_agents_called x nil = 0
  all_agents_called x (cons n ns) = agents_called x n + all_agents_called x ns

unfoldable mutual
  pub supervisors_called : String → Node → ℕ
  supervisors_called x (supervisor name strat back restarts children) =
      is_name x (or_default "<unnamed>" name) + all_supervisors_called x children
  supervisors_called x (agent name kind) = 0
  supervisors_called x (plain kind name has_class) = 0

  pub all_supervisors_called : String → Nodes → ℕ
  all_supervisors_called x nil = 0
  all_supervisors_called x (cons n ns) = supervisors_called x n + all_supervisors_called x ns

unfoldable pub occurrences : String → List String → ℕ
occurrences x [] = 0
occurrences x (n ∷ ns) = is_name x n + occurrences x ns

abbrev SameNames : String → Walk → Walk → ℕ → ℕ → Type 0
SameNames x w after agents supervisors =
    (occurrences x after.agent_names ≡ agents + occurrences x w.agent_names)
    × (occurrences x after.supervisor_names ≡ supervisors + occurrences x w.supervisor_names)

supervisor_names_of :
    (x : String) (a b c : Bool) (name : String) (children : Nodes) (w : Walk)
    → let after = note_empty children (
        fail_unless c configuration max_restarts (
          fail_unless b configuration backoff
            (fail_unless a configuration strategy (add_supervisor name w)))) in
      SameNames x w after 0 (is_name x name)
unfolding occurrences
supervisor_names_of x a b c name children w = (ground arith, ground arith)

mutual
  unfolding validate_node agents_called supervisors_called occurrences

  collects :
      (x : String) (n : Node) (w : Walk)
      → SameNames x w (validate_node n w) (agents_called x n) (supervisors_called x n)
  collects x (supervisor name strat back restarts children) w =
      let own =
        supervisor_names_of x (is_strategy strat) (is_backoff back) (is_count restarts)
          (or_default "<unnamed>" name) children w in
      let rest = collects_all x children (
        note_empty children (
          fail_unless (is_count restarts) configuration max_restarts (
            fail_unless (is_backoff back) configuration backoff (
              fail_unless (is_strategy strat) configuration strategy
                (add_supervisor (or_default "<unnamed>" name) w))))) in
      (omega (arith, own.0, rest.0), omega (arith, own.1, rest.1))
  collects x (agent name kind) w = (ground arith, ground arith)
  collects x (plain kind name has_class) w = (ground arith, ground arith)

  pub collects_all :
      (x : String) (ns : Nodes) (w : Walk)
      → SameNames x w (validate_nodes ns w) (all_agents_called x ns) (all_supervisors_called x ns)
  collects_all x nil w = (omega arith, omega arith)
  collects_all x (cons n ns) w =
      let first = collects x n w in
      let rest = collects_all x ns (validate_node n w) in
      (omega (arith, first.0, rest.0), omega (arith, first.1, rest.1))

contains-occurrences :
    (x : String) (ns : List String) → contains x ns ≡ false → occurrences x ns ≡ 0
unfolding occurrences
contains-occurrences x [] h = refl
contains-occurrences x (n ∷ ns) h = ground (arith, h, contains-occurrences x ns)

pub duplicates-checked :
    (x : String) (ns seen : List String) (w : Walk)
    → is_passed (check_duplicates ns seen w) ≡ true
    → (is_passed w ≡ true)
      × (occurrences x ns ≤ 1)
      × (contains x seen ≡ false ⊎ (occurrences x ns ≡ 0))
unfolding occurrences check_duplicates is_passed
duplicates-checked x [] seen w h = (h, omega arith, inr refl)
duplicates-checked x (n ∷ ns) seen w h = ground (
  arith,
  duplicates-checked x ns (n ∷ seen) (fail_unless (not (contains n seen)) naming duplicate w) h,
  string_eq.same_iff n x,
)

pub conflicts-checked :
    (x : String) (ns supervisors : List String) (w : Walk)
    → is_passed (check_conflicts ns supervisors w) ≡ true
    → (is_passed w ≡ true) × ((occurrences x ns ≡ 0) ⊎ (occurrences x supervisors ≡ 0))
unfolding occurrences check_conflicts is_passed
conflicts-checked x [] supervisors w h = (h, inl refl)
conflicts-checked x (n ∷ ns) supervisors w h = ground (
  arith,
  conflicts-checked x ns supervisors (fail_unless (not (contains n supervisors)) naming conflict w)
      h,
  string_eq.same_iff n x,
  contains-occurrences x supervisors,
)
