-- ===== src/Topology.antt =====
-- The checks of `civitas topology validate` in civitas/cli/topology.py on a parsed topology file.
-- A node is what the code looks at in its dict. Strategies and policies are in capitals, as upper()
-- makes them; a check is known by its category and by what it is about. Checks and names are kept
-- newest first.
pub mod Shape
pub mod Names
pub mod Soundness
use python_civitas.Base.{
  ℕ, ◌+◌, Bool, true, false, not, ◌&&◌, ◌||◌, Option, none, some, List, [], ◌∷◌, String, ◌==◌,
  string_eq, if◌then◌else◌, all, any, contains,
}

pub data Category : Type 0 where
  structure naming configuration : Category

pub data Subject : Type 0 where
  syntax section empty_supervisor well_formed node_kind : Subject
  missing_name missing_type all_named duplicate conflict : Subject
  strategy backoff max_restarts transport : Subject

pub record Check : Type 0 where
  pub category : Category
  pub subject : Subject
  pub passed : Bool

-- s.get("max_restarts", 3): absent, a number that is not negative, or anything else
pub data Restarts : Type 0 where
  absent : Restarts
  number : ℕ → Restarts
  malformed : Restarts

mutual
  -- {"supervisor": {name, strategy, backoff, max_restarts, children}}, {"agent": {name, type}}, and a
  -- node with type, name, and whether it has module and class
  pub data Node : Type 0 where
    supervisor : Option String → Option String → Option String → Restarts → Nodes → Node
    agent : Option String → Option String → Node
    plain : Option String → Option String → Bool → Node

  pub data Nodes : Type 0 where
    nil : Nodes
    cons : Node → Nodes → Nodes

pub record Config : Type 0 where
  pub name : Option String
  pub strategy : Option String
  pub backoff : Option String
  pub children : Nodes
  pub transport : Option (Option String)

pub record Walk : Type 0 where
  pub checks : List Check
  pub agent_names : List String
  pub supervisor_names : List String
  pub has_empty_sup : Bool

abbrev pub or_default : String → Option String → String
or_default default none = default
or_default default (some s) = s

abbrev pub valid_strategies : List String
valid_strategies = "ONE_FOR_ONE" ∷ "ONE_FOR_ALL" ∷ "REST_FOR_ONE" ∷ []

abbrev pub valid_backoff : List String
valid_backoff = "CONSTANT" ∷ "LINEAR" ∷ "EXPONENTIAL" ∷ []

abbrev pub valid_transports : List String
valid_transports = "in_process" ∷ "zmq" ∷ "nats" ∷ []

abbrev pub is_strategy : Option String → Bool
is_strategy s = contains (or_default "ONE_FOR_ONE" s) valid_strategies

abbrev pub is_backoff : Option String → Bool
is_backoff s = contains (or_default "CONSTANT" s) valid_backoff

abbrev pub is_count : Restarts → Bool
is_count malformed = false
is_count _ = true

-- `if not value`, for a string that may be absent
abbrev pub is_given : Option String → Bool
is_given none = false
is_given (some s) = not (s == "")

abbrev pub is_empty : Nodes → Bool
is_empty nil = true
is_empty (cons n ns) = false

abbrev pub record_check : Category → Subject → Bool → Walk → Walk
record_check category subject passed w = record w {
  checks = record { category = category; subject = subject; passed = passed } ∷ w.checks;
}

abbrev pub fail_unless : Bool → Category → Subject → Walk → Walk
fail_unless good category subject w = if good then w else record_check category subject false w

abbrev pub add_agent : Option String → Walk → Walk
add_agent none w = w
add_agent (some name) w = if name == "" then w else record w { agent_names = name ∷ w.agent_names }

abbrev pub add_supervisor : String → Walk → Walk
add_supervisor name w = record w { supervisor_names = name ∷ w.supervisor_names }

abbrev pub note_empty : Nodes → Walk → Walk
note_empty ns w = if is_empty ns then record w { has_empty_sup = true } else w

-- A node with a type: a known one, or any with a name.
abbrev pub is_plain : Option String → Option String → Bool → Bool
is_plain none name has_class = false
is_plain (some t) none has_class =
    ((t == "gen_server" || t == "agent") && has_class)
    || (t == "dynamic_supervisor"
        || (t == "topology_server" || (t == "eval_agent" || t == "http_gateway")))
is_plain (some t) (some name) has_class = true

unfoldable mutual
  pub validate_node : Node → Walk → Walk
  validate_node (supervisor name strat back restarts children) w = validate_nodes children (
      note_empty children (
        fail_unless (is_count restarts) configuration max_restarts (
          fail_unless (is_backoff back) configuration backoff (
            fail_unless (is_strategy strat) configuration strategy
              (add_supervisor (or_default "<unnamed>" name) w)))))
  validate_node (agent name kind) w = add_agent name (
      fail_unless (is_given kind) naming missing_type
        (fail_unless (is_given name) naming missing_name w))
  validate_node (plain kind name has_class) w =
      if is_plain kind name has_class
      then add_agent name (fail_unless (is_given name) naming missing_name w)
      else record_check structure node_kind false w

  pub validate_nodes : Nodes → Walk → Walk
  validate_nodes nil w = w
  validate_nodes (cons n ns) w = validate_nodes ns (validate_node n w)

-- The loop over the names with its set `seen`; the failures it adds.
unfoldable pub check_duplicates : List String → List String → Walk → Walk
check_duplicates [] seen w = w
check_duplicates (n ∷ ns) seen w =
    check_duplicates ns (n ∷ seen) (fail_unless (not (contains n seen)) naming duplicate w)

unfoldable pub check_conflicts : List String → List String → Walk → Walk
check_conflicts [] supervisors w = w
check_conflicts (n ∷ ns) supervisors w =
    check_conflicts ns supervisors (fail_unless (not (contains n supervisors)) naming conflict w)

abbrev pub is_transport : Option (Option String) → Bool
is_transport none = true
is_transport (some kind) = contains (or_default "in_process" kind) valid_transports

abbrev pub start_walk : Walk
start_walk = record {
  checks =
      record { category = structure; subject = section; passed = true }
      ∷ record { category = structure; subject = syntax; passed = true }
      ∷ [];
  agent_names = [];
  supervisor_names = [];
  has_empty_sup = false;
}

-- The root and its tree.
unfoldable pub validate_tree : Config → Walk
unfolding validate_nodes
validate_tree c = validate_nodes c.children (
    note_empty c.children (
      fail_unless (is_backoff c.backoff) configuration backoff (
        fail_unless (is_strategy c.strategy) configuration strategy
          (add_supervisor (or_default "root" c.name) start_walk))))

-- A topology with a supervision section. The checks that only note a success are left out.
unfoldable pub validate_topology : Config → Walk
unfolding validate_tree check_duplicates check_conflicts
validate_topology c =
    let tree = validate_tree c in
    let filled = fail_unless (not tree.has_empty_sup) structure empty_supervisor tree in
    let once = check_duplicates tree.agent_names [] filled in
    let apart = check_conflicts tree.agent_names tree.supervisor_names once in
    record_check configuration transport (is_transport c.transport) apart

-- all(c[2] for c in self.checks)
unfoldable pub is_passed : Walk → Bool
is_passed w = all (λ c. c.passed) w.checks

unfoldable mutual
  pub count_agents : Nodes → ℕ
  count_agents nil = 0
  count_agents (cons n ns) = count_agents_in n + count_agents ns

  pub count_agents_in : Node → ℕ
  count_agents_in (agent name kind) = 1
  count_agents_in (supervisor name strat back restarts children) = count_agents children
  count_agents_in (plain kind name has_class) = 0

unfoldable mutual
  pub count_supervisors : Nodes → ℕ
  count_supervisors nil = 1
  count_supervisors (cons n ns) = count_supervisors_in n + count_supervisors ns

  pub count_supervisors_in : Node → ℕ
  count_supervisors_in (supervisor name strat back restarts children) = count_supervisors children
  count_supervisors_in (agent name kind) = 0
  count_supervisors_in (plain kind name has_class) = 0
