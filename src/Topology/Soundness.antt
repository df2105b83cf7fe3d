-- ===== src/Topology/Soundness.antt =====
-- What a topology file that `civitas topology validate` of civitas/cli/topology.py accepts fulfils.
use python_civitas.Base.{◌+◌, ◌≤◌, ◌≡◌, Bool, true, false, not, ◌⊎◌, [], String, arith, string_eq}
use python_civitas.Topology.{
  structure, configuration, empty_supervisor, strategy, backoff, transport, Nodes, Config, Walk,
  or_default, is_strategy, is_backoff, is_empty, record_check, fail_unless, add_supervisor,
  note_empty, check_duplicates, check_conflicts, is_transport, start_walk, validate_tree,
  validate_topology, is_passed,
}
use python_civitas.Topology.Names.{
  is_name, all_agents_called, all_supervisors_called, occurrences, collects_all, duplicates-checked,
  conflicts-checked,
}
use python_civitas.Topology.Shape.{AreWellFormed, walk_all-AreWellFormed}

-- The walk before the children of the root.
abbrev root_walk : Config → Walk
root_walk c = note_empty c.children (
    fail_unless (is_backoff c.backoff) configuration backoff (
      fail_unless (is_strategy c.strategy) configuration strategy
        (add_supervisor (or_default "root" c.name) start_walk)))

root_checks :
    (a b : Bool) (name : String) (children : Nodes)
    → let after = note_empty children (
        fail_unless b configuration backoff
          (fail_unless a configuration strategy (add_supervisor name start_walk))) in
      is_passed after ≡ true
      → after.has_empty_sup ≡ false
      → (a ≡ true) × (b ≡ true) × (is_empty children ≡ false)
unfolding is_passed
root_checks a b name children h e = (ground (arith, h), ground (arith, h), ground (arith, e))

root_names :
    (x : String) (a b : Bool) (name : String) (children : Nodes)
    → let after = note_empty children (
        fail_unless b configuration backoff
          (fail_unless a configuration strategy (add_supervisor name start_walk))) in
      (occurrences x after.agent_names ≡ 0)
      × (occurrences x after.supervisor_names ≡ is_name x name)
unfolding occurrences
root_names x a b name children = (ground arith, ground arith)

last_check :
    (good : Bool) (w : Walk)
    → is_passed (record_check configuration transport good w) ≡ true
    → (good ≡ true) × (is_passed w ≡ true)
unfolding is_passed
last_check good w h = (ground (arith, h), ground (arith, h))

no_empty_supervisor :
    (w : Walk)
    → is_passed (fail_unless (not w.has_empty_sup) structure empty_supervisor w) ≡ true
    → (is_passed w ≡ true) × (w.has_empty_sup ≡ false)
unfolding is_passed
no_empty_supervisor w h = (ground (arith, h), ground (arith, h))

-- The tree before the checks of its names.
tree_checks :
    (c : Config)
    → is_passed (validate_topology c) ≡ true
    → (is_transport c.transport ≡ true)
      × (is_passed (validate_tree c) ≡ true)
      × ((validate_tree c).has_empty_sup ≡ false)
unfolding validate_topology
tree_checks c h =
    let tree = validate_tree c in
    let filled = fail_unless (not tree.has_empty_sup) structure empty_supervisor tree in
    let once = check_duplicates tree.agent_names [] filled in
    let apart = check_conflicts tree.agent_names tree.supervisor_names once in
    let last = last_check (is_transport c.transport) apart h in
    let unconflicted = conflicts-checked "" tree.agent_names tree.supervisor_names once last.1 in
    let unrepeated = duplicates-checked "" tree.agent_names [] filled unconflicted.0 in
    let full = no_empty_supervisor tree unrepeated.0 in (last.0, full.0, full.1)

name_checks :
    (c : Config) (x : String)
    → is_passed (validate_topology c) ≡ true
    → let tree = validate_tree c in
      (occurrences x tree.agent_names ≤ 1)
      × ((occurrences x tree.agent_names ≡ 0) ⊎ (occurrences x tree.supervisor_names ≡ 0))
unfolding validate_topology
name_checks c x h =
    let tree = validate_tree c in
    let filled = fail_unless (not tree.has_empty_sup) structure empty_supervisor tree in
    let once = check_duplicates tree.agent_names [] filled in
    let apart = check_conflicts tree.agent_names tree.supervisor_names once in
    let last = last_check (is_transport c.transport) apart h in
    let unconflicted = conflicts-checked x tree.agent_names tree.supervisor_names once last.1 in
    let unrepeated = duplicates-checked x tree.agent_names [] filled unconflicted.0 in
    (unrepeated.1, unconflicted.1)

tree_names :
    (c : Config) (x : String)
    → let tree = validate_tree c in
      (occurrences x tree.agent_names ≡ all_agents_called x c.children)
      × (occurrences x tree.supervisor_names
          ≡ is_name x (or_default "root" c.name) + all_supervisors_called x c.children)
unfolding validate_tree
tree_names c x =
    let own =
      root_names x (is_strategy c.strategy) (is_backoff c.backoff) (or_default "root" c.name)
        c.children in
    let rest = collects_all x c.children (root_walk c) in
    (omega (arith, own.0, rest.0), omega (arith, own.1, rest.1))

tree_shape :
    (c : Config)
    → is_passed (validate_tree c) ≡ true
    → (validate_tree c).has_empty_sup ≡ false
    → AreWellFormed c.children
      × (is_strategy c.strategy ≡ true)
      × (is_backoff c.backoff ≡ true)
      × (is_empty c.children ≡ false)
unfolding validate_tree
tree_shape c h e =
    let rest = walk_all-AreWellFormed c.children (root_walk c) h e in
    let own =
      root_checks (is_strategy c.strategy) (is_backoff c.backoff) (or_default "root" c.name)
        c.children rest.0 rest.1 in
    (rest.2, own.0, own.1, own.2)

-- When every check on a topology passes, each node of the tree is well formed, the root has
-- children, a known strategy and a known backoff policy, and the transport is known; and a name
-- belongs to at most one agent, and not to an agent and to a supervisor, the root included.
pub accepted_topology :
    (c : Config)
    → is_passed (validate_topology c) ≡ true
    → AreWellFormed c.children
      × (is_strategy c.strategy ≡ true)
      × (is_backoff c.backoff ≡ true)
      × (is_empty c.children ≡ false)
      × (is_transport c.transport ≡ true)
      × ((x : String)
          → (all_agents_called x c.children ≤ 1)
            × ((all_agents_called x c.children ≡ 0)
                ⊎ (is_name x (or_default "root" c.name) + all_supervisors_called x c.children ≡ 0)))
accepted_topology c h =
    let checked = tree_checks c h in
    let shape = tree_shape c checked.1 checked.2 in
    (
      shape.0,
      shape.1,
      shape.2,
      shape.3,
      checked.0,
      λ x. (
        omega (arith, (tree_names c x).0, (name_checks c x h).0),
        ground (arith, (tree_names c x), (name_checks c x h).1),
      ),
    )
