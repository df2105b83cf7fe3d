-- ===== src/Topology/Shape.antt =====
-- The shape of a tree that `civitas topology validate` of civitas/cli/topology.py accepts.
use python_civitas.Base.{◌≡◌, sym, ◌∙◌, Bool, true, false, ◌&&◌, ◌||◌, String, arith, string_eq}
use python_civitas.Topology.{
  configuration, strategy, backoff, max_restarts, Node, supervisor, agent, plain, Nodes, nil, cons,
  Walk, or_default, is_strategy, is_backoff, is_count, is_given, is_empty, fail_unless,
  add_supervisor, note_empty, is_plain, validate_node, validate_nodes, is_passed,
}

-- A tree whose nodes are each well formed, with children under each supervisor.
unfoldable mutual
  pub IsWellFormed : Node → Type 0
  IsWellFormed (supervisor name strat back restarts children) =
      (is_strategy strat ≡ true)
      × (is_backoff back ≡ true)
      × (is_count restarts ≡ true)
      × (is_empty children ≡ false)
      × AreWellFormed children
  IsWellFormed (agent name kind) = (is_given name ≡ true) × (is_given kind ≡ true)
  IsWellFormed (plain kind name has_class) =
      (is_plain kind name has_class ≡ true) × (is_given name ≡ true)

  pub AreWellFormed : Nodes → Type 0
  AreWellFormed nil = Unit
  AreWellFormed (cons n ns) = IsWellFormed n × AreWellFormed ns

-- The checks that a supervisor adds itself.
supervisor_checks :
    (a b c : Bool) (name : String) (children : Nodes) (w : Walk)
    → let after = note_empty children (
        fail_unless c configuration max_restarts (
          fail_unless b configuration backoff
            (fail_unless a configuration strategy (add_supervisor name w)))) in
      (is_passed after ≡ (a && (b && (c && is_passed w))))
      × (after.has_empty_sup ≡ (is_empty children || w.has_empty_sup))
unfolding is_passed
supervisor_checks a b c name children w = (ground arith, ground arith)

and_split :
    (a b c d : Bool)
    → (a && (b && (c && d))) ≡ true
    → (a ≡ true) × (b ≡ true) × (c ≡ true) × (d ≡ true)
and_split a b c d h = (ground (arith, h), ground (arith, h), ground (arith, h), ground (arith, h))

mutual
  unfolding validate_node is_passed IsWellFormed

  walk-IsWellFormed :
      (n : Node) (w : Walk)
      → is_passed (validate_node n w) ≡ true
      → (validate_node n w).has_empty_sup ≡ false
      → (is_passed w ≡ true) × (w.has_empty_sup ≡ false) × IsWellFormed n
  walk-IsWellFormed (supervisor name strat back restarts children) w h e =
      let rest = walk_all-AreWellFormed children _ h e in
      let own =
        supervisor_checks (is_strategy strat) (is_backoff back) (is_count restarts)
          (or_default "<unnamed>" name) children w in
      let parts =
        and_split (is_strategy strat) (is_backoff back) (is_count restarts) (is_passed w)
          (sym own.0 ∙ rest.0) in
      (
        parts.3,
        ground (arith, own.1, rest.1),
        (parts.0, parts.1, parts.2, ground (arith, own.1, rest.1), rest.2),
      )
  walk-IsWellFormed (agent name kind) w h e =
      (ground (arith, h), ground (arith, e), (ground (arith, h), ground (arith, h)))
  walk-IsWellFormed (plain kind name has_class) w h e =
      (ground (arith, h), ground (arith, e, h), (ground (arith, h), ground (arith, h)))

  pub walk_all-AreWellFormed :
      (ns : Nodes) (w : Walk)
      → is_passed (validate_nodes ns w) ≡ true
      → (validate_nodes ns w).has_empty_sup ≡ false
      → (is_passed w ≡ true) × (w.has_empty_sup ≡ false) × AreWellFormed ns
  walk_all-AreWellFormed nil w h e = (h, e, tt)
  walk_all-AreWellFormed (cons n ns) w h e =
      let rest = walk_all-AreWellFormed ns (validate_node n w) h e in
      let first = walk-IsWellFormed n w rest.0 rest.1 in (first.0, first.1, (first.2, rest.2))
