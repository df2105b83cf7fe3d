-- ===== src/Supervisor/Scope.antt =====
-- Which children each restart strategy of civitas/supervisor.py restarts.
use python_civitas.Base.{
  ◌≡◌, refl, ℕ, suc, leb, Bool, true, false, Option, none, some, [], ◌∷◌, String, ◌==◌, string_eq,
  All, subst, if◌then◌else◌, contains, arith, eq_iff, Option-cases, Bool-cases, inl, inr,
}
use python_civitas.Base.Dict.{Dict, lookup, insert, lookup-insert}
use python_civitas.Supervisor.{
  Supervisor, Child, Env, RestartStrategy, one_for_one, one_for_all, rest_for_one, revive,
  ensure_halted, halt_each, halt_supervisor, put_child, restart_each, rest_from, restart_child,
  restart_found, restart_all_children, put_all_children, restart_rest_for_one, apply_strategy,
}

-- No name stands twice.
abbrev pub IsDistinct : Dict String Child → Type 0
IsDistinct [] = Unit
IsDistinct ((k, c) ∷ cs) = (lookup k cs ≡ none) × IsDistinct cs

-- The restart of every child succeeds, after what is done to it before.
abbrev pub Succeeds : Env → (Child → Child) → Dict String Child → Type 0
Succeeds env before = All (λ entry. (revive env (before entry.1)).0 ≡ true)

abbrev unchanged : Child → Child
unchanged c = c

abbrev pub mapped : (Child → Child) → Option Child → Option Child
mapped f none = none
mapped f (some c) = some (f c)

abbrev pub first_of : Option Child → Option Child → Option Child
first_of none o = o
first_of (some c) o = some c

children-put_child :
    (k : String) (r : Bool × Child) (s : Supervisor)
    → (put_child k r s).children ≡ insert k r.1 s.children
unfolding put_child
children-put_child k (true, c) s = refl
children-put_child k (false, c) s = refl

lookup-restart_each :
    (env : Env) (j : String) (cs : Dict String Child) (s : Supervisor)
    → Succeeds env unchanged cs
    → IsDistinct cs
    → lookup j (restart_each env cs s).1.children
      ≡ first_of (mapped (λ c. (revive env c).1) (lookup j cs)) (lookup j s.children)
unfolding restart_each lookup
lookup-restart_each env j [] s ok distinct = refl
lookup-restart_each env j ((k, c) ∷ cs) s ok distinct =
    let after = put_child k (revive env c) s in
    ground (
      arith,
      ok.0,
      lookup-restart_each env j cs after ok.1 distinct.1,
      children-put_child k (revive env c) s,
      lookup-insert k j (revive env c).1 s.children,
      eq_iff k j,
      distinct.0,
    )

pub lookup-halt_each :
    (env : Env) (j : String) (cs : Dict String Child)
    → lookup j (halt_each env cs) ≡ mapped (ensure_halted env) (lookup j cs)
unfolding halt_each lookup
lookup-halt_each env j [] = refl
lookup-halt_each env j ((k, c) ∷ cs) = ground (arith, lookup-halt_each env j cs)

pub halt_each-IsDistinct :
    (env : Env) (cs : Dict String Child) → IsDistinct cs → IsDistinct (halt_each env cs)
unfolding halt_each
halt_each-IsDistinct env [] d = tt
halt_each-IsDistinct env ((k, c) ∷ cs) d =
    (ground (arith, lookup-halt_each env k cs, d.0), halt_each-IsDistinct env cs d.1)

lookup-put_all_children :
    (j : String) (cs table : Dict String Child)
    → IsDistinct cs
    → lookup j (put_all_children cs table) ≡ first_of (lookup j cs) (lookup j table)
unfolding put_all_children lookup
lookup-put_all_children j [] table d = refl
lookup-put_all_children j ((k, c) ∷ cs) table d = ground (
  arith,
  lookup-put_all_children j cs (insert k c table) d.1,
  lookup-insert k j c table,
  eq_iff k j,
  d.0,
)

pub halt_each-Succeeds :
    (env : Env) (cs : Dict String Child)
    → Succeeds env (ensure_halted env) cs
    → Succeeds env unchanged (halt_each env cs)
unfolding halt_each
halt_each-Succeeds env [] ok = tt
halt_each-Succeeds env ((k, c) ∷ cs) ok = (ok.0, halt_each-Succeeds env cs ok.1)

choose-Succeeds :
    (env : Env) (before : Child → Child) (b : Bool) (x y : Dict String Child)
    → Succeeds env before x
    → Succeeds env before y
    → Succeeds env before (if b then x else y)
choose-Succeeds env before true x y h k = h
choose-Succeeds env before false x y h k = k

rest_from-Succeeds :
    (env : Env) (before : Child → Child) (name : String) (cs : Dict String Child)
    → Succeeds env before cs
    → Succeeds env before (rest_from name cs)
unfolding rest_from
rest_from-Succeeds env before name [] ok = tt
rest_from-Succeeds env before name ((k, c) ∷ cs) ok =
    choose-Succeeds env before (k == name) ((k, c) ∷ cs) (rest_from name cs) ok
      (rest_from-Succeeds env before name cs ok.1)

lookup-Succeeds :
    (env : Env) (before : Child → Child) (name : String) (cs : Dict String Child) (c : Child)
    → Succeeds env before cs
    → lookup name cs ≡ some c
    → (revive env (before c)).0 ≡ true
unfolding lookup
lookup-Succeeds env before name [] c ok h = ground arith
lookup-Succeeds env before name ((k, d) ∷ cs) c ok h = elim (Bool-cases (k == name)) [
  | inl e ↦ subst (λ x. (revive env (before x)).0 ≡ true) (ground (arith, h, e)) ok.0
  | inr e ↦ lookup-Succeeds env before name cs c ok.1 (ground (arith, h, e))
]

choose-IsDistinct :
    (b : Bool) (x y : Dict String Child)
    → IsDistinct x
    → IsDistinct y
    → IsDistinct (if b then x else y)
choose-IsDistinct true x y h k = h
choose-IsDistinct false x y h k = k

rest_from-IsDistinct :
    (name : String) (cs : Dict String Child) → IsDistinct cs → IsDistinct (rest_from name cs)
unfolding rest_from
rest_from-IsDistinct name [] d = tt
rest_from-IsDistinct name ((k, c) ∷ cs) d =
    choose-IsDistinct (k == name) ((k, c) ∷ cs) (rest_from name cs) d
      (rest_from-IsDistinct name cs d.1)

-- The place of a name in the order of the children; their number where it is none of them.
unfoldable pub position : String → Dict String Child → ℕ
position j [] = 0
position j ((k, c) ∷ cs) = if k == j then 0 else suc (position j cs)

lookup-rest_from :
    (name j : String) (cs : Dict String Child)
    → IsDistinct cs
    → lookup j (rest_from name cs)
      ≡ (if leb (position name cs) (position j cs) then lookup j cs else none)
unfolding rest_from lookup position
lookup-rest_from name j [] d = refl
lookup-rest_from name j ((k, c) ∷ cs) d =
    ground (arith, lookup-rest_from name j cs d.1, eq_iff k j, eq_iff k name, eq_iff name j, d.0)

-- Whether a crash of `name` restarts the child `j`, and what becomes of it before its restart.
unfoldable pub in_scope : RestartStrategy → String → Dict String Child → String → Bool
in_scope one_for_one name cs j = name == j
in_scope one_for_all name cs j = true
in_scope rest_for_one name cs j = leb (position name cs) (position j cs)

unfoldable pub prepared : RestartStrategy → Env → Child → Child
prepared one_for_one env c = halt_supervisor env c.kind c
prepared one_for_all env c = ensure_halted env c
prepared rest_for_one env c = ensure_halted env c

found_scope :
    (env : Env) (name j : String) (s : Supervisor)
    → Succeeds env (λ c. halt_supervisor env c.kind c) s.children
    → lookup j (restart_found env name (lookup name s.children) s).1.children ≡ (
        if name == j
        then mapped (λ c. (revive env (halt_supervisor env c.kind c)).1) (lookup j s.children)
        else lookup j s.children)
found_scope env name j s ok = elim (Option-cases (lookup name s.children)) [
  | inl e ↦ rw e (ground (arith, e, eq_iff name j))
  | inr (c, e) ↦ rw e (
      ground (
        arith,
        lookup-restart_each env j ((name, halt_supervisor env c.kind c) ∷ []) s
            (lookup-Succeeds env (λ d. halt_supervisor env d.kind d) name s.children c ok e, tt)
            (unfold lookup in (refl, tt)),
        e,
        eq_iff name j,
        single_lookup name j (halt_supervisor env c.kind c),
      ))
]
  where
    single_lookup :
        (n i : String) (c : Child) → lookup i ((n, c) ∷ []) ≡ (if n == i then some c else none)
    single_lookup n i c = unfold lookup in refl

-- When every restart succeeds, no two children share a name and the crashed child is not remote,
-- each strategy restarts exactly its scope: the crashed child alone, all children, or the crashed
-- child and those that stand after it in their order. A child in the scope is stopped where the strategy asks for
-- it and restarted once; every other child is exactly as it was.
pub restart_scope :
    (env : Env) (strategy : RestartStrategy) (name j : String) (s : Supervisor)
    → Succeeds env (prepared strategy env) s.children
    → IsDistinct s.children
    → contains name s.remote_children ≡ false
    → lookup j (apply_strategy strategy env name s).1.children ≡ (
        if in_scope strategy name s.children j
        then mapped (λ c. (revive env (prepared strategy env c)).1) (lookup j s.children)
        else lookup j s.children)
unfolding in_scope prepared restart_child restart_all_children restart_rest_for_one
restart_scope env one_for_one name j s ok distinct here = rw here (found_scope env name j s ok)
restart_scope env one_for_all name j s ok distinct here =
    let halted = halt_each env s.children in
    ground (
      arith,
      lookup-restart_each env j halted (record s { children = halted })
          (halt_each-Succeeds env s.children ok) (halt_each-IsDistinct env s.children distinct),
      lookup-halt_each env j s.children,
    )
restart_scope env rest_for_one name j s ok distinct here =
    let from = rest_from name s.children in
    let halted = halt_each env from in
    let down = halt_each-IsDistinct env from (rest_from-IsDistinct name s.children distinct) in
    ground (
      arith,
      lookup-restart_each env j halted (record s { children = put_all_children halted s.children })
          (halt_each-Succeeds env from
            (rest_from-Succeeds env (ensure_halted env) name s.children ok))
          down,
      lookup-put_all_children j halted s.children down,
      lookup-halt_each env j from,
      lookup-rest_from name j s.children distinct,
    )
