-- ===== src/Registry/Search.antt =====
-- The searches of registry.py: broadcast patterns and capabilities.
use python_civitas.Base.{
  Bool, true, false, not, ◌&&◌, ◌||◌, none, some, List, [], ◌∷◌, String, ◌==◌, nat_eq, string_eq,
  filter, All, any, ◌≡◌, refl, inl, inr, arith, eq_iff, ap, Bool-cases,
}
use python_civitas.Base.Dict.{Dict, lookup}
use python_civitas.Registry.{
  RoutingEntry, LocalRegistry, has, lookup_all, is_system, values, find_by_capability,
  find_by_capabilities, match_any, match_all,
}

-- Every entry stands under its own name.
abbrev pub IsNamed : Dict String RoutingEntry → Type 0
IsNamed = All (λ entry. entry.1.name ≡ entry.0)

pub is_listed : String → List RoutingEntry → Bool
is_listed name es = any (λ e. e.name == name) es

has_key : String → Dict String RoutingEntry → Bool
has_key name d = elim (lookup name d) [ none ↦ false | some e ↦ true ]

is_listed-filter :
    (name : String) (p : String → Bool) (d : Dict String RoutingEntry)
    → IsNamed d
    → is_listed name (values (filter (λ entry. p entry.0) d)) ≡ has_key name d && p name
unfolding is_listed has_key lookup
is_listed-filter name p [] h = refl
is_listed-filter name p ((k, e) ∷ d) h =
    ground (arith, is_listed-filter name p d h.1, h.0, eq_iff k name, eq_iff e.name name)

values_unfiltered : (es : List RoutingEntry) → filter (λ e. true) es ≡ es
values_unfiltered [] = refl
values_unfiltered (e ∷ es) = ap (λ xs. e ∷ xs) (values_unfiltered es)

values_dropped : (es : List RoutingEntry) → filter (λ e. false) es ≡ []
values_dropped [] = refl
values_dropped (e ∷ es) = values_dropped es

-- Where every entry stands under its own name, a broadcast reaches a name exactly when it is
-- registered, matches the pattern, and is no system name, unless the pattern itself starts with an
-- underscore.
pub lookup_all_lem :
    (fnmatch : String → String → Bool) (pattern name : String) (r : LocalRegistry)
    → IsNamed r.entries
    → is_listed name (lookup_all fnmatch pattern r)
      ≡ has name r && ((is_system pattern || not (is_system name)) && fnmatch name pattern)
unfolding lookup_all has
lookup_all_lem fnmatch pattern name r named = elim (Bool-cases (is_system pattern)) [
  | inl e ↦ rw e (unfold has_key in is_listed-filter name (λ k. fnmatch k pattern) r.entries named)
  | inr e ↦ rw e (
      unfold has_key in
      is_listed-filter name (λ k. not (is_system k) && fnmatch k pattern) r.entries named)
]

or_false : (b : Bool) → (b || false) ≡ b
or_false b = ground arith

and_true : (b : Bool) → (b && true) ≡ b
and_true b = ground arith

-- For one tag the two modes of the capability search agree with the plain search. With no tags at all
-- the mode "all" returns every entry and the mode "any" none.
pub capability_modes :
    (tag : String) (r : LocalRegistry)
    → (find_by_capabilities (tag ∷ []) match_any r ≡ find_by_capability tag r)
      × (find_by_capabilities (tag ∷ []) match_all r ≡ find_by_capability tag r)
      × (find_by_capabilities [] match_all r ≡ values r.entries)
      × (find_by_capabilities [] match_any r ≡ [])
unfolding find_by_capability find_by_capabilities
capability_modes tag r = (
  simp or_false,
  simp and_true,
  values_unfiltered (values r.entries),
  values_dropped (values r.entries),
)
