-- ===== src/Router/Table.antt =====
-- The order of the routes of router.py, and routes for the root.
use python_civitas.Base.{
  ℕ, false, Option, none, some, List, [], ◌∷◌, ◌++◌, ◌≡◌, refl, ◌≢◌, ◌==◌, nat_eq, if◌then◌else◌,
  length, arith, ap, Bool-cases, ◌⊎◌, inl, inr, All, Option-cases, ◌<◌,
}
use python_civitas.Base.Dict.{Dict}
use python_civitas.Router.{
  Text, text_eq, text_beq_iff, split, strip, parse_pattern, match_segments, path_segments,
  onto_first, RouteEntry, match_entries, match_route, slash, upper, is_empty,
}

-- The route takes a request with this method and these path segments.
abbrev pub Takes : Text → List Text → RouteEntry → Type 0
Takes method segs e = (e.method ≡ method) × (match_segments e.segments segs ≢ none)

-- A route of the table with the routes before it.
pub record IsFirst (method : Text) (segs : List Text) (entries : List RouteEntry) (e : RouteEntry)
    (params : Dict Text Text) : Type 0 where
  pub before : List RouteEntry
  pub after : List RouteEntry
  pub split_at : entries ≡ before ++ e ∷ after
  pub refused : All (λ other. ¬ Takes method segs other) before
  pub method_equal : e.method ≡ method
  pub params_bound : match_segments e.segments segs ≡ some params

-- What a search gives: the first route that takes the request, or that none does.
abbrev pub Found :
    Text → List Text → List RouteEntry → Option (RouteEntry × Dict Text Text) → Type 0
Found method segs entries none = All (λ other. ¬ Takes method segs other) entries
Found method segs entries (some (e, params)) = IsFirst method segs entries e params

skip-Found :
    (method : Text) (segs : List Text) (e : RouteEntry) (es : List RouteEntry)
    (r : Option (RouteEntry × Dict Text Text))
    → ¬ Takes method segs e
    → Found method segs es r
    → Found method segs (e ∷ es) r
skip-Found method segs e es none not_here h = (not_here, h)
skip-Found method segs e es (some (found, params)) not_here h = record {
  before = e ∷ h.before;
  after = h.after;
  split_at = ap (λ xs. e ∷ xs) h.split_at;
  refused = (not_here, h.refused);
  method_equal = h.method_equal;
  params_bound = h.params_bound;
}

match_entries-Found :
    (method : Text) (segs : List Text) (es : List RouteEntry)
    → Found method segs es (match_entries method segs es)
unfolding match_entries
match_entries-Found method segs [] = tt
match_entries-Found method segs (e ∷ es) =
    let rest = match_entries-Found method segs es in
    elim (Bool-cases (e.method == method)) [
      | inr m ↦ rw m (
          skip-Found method segs e es (match_entries method segs es)
            (λ t. cc ((text_beq_iff e.method method).1 t.0)) rest)
      | inl m ↦ elim (Option-cases (match_segments e.segments segs)) [
        | inl p ↦
            rw (m, p) (skip-Found method segs e es (match_entries method segs es) (λ t. t.1 p) rest)
        | inr (params, p) ↦
            rw (m, p)
              (record {
                before = [];
                after = es;
                split_at = refl;
                refused = tt;
                method_equal = (text_beq_iff e.method method).0 m;
                params_bound = p;
              })
      ]
    ]

-- The first match wins: the route returned takes the request, with the parameters of its own match,
-- and no route before it in the table does; no route is returned exactly when none takes it.
pub match_route-Found :
    (method path : Text) (entries : List RouteEntry)
    → Found (upper method) (path_segments path) entries (match_route method path entries)
unfolding match_route
match_route-Found method path entries =
    match_entries-Found (upper method) (path_segments path) entries

length-split : (s : Text) → 0 < length (split s)
unfolding split
length-split [] = omega arith
length-split (c ∷ cs) = ground (arith, length-split cs)

onto_first_cases :
    (c : ℕ) (parts : List Text)
    → (1 < length (onto_first c parts)) ⊎ ((ds : Text) × (onto_first c parts ≡ (c ∷ ds) ∷ []))
onto_first_cases c [] = inr ([], refl)
onto_first_cases c (part ∷ []) = inr (part, refl)
onto_first_cases c (part ∷ more ∷ parts) = inl (omega arith)

-- The split of a text that is not empty has two parts, or one that is not empty.
split_cases :
    (c : ℕ) (cs : Text)
    → (1 < length (split (c ∷ cs))) ⊎ ((ds : Text) × (split (c ∷ cs) ≡ (c ∷ ds) ∷ []))
unfolding split
split_cases c cs = elim (Bool-cases (c == slash)) [
  | inl e ↦ rw e (inl (omega (arith, length-split cs)))
  | inr e ↦ rw e (onto_first_cases c (split cs))
]

root_segment : match_segments ((false, []) ∷ []) [] ≡ none
unfolding match_segments
root_segment = refl

root_refuses_split :
    (s : Text) → match_segments ((false, []) ∷ []) (if is_empty s then [] else split s) ≡ none
unfolding match_segments
root_refuses_split [] = refl
root_refuses_split (c ∷ cs) = elim (split_cases c cs) [
  | inl long ↦ ground arith
  | inr (ds, e) ↦ rw e
]

-- A route whose pattern is the root (a pattern of slashes only, or an empty one) takes no request
-- whatever: its pattern parses to one empty literal segment, and no path has that segment.
pub root_route_unreachable :
    (pattern path : Text)
    → strip pattern ≡ []
    → match_segments (parse_pattern pattern) (path_segments path) ≡ none
unfolding parse_pattern path_segments
root_route_unreachable pattern path root = rw root (root_refuses_split (strip path))
