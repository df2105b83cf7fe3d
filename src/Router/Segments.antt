-- ===== src/Router/Segments.antt =====
-- Segments of router.py: what a pattern matches, and the way back from parameters to a path.
use python_civitas.Base.{
  suc, Bool, true, false, ◌||◌, none, some, List, [], ◌∷◌, ◌≡◌, refl, ◌≢◌, ◌==◌, nat_eq,
  if◌then◌else◌, length, arith, ap, Bool-cases, ◌⊎◌, inl, inr,
}
use python_civitas.Base.Dict.{Dict, insert, lookup, lookup-insert}
use python_civitas.Router.{Text, text_eq, text_beq_iff, Segment, match_loop, match_segments}

-- Segment by segment, as many of them, and the literal ones are equal.
abbrev pub Matches : List Segment → List Text → Type 0
Matches [] [] = Unit
Matches [] (seg ∷ segs) = ⊥
Matches (e ∷ es) [] = ⊥
Matches ((true, name) ∷ es) (seg ∷ segs) = Matches es segs
Matches ((false, name) ∷ es) (seg ∷ segs) = (name ≡ seg) × Matches es segs

-- Either the segments match and parameters are returned, or they do not and none are.
loop_cases :
    (es : List Segment) (segs : List Text) (params : Dict Text Text)
    → length es ≡ length segs
    → (Matches es segs × (match_loop es segs params ≢ none))
      ⊎ (¬ Matches es segs × (match_loop es segs params ≡ none))
unfolding match_loop
loop_cases [] [] params h = inl (tt, λ e. cc)
loop_cases [] (seg ∷ segs) params h = absurd (omega arith)
loop_cases (e ∷ es) [] params h = absurd (omega arith)
loop_cases ((true, name) ∷ es) (seg ∷ segs) params h =
    loop_cases es segs (insert name seg params) (omega arith)
loop_cases ((false, name) ∷ es) (seg ∷ segs) params h = elim (Bool-cases (name == seg)) [
  | inl e ↦ rw e (elim (loop_cases es segs params (omega arith)) [
    | inl (m, found) ↦ inl (((text_beq_iff name seg).0 e, m), found)
    | inr (m, missing) ↦ inr (λ h. m h.1, missing)
  ])
  | inr e ↦ rw e (inr (λ h. cc ((text_beq_iff name seg).1 h.0), refl))
]

Matches-length : (es : List Segment) (segs : List Text) → Matches es segs → length es ≡ length segs
Matches-length [] [] h = refl
Matches-length [] (seg ∷ segs) h = elim h [ ]
Matches-length (e ∷ es) [] h = elim h [ ]
Matches-length ((true, name) ∷ es) (seg ∷ segs) h = omega (arith, Matches-length es segs h)
Matches-length ((false, name) ∷ es) (seg ∷ segs) h = omega (arith, Matches-length es segs h.1)

-- Parameters are returned exactly for a path with as many segments as the pattern in which every
-- literal segment is equal: this holds and there is a result, or it fails and there is none.
pub match_segments_cases :
    (es : List Segment) (segs : List Text)
    → (Matches es segs × (match_segments es segs ≢ none))
      ⊎ (¬ Matches es segs × (match_segments es segs ≡ none))
unfolding match_segments
match_segments_cases es segs = elim (Bool-cases (length es == length segs)) [
  | inl e ↦ rw e (loop_cases es segs [] (ground arith))
  | inr e ↦ rw e (inr (λ m. ground (arith, Matches-length es segs m), refl))
]

-- The path in which each parameter is replaced by its value.
pub fill : List Segment → (Text → Text) → List Text
fill [] value = []
fill ((true, name) ∷ es) value = value name ∷ fill es value
fill ((false, name) ∷ es) value = name ∷ fill es value

pub is_param : Text → List Segment → Bool
is_param name [] = false
is_param name ((true, other) ∷ es) = other == name || is_param name es
is_param name ((false, other) ∷ es) = is_param name es

bound : List Segment → (Text → Text) → Dict Text Text → Dict Text Text
bound [] value params = params
bound ((true, name) ∷ es) value params = bound es value (insert name (value name) params)
bound ((false, name) ∷ es) value params = bound es value params

loop-fill :
    (es : List Segment) (value : Text → Text) (params : Dict Text Text)
    → match_loop es (fill es value) params ≡ some (bound es value params)
unfolding match_loop fill bound
loop-fill [] value params = refl
loop-fill ((true, name) ∷ es) value params = loop-fill es value (insert name (value name) params)
loop-fill ((false, name) ∷ es) value params =
    rw ((text_beq_iff name name).1 refl) (loop-fill es value params)

length-fill : (es : List Segment) (value : Text → Text) → length (fill es value) ≡ length es
unfolding fill
length-fill [] value = refl
length-fill ((true, name) ∷ es) value = ap suc (length-fill es value)
length-fill ((false, name) ∷ es) value = ap suc (length-fill es value)

lookup-bound :
    (name : Text) (es : List Segment) (value : Text → Text) (params : Dict Text Text)
    → lookup name (bound es value params)
      ≡ (if is_param name es then some (value name) else lookup name params)
unfolding bound is_param
lookup-bound name [] value params = refl
lookup-bound name ((true, other) ∷ es) value params = ground (
  arith,
  lookup-bound name es value (insert other (value other) params),
  lookup-insert other name (value other) params,
  text_beq_iff other name,
)
lookup-bound name ((false, other) ∷ es) value params = lookup-bound name es value params

-- Filling a pattern with a value for each parameter gives a path that it matches, and the match returns
-- for every name that is a parameter of the pattern exactly its value, and nothing for any other name.
pub match-fill :
    (es : List Segment) (value : Text → Text) (name : Text)
    → (params : Dict Text Text) × (match_segments es (fill es value) ≡ some params)
      × (lookup name params ≡ (if is_param name es then some (value name) else none))
unfolding match_segments
match-fill es value name = (
  bound es value [],
  rw length-fill (ground (arith, loop-fill es value [])),
  unfold lookup in lookup-bound name es value [],
)
