-- ===== src/Router.antt =====
-- civitas/gateway/router.py: the route table of the gateway.
-- Text that the code takes apart is the list of its code points; str.upper is that of ASCII, of
-- which HTTP methods consist.
pub mod Segments
pub mod Table
use python_civitas.Base.{
  ℕ, zero, suc, ◌+◌, ◌-◌, Bool, true, false, not, ◌&&◌, ◌||◌, Option, none, some, List, [], ◌∷◌,
  ◌++◌, map, String, ◌≡◌, refl, ◌↔◌, ltb, leb, ◌==◌, Eq, nat_eq, nat_beq_iff, if◌then◌else◌, length,
  arith, ap,
}
use mathlib.Core.List.{reverse}
use python_civitas.Base.Dict.{Dict, insert}
use python_civitas.Message.{Payload}

abbrev pub Text : Type 0
Text = List ℕ

abbrev text_beq : Text → Text → Bool
text_beq [] [] = true
text_beq [] (d ∷ ds) = false
text_beq (c ∷ cs) [] = false
text_beq (c ∷ cs) (d ∷ ds) = c == d && text_beq cs ds

pub text_beq_iff : (s t : Text) → (text_beq s t ≡ true) ↔ (s ≡ t)
text_beq_iff [] [] = ground arith
text_beq_iff [] (d ∷ ds) = ground arith
text_beq_iff (c ∷ cs) [] = ground arith
text_beq_iff (c ∷ cs) (d ∷ ds) = ground (arith, text_beq_iff cs ds)

instance abbrev pub text_eq : Eq Text
text_eq = record { same = text_beq; same_iff = text_beq_iff }

abbrev pub slash : ℕ
slash = b'/'

abbrev upper_char : ℕ → ℕ
upper_char c = if leb b'a' c && leb c b'z' then c - 32 else c

unfoldable pub upper : Text → Text
upper s = map upper_char s

abbrev lstrip : Text → Text
lstrip [] = []
lstrip (c ∷ cs) = let rest = lstrip cs in if c == slash then rest else c ∷ cs

-- s.strip("/")
unfoldable pub strip : Text → Text
strip s = reverse (lstrip (reverse (lstrip s)))

abbrev pub onto_first : ℕ → List Text → List Text
onto_first c [] = (c ∷ []) ∷ []
onto_first c (part ∷ parts) = (c ∷ part) ∷ parts

-- s.split("/")
unfoldable pub split : Text → List Text
split [] = [] ∷ []
split (c ∷ cs) = let rest = split cs in if c == slash then [] ∷ rest else onto_first c rest

abbrev pub Segment : Type 0
Segment = Bool × Text

abbrev starts_with_brace : Text → Bool
starts_with_brace [] = false
starts_with_brace (c ∷ cs) = c == b'{'

abbrev ends_with_brace : Text → Bool
ends_with_brace [] = false
ends_with_brace (c ∷ []) = c == b'}'
ends_with_brace (c ∷ d ∷ ds) = ends_with_brace (d ∷ ds)

abbrev drop_last : Text → Text
drop_last [] = []
drop_last (c ∷ []) = []
drop_last (c ∷ d ∷ ds) = c ∷ drop_last (d ∷ ds)

-- part[1:-1]
abbrev inner : Text → Text
inner [] = []
inner (c ∷ cs) = drop_last cs

unfoldable pub parse_part : Text → Segment
parse_part part =
    if starts_with_brace part && ends_with_brace part then (true, inner part) else (false, part)

unfoldable pub parse_pattern : Text → List Segment
unfolding strip split parse_part
parse_pattern pattern = map parse_part (split (strip pattern))

-- The loop over the zipped segments, with the parameters found so far.
unfoldable pub match_loop : List Segment → List Text → Dict Text Text → Option (Dict Text Text)
match_loop [] segs params = some params
match_loop (e ∷ es) [] params = some params
match_loop ((true, name) ∷ es) (seg ∷ segs) params = match_loop es segs (insert name seg params)
match_loop ((false, name) ∷ es) (seg ∷ segs) params =
    let rest = match_loop es segs params in if not (name == seg) then none else rest

unfoldable pub match_segments : List Segment → List Text → Option (Dict Text Text)
unfolding match_loop
match_segments entry_segs path_segs =
    if not (length entry_segs == length path_segs) then none else match_loop entry_segs path_segs []

pub record RouteEntry : Type 0 where
  pub method : Text
  pub path_pattern : Text
  pub agent : String
  pub mode : String
  pub middleware : List String
  pub raw_response : Bool
  pub payload_extra : Payload
  pub inject_principal : Bool
  pub segments : List Segment

-- RouteEntry(...) with __post_init__
unfoldable pub make_entry :
    Text → Text → String → String → List String → Bool → Payload → Bool → RouteEntry
unfolding upper parse_pattern
make_entry method pattern agent mode middleware raw extra inject = record {
  method = upper method;
  path_pattern = pattern;
  agent = agent;
  mode = mode;
  middleware = middleware;
  raw_response = raw;
  payload_extra = extra;
  inject_principal = inject;
  segments = parse_pattern pattern;
}

abbrev pub is_empty : Text → Bool
is_empty [] = true
is_empty (c ∷ cs) = false

unfoldable pub path_segments : Text → List Text
unfolding strip split
path_segments path = if is_empty (strip path) then [] else split (strip path)

unfoldable pub match_entries :
    Text → List Text → List RouteEntry → Option (RouteEntry × Dict Text Text)
match_entries method segs [] = none
match_entries method segs (e ∷ es) =
    let rest = match_entries method segs es in
    let here = match_segments e.segments segs in
    if not (e.method == method)
    then rest
    else elim here [ none ↦ rest | some params ↦ some (e, params) ]

-- RouteTable.match
unfoldable pub match_route : Text → Text → List RouteEntry → Option (RouteEntry × Dict Text Text)
unfolding match_entries match_segments path_segments upper
match_route method path entries = match_entries (upper method) (path_segments path) entries
