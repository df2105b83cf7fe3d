-- ===== src/Examples/Routes.antt =====
-- The route table of civitas/gateway/router.py at concrete paths.
use python_civitas.Base.{true, false, ◌≡◌, refl, none, List, [], ◌∷◌}
use python_civitas.Router.{
  Text, text_eq, Segment, RouteEntry, make_entry, parse_pattern, path_segments, match_segments,
  match_route, upper, strip,
}
use python_civitas.Router.Table.{Found, match_route-Found, root_route_unreachable}

abbrev users : Text
users = b'u' ∷ b's' ∷ []

abbrev id : Text
id = b'i' ∷ b'd' ∷ []

-- /us/{id}
abbrev segments : List Segment
segments = (false, users) ∷ (true, id) ∷ []

abbrev user_pattern : Text
user_pattern = b'/' ∷ b'u' ∷ b's' ∷ b'/' ∷ b'{' ∷ b'i' ∷ b'd' ∷ b'}' ∷ []

abbrev user_path : Text
user_path = b'/' ∷ b'u' ∷ b's' ∷ b'/' ∷ b'7' ∷ []

abbrev get_method : Text
get_method = b'g' ∷ b'e' ∷ b't' ∷ []

abbrev table : List RouteEntry
table = make_entry get_method user_pattern "users" "call" [] false [] true ∷ []

match_route-Found_example :
    Found
      (upper get_method)
      (path_segments user_path)
      table
      (match_route get_method user_path table)
match_route-Found_example = match_route-Found get_method user_path table

root_is_empty : strip (b'/' ∷ []) ≡ []
unfolding strip
root_is_empty = refl

root_route_unreachable_example :
    match_segments (parse_pattern (b'/' ∷ [])) (path_segments (b'/' ∷ [])) ≡ none
root_route_unreachable_example = root_route_unreachable (b'/' ∷ []) (b'/' ∷ []) root_is_empty
