-- ===== src/Registry.antt =====
-- civitas/registry.py: the table from names to addresses. A method returns its result with the new
-- registry, or with the registry as a raised ValueError leaves it.
-- A listener is known by its identity, a number; a task that was made for one is a `Notification`.
-- fnmatch.fnmatch of Python's library is the argument `fnmatch`.
pub mod Remote
pub mod Names
pub mod Epochs
pub mod Burial
pub mod Search
use text.Mathlib.Text.{starts_with}
use python_civitas.Base.{
  ℕ, Bool, true, false, not, ◌&&◌, ◌||◌, Option, none, some, List, [], ◌∷◌, ◌++◌, map, String, ltb,
  leb, max, ◌==◌, nat_eq, string_eq, if◌then◌else◌, filter, all, any, contains,
}
use python_civitas.Base.Dict.{Dict, lookup, insert, erase}
use python_civitas.Message.{Payload}

pub record RoutingEntry : Type 0 where
  pub name : String
  pub address : String
  pub is_local : Bool
  pub capabilities : List String
  pub capability_metadata : Payload
  pub owner : String
  pub pubkey : String
  pub epoch : ℕ
  pub health_channel : String

pub data Change : Type 0 where
  registered deregistered : Change

pub record Notification : Type 0 where
  pub listener : ℕ
  pub name : String
  pub capabilities : List String
  pub capability_metadata : Payload
  pub event : Change

pub record LocalRegistry : Type 0 where
  pub entries : Dict String RoutingEntry
  pub listeners : List ℕ
  pub remote_epochs : Dict String ℕ
  pub suspended : List String
  -- whether asyncio.get_running_loop() finds a loop, and the tasks made on it so far
  pub loop_running : Bool
  pub tasks : List Notification

pub data Result : Type 0 where
  done value_error : Result

-- set.add and set.discard
unfoldable pub set_suspended : String → Bool → LocalRegistry → LocalRegistry
set_suspended name true r =
    if contains name r.suspended then r else record r { suspended = r.suspended ++ name ∷ [] }
set_suspended name false r = record r { suspended = filter (λ n. not (n == name)) r.suspended }

unfoldable pub is_suspended : String → LocalRegistry → Bool
is_suspended name r = contains name r.suspended

abbrev pub notification : RoutingEntry → Change → ℕ → Notification
notification e event listener = record {
  listener = listener;
  name = e.name;
  capabilities = e.capabilities;
  capability_metadata = e.capability_metadata;
  event = event;
}

unfoldable pub fire_listeners : RoutingEntry → Change → LocalRegistry → LocalRegistry
fire_listeners e event r =
    if r.loop_running
    then record r { tasks = r.tasks ++ map (notification e event) r.listeners }
    else r

abbrev pub or_name : Option String → String → String
or_name none name = name
or_name (some address) name = address

-- The entry that `register` makes, with the defaults of the fields it does not take.
abbrev pub local_entry : String → Option String → Bool → List String → Payload → RoutingEntry
local_entry name address is_local capabilities metadata = record {
  name = name;
  address = or_name address name;
  is_local = is_local;
  capabilities = capabilities;
  capability_metadata = metadata;
  owner = "";
  pubkey = "";
  epoch = 0;
  health_channel = "";
}

unfoldable pub register :
    String → Option String → Bool → List String → Payload → LocalRegistry → Result × LocalRegistry
unfolding lookup insert fire_listeners
register name address is_local capabilities metadata r =
    let e = local_entry name address is_local capabilities metadata in
    elim (lookup name r.entries) [
      | some old ↦ (value_error, r)
      | none ↦ (done, fire_listeners e registered (record r { entries = insert name e r.entries }))
    ]

unfoldable pub deregister : String → LocalRegistry → LocalRegistry
unfolding lookup erase fire_listeners set_suspended
deregister name r =
    let gone = set_suspended name false (record r { entries = erase name r.entries }) in
    elim (lookup name r.entries) [ none ↦ gone | some e ↦ fire_listeners e deregistered gone ]

unfoldable pub lookup_entry : String → LocalRegistry → Option RoutingEntry
lookup_entry name r = lookup name r.entries

unfoldable pub has : String → LocalRegistry → Bool
has name r = elim (lookup name r.entries) [ none ↦ false | some e ↦ true ]

abbrev keys : Dict String RoutingEntry → List String
keys [] = []
keys ((k, e) ∷ d) = k ∷ keys d

abbrev pub values : Dict String RoutingEntry → List RoutingEntry
values [] = []
values ((k, e) ∷ d) = e ∷ values d

unfoldable pub all_names : LocalRegistry → List String
all_names r = keys r.entries

-- name.startswith("_")
abbrev pub is_system : String → Bool
is_system name = starts_with name "_"

unfoldable pub lookup_all : (String → String → Bool) → String → LocalRegistry → List RoutingEntry
lookup_all fnmatch pattern r =
    if is_system pattern
    then values (filter (λ entry. fnmatch entry.0 pattern) r.entries)
    else values (filter (λ entry. not (is_system entry.0) && fnmatch entry.0 pattern) r.entries)

unfoldable pub find_by_capability : String → LocalRegistry → List RoutingEntry
find_by_capability tag r = filter (λ e. contains tag e.capabilities) (values r.entries)

pub data MatchMode : Type 0 where
  match_any match_all : MatchMode

unfoldable pub find_by_capabilities : List String → MatchMode → LocalRegistry → List RoutingEntry
find_by_capabilities tags match_all r =
    filter (λ e. all (λ tag. contains tag e.capabilities) tags) (values r.entries)
find_by_capabilities tags match_any r =
    filter (λ e. any (λ tag. contains tag e.capabilities) tags) (values r.entries)

unfoldable pub add_listener : ℕ → LocalRegistry → LocalRegistry
add_listener l r = record r { listeners = r.listeners ++ l ∷ [] }

unfoldable pub remove_listener : ℕ → LocalRegistry → LocalRegistry
remove_listener l r = record r { listeners = filter (λ k. not (k == l)) r.listeners }

unfoldable pub reregister_preserving : String → LocalRegistry → Result × LocalRegistry
unfolding lookup register deregister
reregister_preserving name r = elim (lookup name r.entries) [
  | none ↦ register name none true [] [] (deregister name r)
  | some e ↦
      register name (some e.address) e.is_local e.capabilities e.capability_metadata
        (deregister name r)
]
