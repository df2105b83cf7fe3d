-- ===== src/Supervisor/Heartbeats.antt =====
-- The liveness of remote children in civitas/supervisor.py: heartbeats, health probes, and the crash
-- events that they enqueue. What a request to a child or to a health channel comes to is an argument.
pub mod Misses
use python_civitas.Base.{
  ℕ, suc, ◌+◌, Bool, true, false, not, ◌&&◌, ◌||◌, Option, none, some, List, [], ◌∷◌, ◌++◌, String,
  leb, min, max, ◌==◌, string_eq, if◌then◌else◌,
}
use python_civitas.Base.Dict.{Dict, lookup, insert}
use python_civitas.Registry.{LocalRegistry, RoutingEntry, lookup_entry}

pub record Config : Type 0 where
  pub interval : ℕ
  pub timeout : ℕ
  pub threshold : ℕ

-- What an acknowledgement tells about one agent.
pub record Snapshot : Type 0 where
  pub task_alive : Option Bool
  pub status : Option String

pub data Answer : Type 0 where
  acked : Dict String Snapshot → Answer
  timed_out : Answer
  failed : Answer

pub record Monitor : Type 0 where
  pub has_bus : Bool
  pub registry : Option LocalRegistry
  pub remote_children : List String
  pub missed_heartbeats : Dict String ℕ
  pub remote_child_config : Dict String Config
  -- the children handed to the crash loop, each with its misses, the newest first
  pub crash_events : List (String × ℕ)

-- set.add of a name
abbrev with_child : String → List String → List String
with_child name [] = name ∷ []
with_child name (n ∷ ns) = let rest = with_child name ns in if n == name then n ∷ ns else n ∷ rest

unfoldable pub add_remote_child : String → ℕ → ℕ → ℕ → Monitor → Monitor
unfolding insert
add_remote_child name interval timeout threshold m = record m {
  remote_children = with_child name m.remote_children;
  missed_heartbeats = insert name 0 m.missed_heartbeats;
  remote_child_config =
      insert name (record { interval = interval; timeout = timeout; threshold = threshold })
        m.remote_child_config;
}

abbrev pub missed_of : Option ℕ → ℕ
missed_of none = 0
missed_of (some n) = n

-- The settings of a child, with the defaults of the code in ticks of a second.
abbrev pub threshold_of : Option Config → ℕ
threshold_of none = 3
threshold_of (some c) = c.threshold

abbrev timeout_of : Option Config → ℕ
timeout_of none = 2
timeout_of (some c) = c.timeout

-- The least threshold and the greatest timeout of the children of a channel.
unfoldable pub channel_threshold : List String → Dict String Config → ℕ
unfolding lookup
channel_threshold [] config = 3
channel_threshold (n ∷ []) config = threshold_of (lookup n config)
channel_threshold (n ∷ k ∷ ns) config =
    min (threshold_of (lookup n config)) (channel_threshold (k ∷ ns) config)

unfoldable pub channel_timeout : List String → Dict String Config → ℕ
unfolding lookup
channel_timeout [] config = 2
channel_timeout (n ∷ []) config = timeout_of (lookup n config)
channel_timeout (n ∷ k ∷ ns) config =
    max (timeout_of (lookup n config)) (channel_timeout (k ∷ ns) config)

abbrev pub enqueue_crash : String → ℕ → Monitor → Monitor
enqueue_crash name missed m = record m { crash_events = (name, missed) ∷ m.crash_events }

unfoldable pub enqueue_all : List String → ℕ → Monitor → Monitor
enqueue_all [] missed m = m
enqueue_all (n ∷ ns) missed m = enqueue_all ns missed (enqueue_crash n missed m)

abbrev pub set_missed : String → ℕ → Monitor → Monitor
set_missed key n m = record m { missed_heartbeats = insert key n m.missed_heartbeats }

-- The answer to a heartbeat of a child without a health channel.
unfoldable pub heartbeat : String → Answer → Monitor → Monitor
unfolding lookup insert
heartbeat name (acked agents) m = set_missed name 0 m
heartbeat name failed m = m
heartbeat name timed_out m =
    let missed = missed_of (lookup name m.missed_heartbeats) + 1 in
    if leb (threshold_of (lookup name m.remote_child_config)) missed
    then set_missed name 0 (enqueue_crash name missed m)
    else set_missed name missed m

-- snap.get("task_alive") is False or snap.get("status") == "CRASHED"
abbrev pub is_dead : Snapshot → Bool
is_dead snap =
    elim snap.task_alive [ none ↦ false | some alive ↦ not alive ]
    || elim snap.status [ none ↦ false | some status ↦ status == "CRASHED" ]

unfoldable pub inspect : List String → Dict String Snapshot → Monitor → Monitor
unfolding lookup
inspect [] agents m = m
inspect (n ∷ ns) agents m = inspect ns agents (elim (lookup n agents) [
  | none ↦ m
  | some snap ↦ if is_dead snap then enqueue_crash n 0 m else m
])

-- The answer to the one probe of a worker, for the children that it hosts.
unfoldable pub probe_health_channel : String → List String → Answer → Monitor → Monitor
unfolding lookup insert enqueue_all inspect channel_threshold
probe_health_channel channel children (acked agents) m =
    if m.has_bus then inspect children agents (set_missed channel 0 m) else m
probe_health_channel channel children failed m = m
probe_health_channel channel children timed_out m =
    let missed = missed_of (lookup channel m.missed_heartbeats) + 1 in
    if not m.has_bus
    then m
    else if leb (channel_threshold children m.remote_child_config) missed
    then set_missed channel 0 (enqueue_all children missed m)
    else set_missed channel missed m

abbrev channel_in : Option RoutingEntry → String
channel_in none = ""
channel_in (some e) = e.health_channel

abbrev channel_of : String → Option LocalRegistry → String
channel_of name none = ""
channel_of name (some r) = channel_in (lookup name r.entries)

abbrev names_in : Option (List String) → List String
names_in none = []
names_in (some ns) = ns

-- The children by channel, and those that are pinged one by one.
unfoldable pub group_by_health_channel :
    List String
    → Option LocalRegistry
    → Dict String (List String) × List String
    → Dict String (List String) × List String
unfolding lookup insert
group_by_health_channel [] registry groups = groups
group_by_health_channel (n ∷ ns) registry groups =
    let channel = channel_of n registry in
    group_by_health_channel ns registry (
      if channel == ""
      then (groups.0, groups.1 ++ n ∷ [])
      else (insert channel (names_in (lookup channel groups.0) ++ n ∷ []) groups.0, groups.1))

unfoldable pub probe_each : Dict String (List String) → (String → Answer) → Monitor → Monitor
unfolding probe_health_channel
probe_each [] answer m = m
probe_each ((channel, children) ∷ groups) answer m =
    probe_each groups answer (probe_health_channel channel children (answer channel) m)

unfoldable pub heartbeat_each : List String → (String → Answer) → Monitor → Monitor
unfolding heartbeat
heartbeat_each [] answer m = m
heartbeat_each (n ∷ ns) answer m =
    if m.has_bus then heartbeat_each ns answer (heartbeat n (answer n) m) else m

-- One turn of the loop, which goes on while the supervisor runs.
unfoldable pub heartbeat_turn : (String → Answer) → Monitor → Monitor
unfolding group_by_health_channel probe_each heartbeat_each
heartbeat_turn answer m =
    let groups = group_by_health_channel m.remote_children m.registry ([], []) in
    heartbeat_each groups.1 answer (probe_each groups.0 answer m)
