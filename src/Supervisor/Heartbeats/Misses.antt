-- ===== src/Supervisor/Heartbeats/Misses.antt =====
-- When the heartbeats of civitas/supervisor.py report a child.
use python_civitas.Base.{
  ℕ, zero, suc, ◌+◌, ◌≤◌, ◌<◌, ◌≡◌, refl, ◌⊎◌, inl, inr, List, [], ◌∷◌, String, arith, ◌==◌,
  string_eq, if◌then◌else◌,
}
use python_civitas.Base.Dict.{lookup, lookup-insert}
use python_civitas.Supervisor.Heartbeats.{
  Answer, acked, timed_out, failed, Monitor, missed_of, threshold_of, heartbeat,
}

-- The monitor after a history of heartbeats and their answers, the newest first.
unfoldable pub after_heartbeats : List (String × Answer) → Monitor → Monitor
after_heartbeats [] m = m
after_heartbeats ((name, answer) ∷ hs) m = heartbeat name answer (after_heartbeats hs m)

-- How many heartbeats of a child timed out since it last acknowledged one.
unfoldable pub silence : String → List (String × Answer) → ℕ
silence name [] = 0
silence name ((n, timed_out) ∷ hs) =
    let rest = silence name hs in if n == name then suc rest else rest
silence name ((n, failed) ∷ hs) = silence name hs
silence name ((n, acked agents) ∷ hs) = let rest = silence name hs in if n == name then 0 else rest

-- How often a child was reported.
unfoldable pub reports : String → List (String × ℕ) → ℕ
reports name [] = 0
reports name ((n, missed) ∷ es) = let rest = reports name es in if n == name then suc rest else rest

abbrev pub missed_now : String → Monitor → ℕ
missed_now name m = missed_of (lookup name m.missed_heartbeats)

config-heartbeats :
    (hs : List (String × Answer)) (m : Monitor)
    → (after_heartbeats hs m).remote_child_config ≡ m.remote_child_config
unfolding after_heartbeats heartbeat
config-heartbeats [] m = refl
config-heartbeats ((n, acked agents) ∷ hs) m = config-heartbeats hs m
config-heartbeats ((n, failed) ∷ hs) m = config-heartbeats hs m
config-heartbeats ((n, timed_out) ∷ hs) m = ground (arith, config-heartbeats hs m)

missed_le_silence :
    (name : String) (hs : List (String × Answer)) (m : Monitor)
    → missed_now name m ≡ 0
    → missed_now name (after_heartbeats hs m) ≤ silence name hs
unfolding after_heartbeats heartbeat silence
missed_le_silence name [] m start = omega (arith, start)
missed_le_silence name ((n, acked agents) ∷ hs) m start = ground (
  arith,
  missed_le_silence name hs m start,
  lookup-insert n name 0 (after_heartbeats hs m).missed_heartbeats,
)
missed_le_silence name ((n, failed) ∷ hs) m start = missed_le_silence name hs m start
missed_le_silence name ((n, timed_out) ∷ hs) m start =
    let before = after_heartbeats hs m in
    ground (
      arith,
      missed_le_silence name hs m start,
      string_eq.same_iff n name,
      lookup-insert n name 0 before.missed_heartbeats,
      lookup-insert n name (missed_now n before + 1) before.missed_heartbeats,
    )

-- A child was added with no misses. If the answer to a heartbeat of the monitor makes one more report
-- of a child, then, this heartbeat counted, at least as many heartbeats of the child as its threshold
-- timed out since it last acknowledged one, whatever the answers of other children and failed
-- requests in between.
pub report_needs_silence :
    (name n : String) (answer : Answer) (hs : List (String × Answer)) (m : Monitor)
    → missed_now name m ≡ 0
    → reports name (after_heartbeats hs m).crash_events
      < reports name (after_heartbeats ((n, answer) ∷ hs) m).crash_events
    → threshold_of (lookup name m.remote_child_config) ≤ silence name ((n, answer) ∷ hs)
unfolding after_heartbeats heartbeat silence reports
report_needs_silence name n (acked agents) hs m start more = ground (arith, more)
report_needs_silence name n failed hs m start more = ground (arith, more)
report_needs_silence name n timed_out hs m start more = ground (
  arith,
  more,
  missed_le_silence name hs m start,
  string_eq.same_iff n name,
  config-heartbeats hs m,
)

-- As many heartbeats of a child as its threshold time out one after the other.
unfoldable pub time_outs : ℕ → String → Monitor → Monitor
time_outs zero name m = m
time_outs (suc k) name m = heartbeat name timed_out (time_outs k name m)

config-time_outs :
    (k : ℕ) (name : String) (m : Monitor)
    → (time_outs k name m).remote_child_config ≡ m.remote_child_config
unfolding time_outs heartbeat
config-time_outs zero name m = refl
config-time_outs (suc k) name m = ground (arith, config-time_outs k name m)

reported_or_missed :
    (k : ℕ) (name : String) (m : Monitor)
    → (reports name m.crash_events < reports name (time_outs k name m).crash_events)
      ⊎ ((k ≤ missed_now name (time_outs k name m))
          × (reports name m.crash_events ≡ reports name (time_outs k name m).crash_events)
          × ((k ≡ 0)
              ⊎ (missed_now name (time_outs k name m)
                  < threshold_of (lookup name m.remote_child_config))))
unfolding time_outs heartbeat reports
reported_or_missed zero name m = inr (omega arith, refl, inl refl)
reported_or_missed (suc k) name m =
    let before = time_outs k name m in
    ground (
      arith,
      reported_or_missed k name m,
      config-time_outs k name m,
      string_eq.same_iff name name,
      lookup-insert name name 0 before.missed_heartbeats,
      lookup-insert name name (missed_now name before + 1) before.missed_heartbeats,
    )

-- From any state, once as many heartbeats of a child in a row as its threshold, which is not 0, timed
-- out, the child has been reported at least once more.
pub silent_child_reported :
    (name : String) (m : Monitor)
    → 0 < threshold_of (lookup name m.remote_child_config)
    → reports name m.crash_events
      < reports name
          (time_outs (threshold_of (lookup name m.remote_child_config)) name m).crash_events
silent_child_reported name m positive =
    ground (
      arith,
      positive,
      reported_or_missed (threshold_of (lookup name m.remote_child_config)) name m,
    )
