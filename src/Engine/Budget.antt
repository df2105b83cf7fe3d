-- ===== src/Engine/Budget.antt =====
-- When record_crash of engine.py restarts and when it gives up.
use python_civitas.Base.{
  ℕ, ◌+◌, ◌≤◌, ◌<◌, ◌≡◌, refl, ◌↔◌, List, [], ◌∷◌, ◌++◌, arith, length, filter, length-append, All,
}
use python_civitas.Engine.{RestartEngine, restart, exhausted, prune, record_crash, reset}
use python_civitas.Engine.Window.{
  recent, Crash, record_all, chronological, IsClock, window_history, max_restarts-record_all,
}

verdict_from_window :
    (e : RestartEngine) (t jitter : ℕ) (hs : List Crash)
    → (record_crash (record_all e hs) t jitter).1.crashes_in_window
      ≡ length (record_all e ((t, jitter) ∷ hs)).window
unfolding record_all record_crash
verdict_from_window e t jitter hs = ground arith

exhausted_from_occupancy :
    (e : RestartEngine) (t jitter : ℕ)
    → ((record_crash e t jitter).1.action ≡ exhausted)
      ↔ (e.max_restarts < (record_crash e t jitter).1.crashes_in_window)
unfolding record_crash
exhausted_from_occupancy e t jitter = ground arith

-- After any history on a clock that never ran backwards, from an empty window, a crash exhausts the
-- budget exactly when more than `max_restarts` crashes of the history, this one counted, happened
-- less than `restart_window` ago.
pub exhausted_iff :
    (e : RestartEngine) (t jitter : ℕ) (hs : List Crash)
    → e.window ≡ []
    → IsClock ((t, jitter) ∷ hs)
    → ((record_crash (record_all e hs) t jitter).1.action ≡ exhausted) ↔ (
        e.max_restarts
        < length (filter (recent e.restart_window t) (chronological ((t, jitter) ∷ hs))))
unfolding record_all
exhausted_iff e t jitter hs empty clock =
    rw
      (
        verdict_from_window e t jitter hs,
        window_history e t jitter hs empty clock,
        max_restarts-record_all e hs,
      )
      at (exhausted_from_occupancy (record_all e hs) t jitter)

length-prune-le : (span now : ℕ) (ts : List ℕ) → length (prune span now ts) ≤ length ts
unfolding prune
length-prune-le span now [] = omega arith
length-prune-le span now (t ∷ ts) = ground (arith, length-prune-le span now ts)

window_growth :
    (e : RestartEngine) (hs : List Crash)
    → length (record_all e hs).window ≤ length e.window + length hs
unfolding record_all record_crash
window_growth e [] = omega arith
window_growth e ((t, jitter) ∷ hs) =
    let before = record_all e hs in
    omega (
      arith,
      window_growth e hs,
      length-prune-le before.restart_window t (before.window ++ t ∷ []),
      length-append before.window (t ∷ []),
    )

-- A reset engine restarts each of its next `max_restarts` crashes, whenever they happen and
-- however the clock moves.
pub budget_after_reset :
    (e : RestartEngine) (t jitter : ℕ) (hs : List Crash)
    → length hs < e.max_restarts
    → (record_crash (record_all (reset e) hs) t jitter).1.action ≡ restart
unfolding reset
budget_after_reset e t jitter hs room = ground (
  arith,
  exhausted_from_occupancy (record_all (reset e) hs) t jitter,
  verdict_from_window (reset e) t jitter hs,
  window_growth (reset e) ((t, jitter) ∷ hs),
  max_restarts-record_all (reset e) hs,
)

none_recent :
    (span now : ℕ) (ts : List ℕ)
    → All (λ u. u + span ≤ now) ts
    → filter (recent span now) (ts ++ now ∷ []) ≡ filter (recent span now) (now ∷ [])
none_recent span now [] h = refl
none_recent span now (t ∷ ts) h = ground (arith, none_recent span now ts h.1)

-- On a clock that never ran backwards, from an empty window and with a window that is not of length
-- 0: once a whole window has passed without a crash, the next crash is counted as the only one,
-- whatever came before.
pub decay_after_quiet :
    (e : RestartEngine) (t jitter : ℕ) (hs : List Crash)
    → e.window ≡ []
    → IsClock ((t, jitter) ∷ hs)
    → All (λ u. u + e.restart_window ≤ t) (chronological hs)
    → 0 < e.restart_window
    → (record_crash (record_all e hs) t jitter).1.crashes_in_window ≡ 1
decay_after_quiet e t jitter hs empty clock quiet positive =
    rw
      (
        verdict_from_window e t jitter hs,
        window_history e t jitter hs empty clock,
        none_recent e.restart_window t (chronological hs) quiet,
      )
      (ground arith)
