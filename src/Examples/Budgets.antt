-- ===== src/Examples/Budgets.antt =====
-- Restart budgets of civitas/supervision/engine.py at concrete crashes.
use python_civitas.Base.{◌<◌, ◌≡◌, refl, ◌↔◌, some, List, [], ◌∷◌, arith, length, filter}
use python_civitas.Engine.{RestartEngine, exponential, exhausted, record_crash}
use python_civitas.Engine.Window.{recent, Crash, record_all, chronological, IsClock, window_history}
use python_civitas.Engine.Budget.{exhausted_iff}

abbrev engine : RestartEngine
engine = record {
  max_restarts = 2;
  restart_window = 60;
  backoff = some exponential;
  backoff_base = 4;
  backoff_max = 50;
  window = [];
}

abbrev crashes : List Crash
crashes = (70, 0) ∷ (65, 5) ∷ (10, 0) ∷ []

crashes-IsClock : IsClock ((75, 7) ∷ crashes)
crashes-IsClock = (
  (omega arith, (omega arith, (omega arith, tt))),
  ((omega arith, (omega arith, tt)), ((omega arith, tt), (tt, tt))),
)

window_history_example :
    (record_all engine ((75, 7) ∷ crashes)).window
    ≡ filter (recent 60 75) (chronological ((75, 7) ∷ crashes))
window_history_example = window_history engine 75 7 crashes refl crashes-IsClock

exhausted_iff_example :
    ((record_crash (record_all engine crashes) 75 7).1.action ≡ exhausted)
    ↔ (2 < length (filter (recent 60 75) (chronological ((75, 7) ∷ crashes))))
exhausted_iff_example = exhausted_iff engine 75 7 crashes refl crashes-IsClock
