-- ===== src/Evaluation/Corrections.antt =====
-- The limit on corrections of civitas/evalloop.py against the history of messages.
use python_civitas.Base.{
  ℕ, ◌+◌, ltb, ◌≤◌, ◌≡◌, refl, ap, ◌∙◌, Bool, true, false, not, Option, none, some, List, [], ◌∷◌,
  String, arith, ◌==◌, string_eq, if◌then◌else◌, filter, length, All,
}
use python_civitas.Base.Windows.{
  admit_at, windows_after, allowed_times, IsBefore, IsTimed, at_most_cap,
}
use python_civitas.Message.{Message}
use python_civitas.Evaluation.{
  EvalAgent, EvalEvent, CorrectionSignal, Env, Effect, routed, in_window, check_rate_limit,
  event_of, export_all, send_correction, correction, act_on_signal, correct_if, handle,
}

check_rate_limit-admit_at :
    (now : ℕ) (k : String) (a : EvalAgent)
    → check_rate_limit now k a ≡ (
      (admit_at (in_window a.window_seconds) a.max_corrections k now a.correction_timestamps).0,
      record a {
        correction_timestamps =
            (admit_at
              (in_window a.window_seconds)
              a.max_corrections
              k
              now
              a.correction_timestamps).1;
      },
    )
unfolding check_rate_limit admit_at
check_rate_limit-admit_at now k a = ground arith

-- A message that was handled, with what the environment did and the clock's reading.
abbrev pub Handled : Type 0
Handled = Env × ℕ × Message

-- The agent after a history of messages, the newest first.
unfoldable pub after_messages : List Handled → EvalAgent → EvalAgent
after_messages [] a = a
after_messages ((env, now, m) ∷ hs) a = handle env now m (after_messages hs a)

-- The times of the corrections routed to a target, the newest first.
unfoldable pub corrections_to : String → List Effect → List ℕ
corrections_to k [] = []
corrections_to k (routed m ∷ log) =
    let rest = corrections_to k log in if m.recipient == k then m.timestamp ∷ rest else rest
corrections_to k (_ ∷ log) = corrections_to k log

-- The clock never ran backwards over a history, and is not past a time.
abbrev pub IsUntil : ℕ → List Handled → Type 0
IsUntil later hs = All (λ h. h.1 ≤ later) hs

abbrev pub IsClock : List Handled → Type 0
IsClock [] = Unit
IsClock ((env, now, m) ∷ hs) = IsUntil now hs × IsClock hs

-- The rate limit is asked for an event with a signal.
asked : Option CorrectionSignal → String → ℕ → List (String × ℕ) → List (String × ℕ)
asked none k now cs = cs
asked (some signal) k now cs = (k, now) ∷ cs

checks : List Handled → List (String × ℕ)
checks [] = []
checks ((env, now, m) ∷ hs) =
    if not (m.type == "civitas.eval.event")
    then checks hs
    else asked (env.on_eval_event (event_of m)) (event_of m).agent_name now (checks hs)

abbrev sent : Bool → List ℕ → List ℕ
sent has_bus ts = if has_bus then ts else []

-- The agent that a history of checks leaves.
record Follows (cs : List (String × ℕ)) (a b : EvalAgent) : Type 0 where
  same_window : b.window_seconds ≡ a.window_seconds
  same_cap : b.max_corrections ≡ a.max_corrections
  same_bus : b.has_bus ≡ a.has_bus
  windows :
      b.correction_timestamps ≡ windows_after (in_window a.window_seconds) a.max_corrections cs
  routed_times :
      (k : String)
      → corrections_to k b.log
        ≡ sent a.has_bus (allowed_times (in_window a.window_seconds) a.max_corrections k cs)

exports_route_nothing :
    (k : String) (env : Env) (event : EvalEvent) (es : List ℕ) (log : List Effect)
    → corrections_to k (export_all env event es log) ≡ corrections_to k log
unfolding corrections_to export_all
exports_route_nothing k env event [] log = refl
exports_route_nothing k env event (e ∷ es) log =
    exports_route_nothing k env event es _ ∙ ground arith

correct-Follows :
    (env : Env) (now : ℕ) (target : String) (signal : CorrectionSignal) (m : Message)
    (cs : List (String × ℕ)) (a b : EvalAgent)
    → Follows cs a b
    → Follows
        ((target, now) ∷ cs)
        a
        (correct_if env now target signal m (check_rate_limit now target b))
unfolding corrections_to send_correction correction windows_after allowed_times
correct-Follows env now target signal m cs a b h = record {
  same_window = ground (arith, check_rate_limit-admit_at now target b, h.same_window);
  same_cap = ground (arith, check_rate_limit-admit_at now target b, h.same_cap);
  same_bus = ground (arith, check_rate_limit-admit_at now target b, h.same_bus);
  windows =
      ground (arith, check_rate_limit-admit_at now target b, h.same_window, h.same_cap, h.windows);
  routed_times = λ k. ground (
    arith,
    check_rate_limit-admit_at now target b,
    h.same_window,
    h.same_cap,
    h.same_bus,
    h.windows,
    h.routed_times k,
  );
}

-- Exports change nothing that is followed.
export-Follows :
    (env : Env) (event : EvalEvent) (cs : List (String × ℕ)) (a b : EvalAgent)
    → Follows cs a b
    → Follows cs a (record b { log = export_all env event b.exporters b.log })
export-Follows env event cs a b h = record {
  same_window = h.same_window;
  same_cap = h.same_cap;
  same_bus = h.same_bus;
  windows = h.windows;
  routed_times = λ k. exports_route_nothing k env event b.exporters b.log ∙ h.routed_times k;
}

act-Follows :
    (env : Env) (now : ℕ) (event : EvalEvent) (signal : Option CorrectionSignal) (m : Message)
    (cs : List (String × ℕ)) (a b : EvalAgent)
    → Follows cs a b
    → Follows (asked signal event.agent_name now cs) a (act_on_signal env now event signal m b)
unfolding asked
act-Follows env now event none m cs a b h = h
act-Follows env now event (some signal) m cs a b h =
    correct-Follows env now event.agent_name signal m cs a b h

handle-Follows :
    (env : Env) (now : ℕ) (m : Message) (hs : List Handled) (a b : EvalAgent)
    → Follows (checks hs) a b
    → Follows (checks ((env, now, m) ∷ hs)) a (handle env now m b)
unfolding checks handle
handle-Follows env now m hs a b h = by_type (not (m.type == "civitas.eval.event"))
  where
    by_type :
        (t : Bool)
        → Follows
            (if t
              then checks hs
              else asked (env.on_eval_event (event_of m)) (event_of m).agent_name now (checks hs))
            a
            (if t
              then b
              else act_on_signal env now
                  (event_of m)
                  (env.on_eval_event (event_of m))
                  m
                  (record b { log = export_all env (event_of m) b.exporters b.log }))
    by_type true = h
    by_type false =
        act-Follows env now (event_of m) (env.on_eval_event (event_of m)) m (checks hs) a _
          (export-Follows env (event_of m) (checks hs) a b h)

-- The state that __init__ leaves.
abbrev pub IsNew : EvalAgent → Type 0
IsNew a = (a.correction_timestamps ≡ []) × (a.log ≡ [])

history-Follows :
    (hs : List Handled) (a : EvalAgent) → IsNew a → Follows (checks hs) a (after_messages hs a)
unfolding after_messages checks windows_after allowed_times corrections_to
history-Follows [] a new = record {
  same_window = refl;
  same_cap = refl;
  same_bus = refl;
  windows = new.0;
  routed_times = λ k. rw new.1 (ground arith);
}
history-Follows ((env, now, m) ∷ hs) a new =
    handle-Follows env now m hs a (after_messages hs a) (history-Follows hs a new)

with_check :
    (P : List (String × ℕ) → Type 0) (skipped : Bool) (signal : Option CorrectionSignal)
    (k : String) (now : ℕ) (cs : List (String × ℕ))
    → P cs
    → P ((k, now) ∷ cs)
    → P (if skipped then cs else asked signal k now cs)
unfolding asked
with_check P true signal k now cs h c = h
with_check P false none k now cs h c = h
with_check P false (some signal) k now cs h c = c

checks-IsBefore : (later : ℕ) (hs : List Handled) → IsUntil later hs → IsBefore later (checks hs)
unfolding checks
checks-IsBefore later [] h = tt
checks-IsBefore later ((env, now, m) ∷ hs) h =
    let before = checks-IsBefore later hs h.1 in
    with_check (IsBefore later) (not (m.type == "civitas.eval.event"))
      (env.on_eval_event (event_of m)) (event_of m).agent_name now (checks hs) before (h.0, before)

checks-IsTimed : (hs : List Handled) → IsClock hs → IsTimed (checks hs)
unfolding checks
checks-IsTimed [] h = tt
checks-IsTimed ((env, now, m) ∷ hs) h =
    let timed = checks-IsTimed hs h.1 in
    with_check IsTimed (not (m.type == "civitas.eval.event")) (env.on_eval_event (event_of m))
      (event_of m).agent_name now (checks hs) timed (checks-IsBefore now hs h.0, timed)

in_window-narrows :
    (span now later t : ℕ)
    → now ≤ later
    → in_window span later t ≡ true
    → in_window span now t ≡ true
in_window-narrows span now later t h k = ground arith

sent_fewer :
    (has_bus : Bool) (p : ℕ → Bool) (ts : List ℕ)
    → length (filter p (sent has_bus ts)) ≤ length (filter p ts)
sent_fewer true p ts = omega arith
sent_fewer false p ts = omega arith

-- The times that are less than `span` before `later`, or after it.
unfoldable pub younger_than : ℕ → ℕ → List ℕ → List ℕ
younger_than span later [] = []
younger_than span later (t ∷ ts) =
    let rest = younger_than span later ts in if ltb later (t + span) then t ∷ rest else rest

younger_than-filter :
    (span later : ℕ) (ts : List ℕ) → younger_than span later ts ≡ filter (in_window span later) ts
unfolding younger_than
younger_than-filter span later [] = refl
younger_than-filter span later (t ∷ ts) = ground (arith, younger_than-filter span later ts)

-- An EvalAgent that began with no corrections handled any messages on a clock that never ran
-- backwards. At any time not before them, at most max_corrections of the corrections that it has
-- routed to one target are less than window_seconds old.
pub corrections_bounded :
    (hs : List Handled) (a : EvalAgent) (target : String) (later : ℕ)
    → IsNew a
    → IsClock hs
    → IsUntil later hs
    → length (younger_than a.window_seconds later (corrections_to target (after_messages hs a).log))
      ≤ a.max_corrections
corrections_bounded hs a target later new clock before = omega (
  arith,
  ap length (
      younger_than-filter a.window_seconds later (corrections_to target (after_messages hs a).log)),
  ap (λ ts. length (filter (in_window a.window_seconds later) ts))
      ((history-Follows hs a new).routed_times target),
  sent_fewer a.has_bus (in_window a.window_seconds later)
      (allowed_times (in_window a.window_seconds) a.max_corrections target (checks hs)),
  at_most_cap (in_window a.window_seconds) a.max_corrections (in_window-narrows a.window_seconds)
      target (checks hs) later (checks-IsTimed hs clock) (checks-IsBefore later hs before),
)
