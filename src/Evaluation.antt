-- ===== src/Evaluation.antt =====
-- EvalAgent of civitas/evalloop.py: events of agents, corrections, and their limit for each target.
-- What on_eval_event returns and whether an exporter raises are the argument `env`; `now` is the
-- reading of time.time(). An agent_name and an event_type of a payload are strings, as emit_eval of
-- civitas/process.py writes them.
pub mod Corrections
use python_civitas.Base.{
  ℕ, ◌+◌, Bool, true, false, not, Option, none, some, List, [], ◌∷◌, ◌++◌, String, ltb, leb, ◌==◌,
  string_eq, if◌then◌else◌, filter, length,
}
use python_civitas.Base.Dict.{Dict, lookup, insert}
use python_civitas.Message.{Value, str, Payload, Message, blank}

pub data Severity : Type 0 where
  nudge redirect halt : Severity

unfoldable pub severity_value : Severity → String
severity_value nudge = "nudge"
severity_value redirect = "redirect"
severity_value halt = "halt"

pub record EvalEvent : Type 0 where
  pub agent_name : String
  pub event_type : String
  pub payload : Payload
  pub trace_id : String
  pub message_id : String

pub record CorrectionSignal : Type 0 where
  pub severity : Severity
  pub reason : String
  pub payload : Payload

-- The exporters by their numbers, and a fresh identifier for a message and for a span.
pub record Env : Type 0 where
  pub on_eval_event : EvalEvent → Option CorrectionSignal
  pub export_fails : ℕ → EvalEvent → Bool
  pub message_id : String
  pub span_id : String

pub data Effect : Type 0 where
  exported : ℕ → EvalEvent → Effect
  export_failed : ℕ → EvalEvent → Effect
  rate_limited : String → Effect
  routed : Message → Effect

pub record EvalAgent : Type 0 where
  pub name : String
  pub max_corrections : ℕ
  pub window_seconds : ℕ
  pub exporters : List ℕ
  pub has_bus : Bool
  pub correction_timestamps : Dict String (List ℕ)
  -- newest first
  pub log : List Effect

abbrev times_or_new : Option (List ℕ) → List ℕ
times_or_new none = []
times_or_new (some ts) = ts

-- now - t < window_seconds
abbrev pub in_window : ℕ → ℕ → ℕ → Bool
in_window span now t = ltb now (t + span)

unfoldable pub check_rate_limit : ℕ → String → EvalAgent → Bool × EvalAgent
unfolding lookup insert
check_rate_limit now agent_name a =
    let timestamps = times_or_new (lookup agent_name a.correction_timestamps) in
    let recent = filter (in_window a.window_seconds now) timestamps in
    if leb a.max_corrections (length recent)
    then (
      false,
      record a { correction_timestamps = insert agent_name recent a.correction_timestamps },
    )
    else (
      true,
      record a {
        correction_timestamps = insert agent_name (recent ++ now ∷ []) a.correction_timestamps;
      },
    )

abbrev str_or : String → Option Value → String
str_or default (some (str s)) = s
str_or default _ = default

unfoldable pub event_of : Message → EvalEvent
unfolding lookup
event_of m = record {
  agent_name = str_or m.sender (lookup "agent_name" m.payload);
  event_type = str_or "" (lookup "event_type" m.payload);
  payload = m.payload;
  trace_id = m.trace_id;
  message_id = m.id;
}

-- Each exporter is called; one that raises is logged and the next is called.
unfoldable pub export_all : Env → EvalEvent → List ℕ → List Effect → List Effect
export_all env event [] log = log
export_all env event (e ∷ es) log =
    export_all env event es
      ((if env.export_fails e event then export_failed e event else exported e event) ∷ log)

-- {"severity": ..., "reason": ..., **signal.payload}
unfoldable pub merged : Payload → Payload → Payload
unfolding insert
merged base [] = base
merged base ((k, v) ∷ more) = merged (insert k v base) more

abbrev is_halt : Severity → Bool
is_halt halt = true
is_halt _ = false

-- original.span_id or None
abbrev or_none : String → Option String
or_none s = if s == "" then none else some s

unfoldable pub correction : Env → ℕ → String → String → CorrectionSignal → Message → Message
unfolding merged severity_value
correction env now name target signal original = record (blank env.message_id now) {
  type = if is_halt signal.severity then "civitas.eval.halt" else "civitas.eval.correction";
  sender = name;
  recipient = target;
  payload =
      merged
        (("severity", str (severity_value signal.severity)) ∷ ("reason", str signal.reason) ∷ [])
        signal.payload;
  trace_id = original.trace_id;
  span_id = env.span_id;
  parent_span_id = or_none original.span_id;
  priority = if is_halt signal.severity then 1 else 0;
}

unfoldable pub send_correction :
    Env → ℕ → String → CorrectionSignal → Message → EvalAgent → EvalAgent
unfolding correction
send_correction env now target signal original a =
    if not a.has_bus
    then a
    else record a { log = routed (correction env now a.name target signal original) ∷ a.log }

abbrev correct_if : Env → ℕ → String → CorrectionSignal → Message → Bool × EvalAgent → EvalAgent
correct_if env now target signal original (false, a) = record a {
  log = rate_limited target ∷ a.log;
}
correct_if env now target signal original (true, a) =
    send_correction env now target signal original a

abbrev pub act_on_signal :
    Env → ℕ → EvalEvent → Option CorrectionSignal → Message → EvalAgent → EvalAgent
act_on_signal env now event none original a = a
act_on_signal env now event (some signal) original a =
    correct_if env now event.agent_name signal original (check_rate_limit now event.agent_name a)

unfoldable pub handle : Env → ℕ → Message → EvalAgent → EvalAgent
unfolding event_of export_all check_rate_limit
handle env now m a =
    if not (m.type == "civitas.eval.event")
    then a
    else act_on_signal env now (event_of m) (env.on_eval_event (event_of m)) m
        (record a { log = export_all env (event_of m) a.exporters a.log })
