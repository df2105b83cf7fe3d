-- ===== src/Examples/Buses.antt =====
-- The bus of civitas/bus.py, an EvalAgent and a RateLimiter with concrete messages.
use python_civitas.Base.{
  arith, ◌≡◌, refl, ◌≤◌, ◌<◌, ◌↔◌, true, false, some, [], ◌∷◌, string_eq, length, All, ◌++◌,
}
use python_civitas.Base.Dict.{lookup}
use python_civitas.Message.{Message, blank, str}
use python_civitas.Mailbox.{Mailbox}
use python_civitas.Registry.{LocalRegistry}
use python_civitas.Bus.{Link, MessageBus, teardown_agent}
use python_civitas.Bus.Teardown.{IsSettled, teardown_settles_all}
use python_civitas.Evaluation.{EvalAgent, Env, halt}
use python_civitas.Evaluation.Corrections.{
  after_messages, corrections_to, younger_than, corrections_bounded,
}
use python_civitas.Gateway.{RateLimiter, handle_call}
use python_civitas.Gateway.Budgets.{after_calls, allowed_calls, at_most_old, call_allowed_iff}

abbrev link : Link
link = record {
  has_reply_address = λ name. false;
  delivers = λ address m. true;
  span = λ m. ("t", "s");
  message_id = "m9";
  span_id = "s9";
}

abbrev names : LocalRegistry
names = record {
  entries = [];
  listeners = [];
  remote_epochs = [];
  suspended = [];
  loop_running = false;
  tasks = [];
}

abbrev question : Message
question = record (blank "m1" 3) {
  sender = "boss";
  recipient = "w";
  correlation_id = some "c1";
  reply_to = some "_reply.1";
}

abbrev waiting : Mailbox
waiting = record {
  queue = question ∷ blank "m2" 4 ∷ [];
  priority_queue = [];
  maxsize = 10;
  priority_maxsize = 0;
  notify = false;
}

abbrev bus : MessageBus
bus = record {
  registry = names;
  local_agents = ("w", waiting) ∷ [];
  subscribed = "w" ∷ [];
  published = [];
  audits = false;
  audited = [];
  dropped = [];
}

teardown_settles_all_example :
    ((teardown_agent link 5 "w" "agent 'w' was terminated" bus).0 ≡ true)
    × All
        (IsSettled link "w" "agent 'w' was terminated" bus
          (teardown_agent link 5 "w" "agent 'w' was terminated" bus).1)
        (waiting.priority_queue ++ waiting.queue)
unfolding lookup
teardown_settles_all_example =
    teardown_settles_all link 5 "w" "agent 'w' was terminated" waiting bus (λ a m. refl) refl

abbrev judge : EvalAgent
judge = record {
  name = "eval_agent";
  max_corrections = 1;
  window_seconds = 60;
  exporters = 0 ∷ [];
  has_bus = true;
  correction_timestamps = [];
  log = [];
}

abbrev strict : Env
strict = record {
  on_eval_event = λ event. some (record { severity = halt; reason = "no"; payload = [] });
  export_fails = λ exporter event. true;
  message_id = "m7";
  span_id = "s7";
}

abbrev observed : Message
observed = record (blank "m5" 8) {
  type = "civitas.eval.event";
  sender = "w";
  payload = ("agent_name", str "w") ∷ ("event_type", str "output") ∷ [];
}

corrections_bounded_example :
    length (
      younger_than 60 12 (
        corrections_to "w"
          (after_messages ((strict, 11, observed) ∷ (strict, 10, observed) ∷ []) judge).log))
    ≤ 1
corrections_bounded_example =
    corrections_bounded ((strict, 11, observed) ∷ (strict, 10, observed) ∷ []) judge "w" 12
      (refl, refl) ((ground arith, tt), (tt, tt)) (ground arith, (ground arith, tt))

abbrev limiter : RateLimiter
limiter = record { max = 2; window = 60; hits = [] }

call_allowed_iff_example :
    ((handle_call 12 "ip" (after_calls (("ip", 11) ∷ ("other", 10) ∷ []) limiter)).0.allowed ≡ true)
    ↔ (length (at_most_old 60 12 (allowed_calls "ip" (("ip", 11) ∷ ("other", 10) ∷ []) limiter))
        < 2)
call_allowed_iff_example =
    call_allowed_iff (("ip", 11) ∷ ("other", 10) ∷ []) limiter "ip" 12 refl
      ((ground arith, (ground arith, tt)), ((ground arith, tt), (tt, tt)))
