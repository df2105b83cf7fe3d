-- ===== src/Examples/Agents.antt =====
-- An agent of civitas/process.py at concrete messages.
use python_civitas.Base.{
  suc, arith, ◌+◌, ◌-◌, ◌≤◌, ◌≡◌, refl, ◌≢◌, inr, true, false, none, some, List, [], ◌∷◌,
}
use python_civitas.Message.{str, Payload, Message, blank, truthy}
use python_civitas.Mailbox.{Mailbox}
use python_civitas.Agent.{
  Agent, Hooks, Call, raises, retry, initializing, running, suspended, crashed, raised_by_user,
  hitl_approval,
}
use python_civitas.Agent.Suspension.{enter_suspended, resume, current_category, category_value}
use python_civitas.Agent.Dispatch.{out_of_fuel, propagated, dispatch}
use python_civitas.Agent.Loop.{turn, reach_loop}
use python_civitas.Agent.Flags.{
  Stimulus, arrives, takes_turn, asks_resume, leaves, IsSynced, live_all, flag_follows_status,
}
use python_civitas.Agent.Retries.{calls, IsHopeless, dispatch_ends, retries_exhausted}
use python_civitas.Agent.Pauses.{paused_turn_keeps_queue}
use python_civitas.Agent.Durability.{suspension_survives_restart, AcceptsAll}

-- A handler that always fails, and is retried.
abbrev failing : Payload → Call
failing state = record {
  state = state;
  self_suspend = none;
  outside_status = none;
  result = raises "boom";
}

abbrev hooks : Hooks
hooks = record {
  handle = λ m state. failing state;
  on_correction = λ m state. failing state;
  on_child_terminated = λ child reason state. failing state;
  on_error = λ exc m state. some retry;
  on_suspend = λ reason state. state;
  on_resume = λ approver state. state;
  suspend_allowed = true;
  accepts = λ state. true;
  unroutable = λ m. none;
  attempt_left = λ m state. m.attempt;
}

abbrev urgent : Message
urgent = record (blank "u1" 6) { priority = 1 }

abbrev box : Mailbox
box = record {
  queue = blank "b1" 5 ∷ [];
  priority_queue = urgent ∷ [];
  maxsize = 10;
  priority_maxsize = 0;
  notify = true;
}

abbrev agent : Agent
agent = record {
  name = "worker";
  status = running;
  state = [];
  store = some none;
  mailbox = box;
  suspend_requested = true;
  suspend_reason = str "audit";
  suspend_category = hitl_approval;
  suspend_initiated_by = str "";
  registry = some (record {
    entries = [];
    listeners = [];
    remote_epochs = [];
    suspended = "worker" ∷ [];
    loop_running = false;
    tasks = [];
  });
  has_bus = true;
  max_retries = 3;
  reached_loop = true;
  log = [];
}

abbrev paused : Agent
paused = record agent { status = suspended; suspend_requested = false }

abbrev history : List Stimulus
history = arrives urgent ∷ takes_turn 9 ∷ asks_resume (str "ana") ∷ takes_turn 10 ∷ leaves ∷ []

flag_follows_status_example : IsSynced (live_all hooks history (reach_loop (λ state. state) agent))
flag_follows_status_example = flag_follows_status hooks (λ state. state) history agent

dispatch_ends_example :
    ((dispatch hooks urgent agent).0 ≢ out_of_fuel)
    × (calls (dispatch hooks urgent agent).1.log ≤ 0 + suc (3 - 0))
dispatch_ends_example = dispatch_ends hooks urgent agent λ m state. omega arith

urgent-IsHopeless : IsHopeless hooks urgent "boom"
urgent-IsHopeless = record {
  handled = refl;
  fails = λ n state. refl;
  undisturbed = λ n state. refl;
  retried = λ n state. refl;
  counted = λ n state. refl;
}

retries_exhausted_example :
    let gone = dispatch hooks (record urgent { attempt = 0 }) (record agent { status = running }) in
    (gone.0 ≡ propagated (raised_by_user "boom"))
    × (gone.1.status ≡ crashed)
    × (calls gone.1.log ≡ calls agent.log + suc 3)
retries_exhausted_example =
    retries_exhausted hooks urgent "boom" (record agent { status = running }) urgent-IsHopeless refl

paused_turn_keeps_queue_example : (turn hooks 9 agent).1.mailbox.queue ≡ blank "b1" 5 ∷ []
paused_turn_keeps_queue_example = paused_turn_keeps_queue hooks 9 agent (inr (refl, refl))

hooks-AcceptsAll : AcceptsAll hooks
hooks-AcceptsAll state = refl

abbrev after_crash : Agent
after_crash = record agent {
  status = initializing;
  store = (enter_suspended hooks 9 (str "audit") agent).store;
}

suspension_survives_restart_example :
    ((enter_suspended hooks 9 (str "audit") agent).status ≡ suspended)
    × ((reach_loop (λ state. state) after_crash).status ≡ suspended)
    × (current_category (reach_loop (λ state. state) after_crash)
        ≡ str (category_value hitl_approval))
suspension_survives_restart_example =
    suspension_survives_restart hooks (λ state. state) 9 (str "audit") agent after_crash none refl
      hooks-AcceptsAll (λ state. refl) (λ state. refl) refl

abbrev after_resume : Agent
after_resume = record agent {
  status = initializing;
  store = (resume hooks (str "ana") paused).1.store;
}

ana_named : truthy (str "ana") ≡ true
unfolding truthy
ana_named = refl

nobody_named : truthy (str "") ≡ false
unfolding truthy
nobody_named = refl
