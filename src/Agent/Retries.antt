-- ===== src/Agent/Retries.antt =====
-- How often _dispatch of civitas/process.py runs a handler.
use python_civitas.Base.{
  ℕ, zero, suc, ◌+◌, ◌-◌, ◌≤◌, ◌<◌, ◌≡◌, refl, ◌≢◌, ◌⊎◌, inl, inr, false, none, some, List, [], ◌∷◌,
  String, ◌==◌, string_eq, ltb, arith, Bool-cases,
}
use python_civitas.Message.{Message, Payload}
use python_civitas.Agent.{
  Agent, Hooks, Call, CallResult, returns, raises, retry, raised_by_user, running, crashed,
  set_status, Record, called_handle, called_correction,
}
use python_civitas.Agent.Suspension.{suspend}
use python_civitas.Agent.Dispatch.{
  Dispatched, propagated, out_of_fuel, after_call, route_reply, attempt, retry_or_give_up,
  apply_error_action, settle, dispatch_loop, dispatch,
}

-- The runs of a handler that a log holds.
abbrev pub calls : List Record → ℕ
calls [] = 0
calls (called_handle m ∷ log) = suc (calls log)
calls (called_correction m ∷ log) = suc (calls log)
calls (_ ∷ log) = calls log

-- What one run of a hook leaves: one more call, the same bounds.
record IsOneCall (a b : Agent) : Type 0 where
  called : calls b.log ≡ suc (calls a.log)
  same_max : b.max_retries ≡ a.max_retries

calls-after_call :
    (c : Call) (a : Agent)
    → (calls (after_call c a).log ≡ calls a.log) × ((after_call c a).max_retries ≡ a.max_retries)
unfolding after_call suspend set_status
calls-after_call c a = ground arith

attempt-IsOneCall : (hooks : Hooks) (m : Message) (a : Agent) → IsOneCall a (attempt hooks m a).1
unfolding attempt route_reply
attempt-IsOneCall hooks m a = record {
  called = ground (
    arith,
    calls-after_call (hooks.handle m a.state) (record a { log = called_handle m ∷ a.log }),
    calls-after_call (hooks.on_correction m a.state)
        (record a { log = called_correction m ∷ a.log }),
  );
  same_max = ground (
    arith,
    calls-after_call (hooks.handle m a.state) (record a { log = called_handle m ∷ a.log }),
    calls-after_call (hooks.on_correction m a.state)
        (record a { log = called_correction m ∷ a.log }),
  );
}

-- The user's code leaves the number of attempts as it is, or raises it.
abbrev pub NeverLowers : Hooks → Type 0
NeverLowers hooks = (m : Message) (state : Payload) → m.attempt ≤ hooks.attempt_left m state

-- A delivery with its bound: it ends, after so many more calls at most.
record IsBounded (calls_before more : ℕ) (r : Dispatched × Agent) : Type 0 where
  ends : r.0 ≢ out_of_fuel
  few : calls r.1.log ≤ calls_before + more

-- What follows a run either is the next round of the loop, within the retries, or ends the delivery
-- with no further call.
settle_cases :
    (hooks : Hooks) (m : Message) (result : CallResult) (a : Agent) (again : Dispatched × Agent)
    → m.attempt ≤ hooks.attempt_left m a.state
    → ((settle hooks m result a again ≡ again) × (m.attempt < a.max_retries))
      ⊎ (((settle hooks m result a again).0 ≢ out_of_fuel)
          × (calls (settle hooks m result a again).1.log ≡ calls a.log))
unfolding settle retry_or_give_up apply_error_action set_status
settle_cases hooks m (returns reply) a again counts = inr (λ e. cc, refl)
settle_cases hooks m (raises exc) a again counts = ground (arith, counts)

dispatch_loop-IsBounded :
    (hooks : Hooks) (fuel : ℕ) (m : Message) (a : Agent)
    → NeverLowers hooks
    → suc (a.max_retries - m.attempt) ≤ fuel
    → IsBounded (calls a.log) (suc (a.max_retries - m.attempt)) (dispatch_loop hooks fuel m a)
unfolding dispatch_loop
dispatch_loop-IsBounded hooks zero m a keeps enough = absurd (omega arith)
dispatch_loop-IsBounded hooks (suc fuel) m a keeps enough =
    let after = (attempt hooks m a).1 in
    let one = attempt-IsOneCall hooks m a in
    let next = record m { attempt = hooks.attempt_left m after.state + 1 } in
    elim (settle_cases hooks m (attempt hooks m a).0 after (dispatch_loop hooks fuel next after)
      (keeps m after.state)) [
        | inl (same, left) ↦
            let rest =
              dispatch_loop-IsBounded hooks fuel next after keeps
                (omega (arith, one.same_max, keeps m after.state)) in
            rw same (record {
              ends = rest.ends;
              few = omega (arith, one.called, one.same_max, rest.few, keeps m after.state);
            })
        | inr (over, count) ↦ record { ends = over; few = omega (arith, one.called, count) }
      ]

-- When neither the handler nor `on_error` lowers the number of attempts of a message, and each of
-- their calls comes to an end, a delivery ends: the fuel is enough, and the handler runs at most once
-- more than the retries that the message has left.
pub dispatch_ends :
    (hooks : Hooks) (m : Message) (a : Agent)
    → NeverLowers hooks
    → ((dispatch hooks m a).0 ≢ out_of_fuel)
      × (calls (dispatch hooks m a).1.log ≤ calls a.log + suc (a.max_retries - m.attempt))
unfolding dispatch
dispatch_ends hooks m a keeps =
    let bound =
      dispatch_loop-IsBounded hooks (suc (suc a.max_retries - m.attempt)) m a keeps (omega arith) in
    (bound.ends, bound.few)

-- A handler that always fails and is always retried.
pub record IsHopeless (hooks : Hooks) (m : Message) (exc : String) : Type 0 where
  pub handled : (m.type == "civitas.eval.correction") ≡ false
  pub fails :
      (n : ℕ) (state : Payload)
      → (hooks.handle (record m { attempt = n }) state).result ≡ raises exc
  pub undisturbed :
      (n : ℕ) (state : Payload)
      → (hooks.handle (record m { attempt = n }) state).outside_status ≡ none
  pub retried :
      (n : ℕ) (state : Payload) → hooks.on_error exc (record m { attempt = n }) state ≡ some retry
  pub counted : (n : ℕ) (state : Payload) → hooks.attempt_left (record m { attempt = n }) state ≡ n

failed_attempt :
    (hooks : Hooks) (m : Message) (exc : String) (n : ℕ) (a : Agent)
    → IsHopeless hooks m exc
    → a.status ≡ running
    → ((attempt hooks (record m { attempt = n }) a).0 ≡ raises exc)
      × ((attempt hooks (record m { attempt = n }) a).1.status ≡ running)
unfolding attempt route_reply after_call suspend
failed_attempt hooks m exc n a h alive =
    ground (arith, h.handled, h.fails n a.state, h.undisturbed n a.state)

settle_again :
    (hooks : Hooks) (m : Message) (exc : String) (a : Agent) (again : Dispatched × Agent)
    → hooks.on_error exc m a.state ≡ some retry
    → hooks.attempt_left m a.state ≡ m.attempt
    → a.status ≡ running
    → m.attempt < a.max_retries
    → settle hooks m (raises exc) a again ≡ again
unfolding settle retry_or_give_up
settle_again hooks m exc a again retried counted alive left = ground (arith, counted)

settle_last :
    (hooks : Hooks) (m : Message) (exc : String) (a : Agent) (again : Dispatched × Agent)
    → hooks.on_error exc m a.state ≡ some retry
    → hooks.attempt_left m a.state ≡ m.attempt
    → a.max_retries ≤ m.attempt
    → settle hooks m (raises exc) a again ≡ (propagated (raised_by_user exc), set_status crashed a)
unfolding settle retry_or_give_up
settle_last hooks m exc a again retried counted left = ground (arith, counted)

-- A delivery that ends in a crash after so many calls in all.
record IsExhausted (exc : String) (total : ℕ) (r : Dispatched × Agent) : Type 0 where
  out : r.0 ≡ propagated (raised_by_user exc)
  down : r.1.status ≡ crashed
  count : calls r.1.log ≡ total

dispatch_loop-IsExhausted :
    (hooks : Hooks) (m : Message) (exc : String) (fuel n : ℕ) (a : Agent)
    → IsHopeless hooks m exc
    → a.status ≡ running
    → n ≤ a.max_retries
    → suc (a.max_retries - n) ≤ fuel
    → IsExhausted exc
        (calls a.log + suc (a.max_retries - n))
        (dispatch_loop hooks fuel (record m { attempt = n }) a)
unfolding dispatch_loop
dispatch_loop-IsExhausted hooks m exc zero n a h alive left enough = absurd (omega arith)
dispatch_loop-IsExhausted hooks m exc (suc fuel) n a h alive left enough =
    let now = record m { attempt = n } in
    let after = (attempt hooks now a).1 in
    let later = hooks.attempt_left now after.state + 1 in
    let again = dispatch_loop hooks fuel (record m { attempt = later }) after in
    let one = attempt-IsOneCall hooks now a in
    let failed = failed_attempt hooks m exc n a h alive in
    rw failed.0 (elim (Bool-cases (ltb n a.max_retries)) [
      | inr last ↦
          rw
            (settle_last hooks now exc after again (h.retried n after.state)
              (h.counted n after.state) (ground (arith, one.same_max)))
            (record {
              out = refl;
              down = unfold set_status in refl;
              count = unfold set_status in ground (arith, one.called);
            })
      | inl more ↦
          let rest =
            dispatch_loop-IsExhausted hooks m exc fuel later after h failed.1
              (ground (arith, one.same_max, h.counted n after.state))
              (ground (arith, one.same_max, h.counted n after.state)) in
          rw
            (settle_again hooks now exc after again (h.retried n after.state)
              (h.counted n after.state) failed.1 (ground (arith, one.same_max)))
            (record {
              out = rest.out;
              down = rest.down;
              count = ground (arith, rest.count, one.called, one.same_max, h.counted n after.state);
            })
    ])

-- A handler that fails each time with the same error, is retried each time, and sees no other task
-- change the status meanwhile, runs exactly `max_retries` + 1 times on a new message of a running
-- agent; then the agent is CRASHED and the exception goes to the supervisor.
pub retries_exhausted :
    (hooks : Hooks) (m : Message) (exc : String) (a : Agent)
    → IsHopeless hooks m exc
    → a.status ≡ running
    → let gone = dispatch hooks (record m { attempt = 0 }) a in
      (gone.0 ≡ propagated (raised_by_user exc))
      × (gone.1.status ≡ crashed)
      × (calls gone.1.log ≡ calls a.log + suc a.max_retries)
unfolding dispatch
retries_exhausted hooks m exc a h alive =
    let gone =
      dispatch_loop-IsExhausted hooks m exc (suc (suc a.max_retries - 0)) 0 a h alive (omega arith)
        (omega arith) in
    (gone.out, gone.down, omega (arith, gone.count))
