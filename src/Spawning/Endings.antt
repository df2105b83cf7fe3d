-- ===== src/Spawning/Endings.antt =====
-- The ends and restarts of children in civitas/supervisor.py DynamicSupervisor, whole and cut at their
-- awaits, as moves of its table.
use python_civitas.Base.{
  ℕ, suc, ◌≡◌, refl, ap, subst, ◌∙◌, Bool, true, false, not, ◌&&◌, Option, none, some, ◌∷◌, String,
  arith, ◌==◌, nat_eq, string_eq, inl, inr, nat_beq_iff, Bool-cases, if◌then◌else◌,
}
use python_civitas.Base.Dict.{lookup, insert, insert-insert, lookup-insert_self}
use python_civitas.Agent.{ProcessStatus}
use python_civitas.Engine.{Action, restart, exhausted, RestartVerdict}
use python_civitas.Mailbox.{Mailbox}
use python_civitas.Spawning.{
  RestartMode, permanent, transient, never, ChildAgent, ChildRec, Env, set_up, DynamicSupervisor,
  emit, refusal, admit, is_ready, Reply, spawned, error, start_failed, is_distributed,
  restarts_exhausted, Outcome,
}
use python_civitas.Spawning.Exits.{
  update_rec, remove_child, announce_child, announce_deregister, maybe_announce_deregister,
  clear_child_marker, notify_spawner, terminal_cleanup, mark_announced, rule_on_exit, restart_with,
  act_on_verdict, exit_found, restart_child, put_fresh, transferred, act_on, exit_by_mode,
  exit_before_loop, begin_found, begin_by_mode, begin_restart, begin_verdict, cleanup_after,
  let_go_after, take_out, await_spawn_readiness_and_reply, acknowledge, route_reply,
}
use python_civitas.Spawning.Moves.{
  Move, keeps, changes, drops, admits, unchanged, if-Move, terminal_cleanup-Move, update_rec-Move,
  let_go-Move,
}

cleanup_after_marker :
    (name : String) (s : DynamicSupervisor)
    → Move none s
        (notify_spawner name restarts_exhausted (terminal_cleanup name (clear_child_marker name s)))
unfolding lookup terminal_cleanup remove_child clear_child_marker maybe_announce_deregister
    announce_deregister notify_spawner
cleanup_after_marker name s = drops name (ground arith) (ground arith)

pub put_fresh-Move :
    (name : String) (epoch : ℕ) (answer : Bool × ChildAgent) (s : DynamicSupervisor)
    → Move none s (put_fresh name epoch answer s)
unfolding put_fresh
put_fresh-Move name epoch (true, fresh) s =
    update_rec-Move name epoch (λ rec. record rec { agent = fresh; task = s.tasks_made })
      (record s {
        tasks_made = suc s.tasks_made;
        child_tasks = insert name s.tasks_made s.child_tasks;
        watched = s.tasks_made ∷ s.watched;
      })
      s (λ rec. refl) refl refl
put_fresh-Move name epoch (false, fresh) s =
    update_rec-Move name epoch (λ rec. record rec { agent = fresh })
      (record s { tasks_made = suc s.tasks_made }) s (λ rec. refl) refl refl

set_up-seen :
    (name : String) (s t : DynamicSupervisor)
    → Move none (if s.has_bus then emit (set_up name) s else s) t
    → Move none s t
unfolding refusal
set_up-seen name s t m = by_bus s.has_bus m
  where
    by_bus : (b : Bool) → Move none (if b then emit (set_up name) s else s) t → Move none s t
    by_bus true (keeps c d) = keeps c d
    by_bus true (changes n r new f g c d) = changes n r new f g c d
    by_bus true (drops n c d) = drops n c d
    by_bus true (admits q a u o f r c d e) = admits q a u o f r c d e
    by_bus false k = k

transferred-Move :
    (env : Env) (name : String) (rec : ChildRec) (fresh : ChildAgent) (box : Option Mailbox)
    (s : DynamicSupervisor)
    → lookup name s.dynamic_children ≡ some rec
    → Move none s
        (transferred env name rec fresh box (if s.has_bus then emit (set_up name) s else s))
transferred-Move env name rec fresh none s found = keeps (ground arith) (ground arith)
transferred-Move env name rec fresh (some box) s found =
    set_up-seen name s _ (put_fresh-Move name rec.epoch _ _)

restart_with-Move :
    (env : Env) (name : String) (rec : ChildRec) (renewed : Option ChildAgent)
    (s : DynamicSupervisor)
    → lookup name s.dynamic_children ≡ some rec
    → Move none s (restart_with env name rec renewed s)
restart_with-Move env name rec none s found = cleanup_after_marker name s
restart_with-Move env name rec (some fresh) s found = transferred-Move env name rec fresh _ s found

-- A step on a state that differs from `s` in what a move does not see is a step on `s`.
from_ruled :
    (name : String) (rec : ChildRec) (now : ℕ) (s t : DynamicSupervisor)
    → Move none (rule_on_exit name rec now s).1 t
    → Move none s t
unfolding rule_on_exit refusal
from_ruled name rec now s t (keeps c d) = keeps c d
from_ruled name rec now s t (changes n r new f e c d) = changes n r new f e c d
from_ruled name rec now s t (drops n c d) = drops n c d
from_ruled name rec now s t (admits q a u o f g c d e) = admits q a u o f g c d e

act_on_verdict-Move :
    (env : Env) (name : String) (rec : ChildRec) (action : Action) (s : DynamicSupervisor)
    → lookup name s.dynamic_children ≡ some rec
    → Move none s (act_on_verdict env name rec action s)
unfolding restart_child
act_on_verdict-Move env name rec exhausted s found = let_go-Move name rec restarts_exhausted s found
act_on_verdict-Move env name rec restart s found =
    restart_with-Move env name rec (env.renew rec.agent) s found

act_on-Move :
    (env : Env) (name : String) (rec : ChildRec) (now : ℕ) (s : DynamicSupervisor)
    → lookup name s.dynamic_children ≡ some rec
    → Move none s (act_on env name rec (rule_on_exit name rec now s))
unfolding rule_on_exit
act_on-Move env name rec now s found =
    from_ruled name rec now s _
      (act_on_verdict-Move env name rec _ (rule_on_exit name rec now s).1 found)

exit_by_mode-Move :
    (env : Env) (mode : RestartMode) (name : String) (rec : ChildRec) (is_crash : Bool) (now : ℕ)
    (s : DynamicSupervisor)
    → lookup name s.dynamic_children ≡ some rec
    → Move none s (exit_by_mode env mode name rec is_crash now s)
exit_by_mode-Move env never name rec is_crash now s h = let_go-Move name rec _ s h
exit_by_mode-Move env transient name rec false now s h = let_go-Move name rec _ s h
exit_by_mode-Move env transient name rec true now s h = act_on-Move env name rec now s h
exit_by_mode-Move env permanent name rec is_crash now s h = act_on-Move env name rec now s h

exit_before_loop-Move :
    (name : String) (rec : ChildRec) (s : DynamicSupervisor)
    → Move none s (exit_before_loop name rec s)
unfolding lookup terminal_cleanup remove_child maybe_announce_deregister announce_deregister
    notify_spawner
exit_before_loop-Move name rec s = drops name (ground arith) (ground arith)

pub exit_found-Move :
    (env : Env) (now : ℕ) (name : String) (is_crash : Bool) (found : Option ChildRec)
    (s : DynamicSupervisor)
    → lookup name s.dynamic_children ≡ found
    → Move none s (exit_found env now name is_crash found s)
exit_found-Move env now name is_crash none s h = unchanged none s
exit_found-Move env now name is_crash (some rec) s h =
    if-Move (is_crash && not rec.agent.reached_loop) (exit_before_loop-Move name rec s)
      (exit_by_mode-Move env s.restart_mode name rec is_crash now s h)

acknowledge_held :
    (name : String) (rec : ChildRec) (s : DynamicSupervisor)
    → lookup name s.dynamic_children ≡ some rec
    → Move none s (acknowledge name rec.epoch s)
unfolding is_distributed update_rec announce_child mark_announced
acknowledge_held name rec s found = elim (Bool-cases (s.has_bus && not s.in_process)) [
  | inl far ↦
      changes name rec (record rec { acknowledged = true; announced = true }) found refl
        (ground arith)
        (ground (
          arith,
          nat_beq_iff rec.epoch rec.epoch,
          lookup-insert_self name (record rec { acknowledged = true }) s.dynamic_children,
          insert-insert name (record rec { acknowledged = true })
              (record rec { acknowledged = true; announced = true }) s.dynamic_children,
        ))
  | inr near ↦
      changes name rec (record rec { acknowledged = true }) found refl (ground arith)
        (ground (arith, nat_beq_iff rec.epoch rec.epoch))
]

acknowledge_found :
    (name : String) (epoch : ℕ) (found : Option ChildRec) (s : DynamicSupervisor)
    → lookup name s.dynamic_children ≡ found
    → Move none s (acknowledge name epoch s)
unfolding is_distributed update_rec announce_child mark_announced
acknowledge_found name epoch none s h = keeps (ground arith) (ground arith)
acknowledge_found name epoch (some rec) s h = elim (Bool-cases (rec.epoch == epoch)) [
  | inl held ↦
      subst (λ n. Move none s (acknowledge name n s)) ((nat_beq_iff rec.epoch epoch).0 held)
        (acknowledge_held name rec s h)
  | inr other ↦ keeps (ground arith) (ground arith)
]

replied-Move :
    {s t : DynamicSupervisor} (reply : Reply) → Move none s t → Move none s (route_reply reply t)
unfolding admit
replied-Move reply (keeps c d) = keeps (ground (arith, c)) (ground (arith, d))
replied-Move reply (changes n r new f g c d) =
    changes n r new f g (ground (arith, c)) (ground (arith, d))
replied-Move reply (drops n c d) = drops n (ground (arith, c)) (ground (arith, d))
replied-Move reply (admits q a u o f g c d h) =
    admits q a (route_reply reply u) o f g (ground (arith, c)) (ground (arith, d))
      (ap (route_reply reply) h ∙ ground arith)

pub become_ready-Move :
    (seen : ProcessStatus) (phase name : String) (epoch : ℕ) (s : DynamicSupervisor)
    → Move none s (await_spawn_readiness_and_reply seen phase name epoch s)
unfolding await_spawn_readiness_and_reply
become_ready-Move seen phase name epoch s =
    if-Move (is_ready seen)
      (replied-Move (spawned true seen) (acknowledge_found name epoch _ s refl))
      (replied-Move (error (start_failed phase)) (terminal_cleanup-Move name s))

-- The parts of the handlers.
begin_restart-Move :
    (env : Env) (name : String) (rec : ChildRec) (ruled : RestartVerdict × DynamicSupervisor)
    → Move none ruled.1 (begin_restart env name rec ruled)
unfolding clear_child_marker
begin_restart-Move env name rec ruled = by_action ruled.0.action (env.renew rec.agent)
  where
    by_action :
        (action : Action) (renewed : Option ChildAgent)
        → Move none ruled.1 (begin_verdict action name renewed ruled.1)
    by_action exhausted renewed = keeps (ground arith) (ground arith)
    by_action restart none = keeps (ground arith) (ground arith)
    by_action restart (some fresh) = keeps (ground arith) (ground arith)

pub marker-Move : (name : String) (s : DynamicSupervisor) → Move none s (clear_child_marker name s)
unfolding clear_child_marker
marker-Move name s = keeps (ground arith) (ground arith)

begin_by_mode-Move :
    (env : Env) (mode : RestartMode) (name : String) (rec : ChildRec) (is_crash : Bool) (now : ℕ)
    (s : DynamicSupervisor)
    → Move none s (begin_by_mode env mode name rec is_crash now s)
begin_by_mode-Move env never name rec is_crash now s = marker-Move name s
begin_by_mode-Move env transient name rec false now s = marker-Move name s
begin_by_mode-Move env transient name rec true now s =
    from_ruled name rec now s _ (begin_restart-Move env name rec (rule_on_exit name rec now s))
begin_by_mode-Move env permanent name rec is_crash now s =
    from_ruled name rec now s _ (begin_restart-Move env name rec (rule_on_exit name rec now s))

pub begin_found-Move :
    (env : Env) (now : ℕ) (name : String) (is_crash : Bool) (found : Option ChildRec)
    (s : DynamicSupervisor)
    → Move none s (begin_found env now name is_crash found s)
begin_found-Move env now name is_crash none s = unchanged none s
begin_found-Move env now name is_crash (some rec) s =
    if-Move (is_crash && not rec.agent.reached_loop) (keeps (ground arith) (ground arith))
      (begin_by_mode-Move env s.restart_mode name rec is_crash now s)

pub after_await-Move :
    (name : String) (rec : ChildRec) (reason : Outcome) (s : DynamicSupervisor)
    → Move none s (let_go_after name rec reason s) × Move none s (take_out name rec s)
unfolding lookup remove_child maybe_announce_deregister announce_deregister notify_spawner
after_await-Move name rec reason s =
    (drops name (ground arith) (ground arith), drops name (ground arith) (ground arith))

pub cleanup_after-Move :
    (name : String) (held : Option ChildRec) (s : DynamicSupervisor)
    → Move none s (cleanup_after name held s)
unfolding remove_child maybe_announce_deregister announce_deregister
cleanup_after-Move name none s = drops name (ground arith) (ground arith)
cleanup_after-Move name (some rec) s = drops name (ground arith) (ground arith)

pub told-Move :
    (name : String) (reason : Outcome) (s : DynamicSupervisor)
    → Move none s (notify_spawner name reason s)
unfolding lookup notify_spawner
told-Move name reason s = keeps (ground arith) (ground arith)
