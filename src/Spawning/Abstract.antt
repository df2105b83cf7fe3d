-- ===== src/Spawning/Abstract.antt =====
-- DynamicSupervisor of civitas/supervisor.py as its clients see it: which names live, each in which
-- incarnation.
use python_civitas.Base.{
  ℕ, suc, ◌≤◌, ◌≡◌, refl, sym, ap, subst, ◌∙◌, Bool, true, false, Option, none, some, List, [], ◌∷◌,
  String, arith, ◌==◌, string_eq, if◌then◌else◌,
}
use python_civitas.Base.Dict.{Dict, lookup, lookup-insert, lookup-erase}
use python_civitas.Spawning.{ChildRec, ChildAgent, SpawnRequest, DynamicSupervisor, admit, new_rec}
use python_civitas.Spawning.Moves.{counts, Move, keeps, changes, drops, admits}
use python_civitas.Spawning.Handlers.{request_of, step-Move}
use python_civitas.Spawning.Steps.{Op, step, after_steps, IsNew}

-- The live children, each with the epoch of its admission, and the last epoch given out.
pub record Roster : Type 0 where
  pub clock : ℕ
  pub live : String → Option ℕ

-- What a client may see happen: nothing, the admission of a name that is free under the next epoch,
-- and the end of a child.
pub data RosterStep (before after : Roster) : Type 0 where
  stutter :
      after.clock ≡ before.clock
      → ((n : String) → after.live n ≡ before.live n)
      → RosterStep before after
  admission :
      (name : String)
      → before.live name ≡ none
      → after.clock ≡ suc before.clock
      → ((n : String)
          → after.live n ≡ (if name == n then some (suc before.clock) else before.live n))
      → RosterStep before after
  removal :
      (name : String)
      → after.clock ≡ before.clock
      → ((n : String) → after.live n ≡ (if name == n then none else before.live n))
      → RosterStep before after

abbrev pub epoch_of : Option ChildRec → Option ℕ
epoch_of none = none
epoch_of (some rec) = some rec.epoch

unfoldable pub roster : DynamicSupervisor → Roster
unfolding lookup
roster s = record { clock = s.spawn_epoch; live = λ n. epoch_of (lookup n s.dynamic_children) }

epoch_of-if :
    (b : Bool) (new : Option ChildRec) (old : Option ChildRec)
    → epoch_of (if b then new else old) ≡ (if b then epoch_of new else epoch_of old)
epoch_of-if true new old = refl
epoch_of-if false new old = refl

looked_up :
    (n : String) (s t : DynamicSupervisor) (children : Dict String ChildRec)
    → t.dynamic_children ≡ children
    → (roster t).live n ≡ epoch_of (lookup n children)
unfolding roster
looked_up n s t children d = ap (λ table. epoch_of (lookup n table)) d

admit-RosterStep :
    (q : SpawnRequest) (agent : ChildAgent) (s : DynamicSupervisor)
    → lookup q.name s.dynamic_children ≡ none
    → RosterStep (roster s) (roster (admit q agent s))
unfolding roster admit
admit-RosterStep q agent s fresh = admission q.name (ap epoch_of fresh) refl λ n.
    ap epoch_of (lookup-insert q.name n (new_rec q agent s) s.dynamic_children)
    ∙ epoch_of-if (q.name == n) (some (new_rec q agent s)) (lookup n s.dynamic_children)

-- States with the same counters and the same table have the same roster.
same_roster :
    (s t : DynamicSupervisor)
    → counts t ≡ counts s
    → t.dynamic_children ≡ s.dynamic_children
    → roster t ≡ roster s
unfolding roster
same_roster s t c d =
    ap (λ k. record { clock = k.spawn_epoch; live = (roster t).live }) c
    ∙ ap (λ table. record { clock = s.spawn_epoch; live = λ n. epoch_of (lookup n table) }) d

move-RosterStep :
    (asked : Option SpawnRequest) (s t : DynamicSupervisor)
    → Move asked s t
    → RosterStep (roster s) (roster t)
unfolding roster
move-RosterStep asked s t (keeps c d) = stutter (ap (λ k. k.spawn_epoch) c) λ n. looked_up n s t _ d
move-RosterStep asked s t (changes name r new f g c d) = stutter (ap (λ k. k.spawn_epoch) c) λ n.
    looked_up n s t _ d
    ∙ ground (arith, lookup-insert name n new s.dynamic_children, string_eq.same_iff name n)
move-RosterStep asked s t (drops name c d) =
    removal name (ap (λ k. k.spawn_epoch) c)
      λ n. looked_up n s t _ d ∙ ground (arith, lookup-erase name n s.dynamic_children)
move-RosterStep asked s t (admits q agent u o f r c d e) =
    subst (λ r. RosterStep r (roster t)) (same_roster s u c d)
      (subst (λ v. RosterStep (roster u) (roster v)) (sym e) (admit-RosterStep q agent u (rw d f)))

-- Each step of the supervisor, of whichever kind and on whatever state, is a step that its clients
-- may see: nothing, the admission of a free name under the next epoch, or the removal of a child.
pub step-RosterStep : (op : Op) (s : DynamicSupervisor) → RosterStep (roster s) (roster (step op s))
step-RosterStep op s = move-RosterStep (request_of op) s (step op s) (step-Move op s)

-- No name lives in this incarnation.
abbrev pub IsGone : ℕ → Roster → Type 0
IsGone e r = (n : String) → ¬ (r.live n ≡ some e)

left_after : (a b : Roster) (e : ℕ) → RosterStep a b → e ≤ a.clock → IsGone e a → IsGone e b
left_after a b e (stutter c f) h gone n k = gone n (sym (f n) ∙ k)
left_after a b e (admission name fresh c f) h gone n k = ground (arith, f n, gone n, k)
left_after a b e (removal name c f) h gone n k = ground (arith, f n, gone n, k)

clock_after : (a b : Roster) → RosterStep a b → a.clock ≤ b.clock
clock_after a b (stutter c f) = omega (arith, c)
clock_after a b (admission name fresh c f) = omega (arith, c)
clock_after a b (removal name c f) = omega (arith, c)

left_over_run :
    (ops : List Op) (s : DynamicSupervisor) (e : ℕ)
    → e ≤ (roster s).clock
    → IsGone e (roster s)
    → (e ≤ (roster (after_steps ops s)).clock) × IsGone e (roster (after_steps ops s))
unfolding after_steps
left_over_run [] s e h gone = (h, gone)
left_over_run (op ∷ ops) s e h gone =
    let before = after_steps ops s in
    let rest = left_over_run ops s e h gone in
    let moved = step-RosterStep op before in
    (
      omega (arith, rest.0, clock_after (roster before) (roster (step op before)) moved),
      left_after (roster before) (roster (step op before)) e moved rest.0 rest.1,
    )

-- An incarnation that has been given out and is no longer in the table is not in it after any steps.
pub epoch_never_returns :
    (ops : List Op) (s : DynamicSupervisor) (e : ℕ)
    → e ≤ s.spawn_epoch
    → IsGone e (roster s)
    → IsGone e (roster (after_steps ops s))
unfolding roster
epoch_never_returns ops s e h gone = (left_over_run ops s e h gone).1

-- The names of the roster hold distinct incarnations, none later than the clock.
pub record IsFresh (r : Roster) : Type 0 where
  pub past : (n : String) (e : ℕ) → r.live n ≡ some e → e ≤ r.clock
  pub distinct : (n m : String) (e : ℕ) → r.live n ≡ some e → r.live m ≡ some e → n ≡ m

ordered_after : (a b : Roster) → RosterStep a b → IsFresh a → IsFresh b
ordered_after a b (stutter c f) h = record {
  past = λ n e k. ground (arith, c, h.past n e (sym (f n) ∙ k));
  distinct = λ n m e k l. h.distinct n m e (sym (f n) ∙ k) (sym (f m) ∙ l);
}
ordered_after a b (admission name free c f) h = record {
  past = λ n e k. ground (arith, c, f n, k, h.past n e);
  distinct = λ n m e k l. ground (
    arith,
    f n,
    f m,
    k,
    l,
    h.past n e,
    h.past m e,
    h.distinct n m e,
    string_eq.same_iff name n,
    string_eq.same_iff name m,
  );
}
ordered_after a b (removal name c f) h = record {
  past = λ n e k. ground (arith, c, f n, k, h.past n e);
  distinct = λ n m e k l. ground (arith, f n, f m, k, l, h.distinct n m e);
}

pub new-IsFresh : (s : DynamicSupervisor) → IsNew s → IsFresh (roster s)
unfolding roster lookup
new-IsFresh s new = record {
  past = λ n e k. ground (arith, looked_up n s s [] (new.0), k);
  distinct = λ n m e k l. ground (arith, looked_up n s s [] (new.0), k);
}

pub run-IsFresh :
    (ops : List Op) (s : DynamicSupervisor)
    → IsFresh (roster s)
    → IsFresh (roster (after_steps ops s))
unfolding after_steps
run-IsFresh [] s h = h
run-IsFresh (op ∷ ops) s h =
    ordered_after (roster (after_steps ops s)) _ (step-RosterStep op (after_steps ops s))
      (run-IsFresh ops s h)
