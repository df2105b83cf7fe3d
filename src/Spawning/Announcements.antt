-- ===== src/Spawning/Announcements.antt =====
-- The cluster-wide announcements of DynamicSupervisor of civitas/supervisor.py.
use python_civitas.Base.{
  ℕ, suc, ◌+◌, ◌≡◌, refl, ap, ◌∙◌, true, false, none, some, List, [], ◌∷◌, String, arith, ◌==◌,
  nat_eq, string_eq, nat_beq_iff, if◌then◌else◌,
}
use python_civitas.Base.Dict.{lookup, lookup-erase_self}
use python_civitas.Agent.{ProcessStatus}
use python_civitas.Spawning.{
  ChildRec, Effect, announced_child, withdrawn, DynamicSupervisor, Env, Outcome, never, clean_exit,
  is_distributed, is_ready,
}
use python_civitas.Spawning.Exits.{
  begin_announce, mark_announced, handle_despawn, update_rec, announce_child, remove_child,
  clear_child_marker, maybe_announce_deregister, announce_deregister, begin_child_exit,
  let_go_after, take_out, begin_found, begin_by_mode, notify_spawner,
}

-- How often the removal of the child with this epoch was announced.
unfoldable pub withdrawals : ℕ → List Effect → ℕ
withdrawals e [] = 0
withdrawals e (withdrawn name epoch ∷ log) =
    let rest = withdrawals e log in if epoch == e then suc rest else rest
withdrawals e (_ ∷ log) = withdrawals e log

unfoldable pub announcements : ℕ → List Effect → ℕ
announcements e [] = 0
announcements e (announced_child name epoch ∷ log) =
    let rest = announcements e log in if epoch == e then suc rest else rest
announcements e (_ ∷ log) = announcements e log

-- A child is up and not yet announced, and there is a bus. If it is despawned after the announcement
-- has been published and before the record notes it, the child has left the table and has been
-- announced once more than before, and no removal has been announced.
pub despawn_during_announcement :
    (s : DynamicSupervisor) (seen : ProcessStatus) (name : String) (rec : ChildRec)
    → lookup name s.dynamic_children ≡ some rec
    → rec.announced ≡ false
    → is_ready seen ≡ true
    → s.has_bus ≡ true
    → let begun = begin_announce seen name rec.epoch s in
      let end = mark_announced name begun.0 (handle_despawn name begun.1).1 in
      (lookup name end.dynamic_children ≡ none)
      × (announcements rec.epoch end.log ≡ suc (announcements rec.epoch s.log))
      × (withdrawals rec.epoch end.log ≡ withdrawals rec.epoch s.log)
unfolding withdrawals announcements begin_announce mark_announced handle_despawn update_rec
    announce_child remove_child clear_child_marker maybe_announce_deregister announce_deregister
despawn_during_announcement s seen name rec found unannounced up bus = (
  ground (arith, lookup-erase_self name s.dynamic_children, nat_beq_iff rec.epoch rec.epoch),
  ground (arith, lookup-erase_self name s.dynamic_children, nat_beq_iff rec.epoch rec.epoch),
  ground (arith, lookup-erase_self name s.dynamic_children, nat_beq_iff rec.epoch rec.epoch),
)

-- What a removal by a handler that holds the record of an announced child does.
abbrev Withdraws : String → ChildRec → DynamicSupervisor → DynamicSupervisor → Type 0
Withdraws name rec s t =
    (lookup name t.dynamic_children ≡ none)
    × (withdrawals rec.epoch t.log ≡ suc (withdrawals rec.epoch s.log))
    × (is_distributed t ≡ is_distributed s)

take_out-Withdraws :
    (name : String) (rec : ChildRec) (s : DynamicSupervisor)
    → rec.announced ≡ true
    → is_distributed s ≡ true
    → Withdraws name rec s (take_out name rec s)
unfolding withdrawals is_distributed remove_child maybe_announce_deregister announce_deregister
take_out-Withdraws name rec s announced far = (
  ground (arith, lookup-erase_self name s.dynamic_children),
  ground (arith, announced, far, nat_beq_iff rec.epoch rec.epoch),
  ground arith,
)

let_go_after-Withdraws :
    (name : String) (rec : ChildRec) (reason : Outcome) (s : DynamicSupervisor)
    → rec.announced ≡ true
    → is_distributed s ≡ true
    → Withdraws name rec s (let_go_after name rec reason s)
unfolding withdrawals is_distributed remove_child maybe_announce_deregister announce_deregister
    notify_spawner
let_go_after-Withdraws name rec reason s announced far = (
  ground (arith, lookup-erase_self name s.dynamic_children),
  ground (arith, announced, far, nat_beq_iff rec.epoch rec.epoch),
  ground arith,
)

marker_seen :
    (name : String) (s : DynamicSupervisor)
    → ((clear_child_marker name s).dynamic_children ≡ s.dynamic_children)
      × ((e : ℕ) → withdrawals e (clear_child_marker name s).log ≡ withdrawals e s.log)
      × (is_distributed (clear_child_marker name s) ≡ is_distributed s)
unfolding withdrawals clear_child_marker is_distributed
marker_seen name s = (ground arith, (λ e. ground arith), ground arith)

begins_with_marker :
    (env : Env) (now : ℕ) (s : DynamicSupervisor) (name : String) (rec : ChildRec)
    → lookup name s.dynamic_children ≡ some rec
    → s.restart_mode ≡ never
    → begin_child_exit env now name false s ≡ clear_child_marker name s
unfolding begin_child_exit
begins_with_marker env now s name rec found mode =
    ap (λ o. begin_found env now name false o s) found
    ∙ ap (λ m. begin_by_mode env m name rec false now s) mode

despawn_found :
    (name : String) (rec : ChildRec) (s : DynamicSupervisor)
    → lookup name s.dynamic_children ≡ some rec
    → (handle_despawn name s).1 ≡ take_out name rec (clear_child_marker name s)
unfolding handle_despawn
despawn_found name rec s found = rw (handle_despawn, found) refl

-- A child that was announced ends cleanly and is not restarted (the mode is never). If it is despawned
-- while the handler of the exit clears its marker, then at the end it has left the table, and its
-- removal has been announced twice more than before.
pub despawn_during_exit :
    (env : Env) (now : ℕ) (s : DynamicSupervisor) (name : String) (rec : ChildRec)
    → lookup name s.dynamic_children ≡ some rec
    → rec.announced ≡ true
    → is_distributed s ≡ true
    → s.restart_mode ≡ never
    → let begun = begin_child_exit env now name false s in
      let end = let_go_after name rec clean_exit (handle_despawn name begun).1 in
      (lookup name end.dynamic_children ≡ none)
      × (withdrawals rec.epoch end.log ≡ withdrawals rec.epoch s.log + 2)
despawn_during_exit env now s name rec found announced far mode =
    let begun = begin_child_exit env now name false s in
    let left = take_out name rec (clear_child_marker name begun) in
    let cleared = marker_seen name s in
    let again = marker_seen name begun in
    let same = begins_with_marker env now s name rec found mode in
    let held = ap (λ t. lookup name t.dynamic_children) same ∙ ap (lookup name) cleared.0 ∙ found in
    let near = ap is_distributed same ∙ cleared.2 ∙ far in
    let out =
      take_out-Withdraws name rec (clear_child_marker name begun) announced (again.2 ∙ near) in
    let last = let_go_after-Withdraws name rec clean_exit left announced (out.2 ∙ again.2 ∙ near) in
    rw (despawn_found name rec begun held) (
      last.0,
      omega (
        arith,
        last.1,
        out.1,
        again.1 rec.epoch,
        ap (λ t. withdrawals rec.epoch t.log) same,
        cleared.1 rec.epoch,
      ),
    )
