-- ===== src/Supervisor/OneOperation.antt =====
-- At most one operation of an instance is under way that has not been told to stop.
use andler.Base.{
  ℕ, ◌≤◌, ◌≡◌, refl, sym, ◌∙◌, ◌⊎◌, inl, inr, false, Option, none, some, List, [], ◌∷◌, Text,
  if_both,
}
use andler.Config.{InstanceId, InstanceConfig}
use andler.Fsm
use andler.Fsm.{InstanceState, InstanceEvent, FsmError}
use andler.Supervisor.State.{Toml, Supervisor, World}
use andler.Supervisor.ConfigFile.{reload_if_changed}
use andler.Supervisor.Transitions.{transition_to, set_config, observe_readiness}
use andler.Supervisor.Operations.{start_operation, start_id_operation, cancel_operation, update}
use andler.Supervisor.Run.{
  System, SupervisorCommand, handle_command, Input, command, task_update, task_ends, completion,
  outside, step, run, OpUpdate, update_task, end_task, receive_done, nth_task, without_nth, launch,
  spawn_task,
}
use andler.Supervisor.Run
use andler.Supervisor.Kept.{slots, reload-Kept}
use andler.Supervisor.Tasks.{live_count, live_count-le}
use andler.Supervisor.Accounting.{
  SlotsHold, IsFree, accepted, accepted-valid, told-valid, clear-valid, drop-valid, end-valid,
}
use andler.Supervisor.Handlers.{
  Untouched, transition_to-Untouched, set_config-Untouched, observe-Untouched, start_cases,
  start_id_cases, cancel_cases, done_cases,
}

abbrev pub OpInv : System → Type 0
OpInv sys = SlotsHold (slots sys.sup) sys.world.cancels sys.tasks sys.done_queue

Untouched-OpInv :
    (sys : System) (s : Supervisor) (w : World)
    → Untouched sys.sup sys.world s w
    → OpInv sys
    → SlotsHold (slots s) w.cancels sys.tasks sys.done_queue
Untouched-OpInv sys s w (same, kept) inv = rw (same, kept) inv

-- The invariant after a start, from how the start went.
module _ (sys : System) (s : Supervisor) (w : World) (spawned : Option ℕ) (key : Option Text)
    (new_id : Option InstanceId) where
  start-OpInv :
      (Untouched sys.sup sys.world s w × (spawned ≡ none))
        ⊎ (IsFree (slots sys.sup)
            × (slots s ≡ accepted (slots sys.sup) key new_id)
            × (w.cancels ≡ update sys.world.cancels sys.sup.next_op_seq false)
            × (spawned ≡ some sys.sup.next_op_seq))
      → OpInv sys
      → SlotsHold (slots s) w.cancels (spawn_task spawned sys.tasks) sys.done_queue
  start-OpInv (inl (same, nothing)) inv = rw nothing (Untouched-OpInv sys s w same inv)
  start-OpInv (inr (is_free, slots_are, cancels_are, seq)) inv =
      rw (slots_are, cancels_are, seq)
        (accepted-valid (slots sys.sup) sys.world.cancels sys.tasks sys.done_queue key new_id
          is_free inv)

cancel-OpInv :
    (sys : System) (op_id : Text)
    → OpInv sys
    → let (s, w, sent) = cancel_operation sys.sup sys.world op_id in
      SlotsHold (slots s) w.cancels sys.tasks sys.done_queue
cancel-OpInv sys op_id inv =
    let r = cancel_operation sys.sup sys.world op_id in
    elim (cancel_cases sys.sup sys.world op_id) [
      | inl same ↦ Untouched-OpInv sys r.0 r.1 same inv
      | inr (seq, cancel, slots_are, cancels_are) ↦
          rw (slots_are, cancels_are)
            (told-valid (slots sys.sup) sys.world.cancels sys.tasks sys.done_queue seq
              (sym inv.0.same_cancel ∙ cancel) inv)
    ]

receive_done-OpInv :
    (sys : System) (dones : List ℕ)
    → SlotsHold (slots sys.sup) sys.world.cancels sys.tasks dones
    → OpInv sys
    → OpInv (receive_done sys dones)
unfolding receive_done
receive_done-OpInv sys [] h inv = inv
receive_done-OpInv sys (seq ∷ rest) h inv = elim (done_cases sys.sup seq) [
  | inl same ↦ rw same (h.0, drop-valid (slots sys.sup) sys.world.cancels sys.tasks rest seq h.1)
  | inr (active, slots_are) ↦ rw slots_are (
      clear-valid (slots sys.sup) sys.world.cancels sys.tasks rest seq (sym h.0.same_seq ∙ active)
        h)
]

command-OpInv :
    (toml : Toml) (sys : System) (c : SupervisorCommand)
    → OpInv sys
    → OpInv (handle_command toml sys c).0
unfolding handle_command
command-OpInv toml sys (Run.transition event) inv =
    let r = transition_to toml sys.sup sys.world event (Fsm.apply sys.sup.state event) in
    Untouched-OpInv sys r.0 r.1
      (transition_to-Untouched toml sys.sup sys.world event (Fsm.apply sys.sup.state event)) inv
command-OpInv toml sys (Run.swap_handle handle) inv = inv
command-OpInv toml sys (Run.swap_config cfg live) inv =
    let r = set_config toml sys.sup sys.world cfg live in
    Untouched-OpInv sys r.0 r.1 (set_config-Untouched toml sys.sup sys.world cfg live) inv
command-OpInv toml sys Run.reload inv =
    Untouched-OpInv sys (reload_if_changed toml sys.sup sys.world) sys.world
      ((reload-Kept toml sys.sup sys.world).slots_kept, refl) inv
command-OpInv toml sys (Run.run_operation op key) inv =
    let r = start_operation sys.sup sys.world op key in
    start-OpInv sys r.0 r.1 r.2.spawned key none (start_cases sys.sup sys.world op key) inv
command-OpInv toml sys (Run.run_id_operation op key new_id) inv =
    let r = start_id_operation sys.sup sys.world op key new_id in
    start-OpInv sys r.0 r.1 r.2.spawned key (some new_id)
      (start_id_cases sys.sup sys.world op key new_id) inv
command-OpInv toml sys (Run.cancel op_id) inv = cancel-OpInv sys op_id inv
command-OpInv toml sys (Run.observe_level level outcome) inv =
    let r = observe_readiness sys.sup sys.world level outcome in
    Untouched-OpInv sys r.0 r.1 (observe-Untouched sys.sup sys.world level outcome) inv
command-OpInv toml sys Run.active inv = inv
command-OpInv toml sys (Run.join key) inv = inv
command-OpInv toml sys Run.shutdown inv = inv

update_task-OpInv :
    (sys : System) (seq : Option ℕ) (change : OpUpdate)
    → OpInv sys
    → OpInv (update_task sys seq change)
unfolding update_task
update_task-OpInv sys none change inv = inv
update_task-OpInv sys (some seq) change inv = inv

end_task-OpInv :
    (sys : System) (n : ℕ) (seq : Option ℕ)
    → nth_task n sys.tasks ≡ seq
    → OpInv sys
    → OpInv (end_task sys n seq)
end_task-OpInv sys n none there inv = inv
end_task-OpInv sys n (some seq) there inv =
    (inv.0, end-valid (slots sys.sup) sys.world.cancels sys.tasks sys.done_queue n seq there inv.1)

pub step-OpInv :
    (toml : Toml) (sys : System) (input : Input) → OpInv sys → OpInv (step toml sys input)
unfolding step
step-OpInv toml sys (command c) inv = if_both OpInv sys.alive (command-OpInv toml sys c inv) inv
step-OpInv toml sys (task_update n change) inv =
    update_task-OpInv sys (nth_task n sys.tasks) change inv
step-OpInv toml sys (task_ends n) inv = end_task-OpInv sys n (nth_task n sys.tasks) refl inv
step-OpInv toml sys completion inv =
    if_both OpInv sys.alive (receive_done-OpInv sys sys.done_queue inv inv) inv
step-OpInv toml sys (outside file now writable) inv = inv

pub run-OpInv :
    (toml : Toml) (sys : System) (inputs : List Input) → OpInv sys → OpInv (run toml sys inputs)
unfolding run
run-OpInv toml sys [] inv = inv
run-OpInv toml sys (input ∷ inputs) inv =
    run-OpInv toml (step toml sys input) inputs (step-OpInv toml sys input inv)

pub launch-OpInv :
    (id : InstanceId) (cfg : InstanceConfig) (state : InstanceState) (handle : Option Text)
    (world : World)
    → OpInv (launch id cfg state handle world)
unfolding launch
launch-OpInv id cfg state handle world = (
  record {
    same_seq = refl;
    same_cancel = refl;
    older = tt;
    flag = tt;
    cleared = λ h. (refl, refl, refl);
  },
  record { descending = tt; tasks_older = tt; dones_older = tt; gone = tt; superseded = tt },
)

-- Whatever commands, completions and outside changes come in whatever order, at most one task of
-- the instance is running that has not been told to stop.
pub one_operation :
    (toml : Toml) (id : InstanceId) (cfg : InstanceConfig) (state : InstanceState)
    (handle : Option Text) (world : World) (inputs : List Input)
    → let sys = run toml (launch id cfg state handle world) inputs in
      live_count sys.world.cancels sys.tasks ≤ 1
one_operation toml id cfg state handle world inputs =
    let sys = run toml (launch id cfg state handle world) inputs in
    let inv = run-OpInv toml _ inputs (launch-OpInv id cfg state handle world) in
    live_count-le sys.world.cancels sys.sup.active_op sys.tasks inv.1.descending inv.1.superseded
