-- ===== src/Supervisor/Retention.antt =====
-- An operation stays the active one until its own task has completed.
use andler.Base.{
  ℕ, ◌≡◌, refl, ap, ◌∙◌, ◌⊎◌, inl, inr, false, Option, none, some, List, [], ◌∷◌, arith, Text, ◌==◌,
  Bool-cases, if_both,
}
use andler.Config.{InstanceId}
use andler.Fsm
use andler.Supervisor.State.{Toml, Supervisor, World}
use andler.Supervisor.Operations.{
  start_operation, start_id_operation, cancel_operation, operation_done,
}
use andler.Supervisor.Run.{
  System, SupervisorCommand, handle_command, Input, command, task_update, task_ends, completion,
  outside, step, OpUpdate, update_task, end_task, receive_done, nth_task,
}
use andler.Supervisor.Run
use andler.Supervisor.Kept.{Slots, slots, reload-Kept}
use andler.Supervisor.Accounting.{accepted, IsFree}
use andler.Supervisor.Handlers.{
  start_cases, start_id_cases, transition_to-Untouched, set_config-Untouched,
}
use andler.Supervisor.OneOperation.{OpInv}

-- The slots of a supervisor whose operation is active and has not been told to stop.
abbrev pub IsRunning : Slots → ℕ → Type 0
IsRunning s seq = (s.active_op ≡ some seq) × (s.cancelled ≡ false)

start_keeps :
    (s t : Slots) (seq : ℕ) (key : Option Text) (new_id : Option InstanceId)
    → IsRunning s seq
    → (t ≡ s) ⊎ (IsFree s × (t ≡ accepted s key new_id))
    → t.active_op ≡ some seq
start_keeps s t seq key new_id r (inl same) = rw same (r.0)
start_keeps s t seq key new_id r (inr (free, next)) = absurd (ground arith)

cancel_keeps :
    (s : Supervisor) (w : World) (op_id : Text) (seq : ℕ)
    → s.active_op ≡ some seq
    → (cancel_operation s w op_id).0.active_op ≡ some seq
unfolding cancel_operation
cancel_keeps s w op_id seq active = ground arith

update_task_keeps :
    (sys : System) (n : Option ℕ) (change : OpUpdate) (seq : ℕ)
    → sys.sup.active_op ≡ some seq
    → (update_task sys n change).sup.active_op ≡ some seq
unfolding update_task
update_task_keeps sys none change seq active = active
update_task_keeps sys (some task) change seq active = active

end_task_keeps :
    (sys : System) (n : ℕ) (task : Option ℕ) (seq : ℕ)
    → sys.sup.active_op ≡ some seq
    → (end_task sys n task).sup.active_op ≡ some seq
end_task_keeps sys n none seq active = active
end_task_keeps sys n (some task) seq active = active

command_keeps :
    (toml : Toml) (sys : System) (c : SupervisorCommand) (seq : ℕ)
    → IsRunning (slots sys.sup) seq
    → (handle_command toml sys c).0.sup.active_op ≡ some seq
unfolding handle_command
command_keeps toml sys (Run.transition event) seq r =
    ap (λ (t : Slots). t.active_op)
      (transition_to-Untouched toml sys.sup sys.world event (Fsm.apply sys.sup.state event)).0
    ∙ r.0
command_keeps toml sys (Run.swap_handle handle) seq r = r.0
command_keeps toml sys (Run.swap_config cfg live) seq r =
    ap (λ (t : Slots). t.active_op) (set_config-Untouched toml sys.sup sys.world cfg live).0 ∙ r.0
command_keeps toml sys Run.reload seq r =
    ap (λ (t : Slots). t.active_op) (reload-Kept toml sys.sup sys.world).slots_kept ∙ r.0
command_keeps toml sys (Run.run_operation op key) seq r =
    start_keeps (slots sys.sup) (slots (start_operation sys.sup sys.world op key).0) seq key none r
      (elim (start_cases sys.sup sys.world op key) [
        | inl same ↦ inl same.0.0
        | inr fresh ↦ inr (fresh.0, fresh.1)
      ])
command_keeps toml sys (Run.run_id_operation op key new_id) seq r =
    start_keeps (slots sys.sup) (slots (start_id_operation sys.sup sys.world op key new_id).0) seq
      key (some new_id) r
      (elim (start_id_cases sys.sup sys.world op key new_id) [
        | inl same ↦ inl same.0.0
        | inr fresh ↦ inr (fresh.0, fresh.1)
      ])
command_keeps toml sys (Run.cancel op_id) seq r = cancel_keeps sys.sup sys.world op_id seq r.0
command_keeps toml sys (Run.observe_level level outcome) seq r = r.0
command_keeps toml sys Run.active seq r = r.0
command_keeps toml sys (Run.join key) seq r = r.0
command_keeps toml sys Run.shutdown seq r = r.0

receive_keeps :
    (sys : System) (dones : List ℕ) (seq : ℕ)
    → sys.sup.active_op_seq ≡ sys.sup.active_op
    → sys.sup.active_op ≡ some seq
    → ((receive_done sys dones).sup.active_op ≡ some seq) ⊎ ((rest : List ℕ) × (dones ≡ seq ∷ rest))
unfolding receive_done operation_done
receive_keeps sys [] seq same active = inl active
receive_keeps sys (other ∷ rest) seq same active = elim (Bool-cases (other == seq)) [
  | inl this ↦ inr (rest, ground arith)
  | inr that ↦ inl (ground arith)
]

-- In a system whose operations are accounted for (`OpInv`), while an operation is active and has not
-- been told to stop, whatever comes in leaves it active,
-- but for the completion of its own task: no other operation takes its place, and no other task's
-- completion clears it.
pub active_stays :
    (toml : Toml) (sys : System) (input : Input) (seq : ℕ)
    → OpInv sys
    → IsRunning (slots sys.sup) seq
    → ((step toml sys input).sup.active_op ≡ some seq)
      ⊎ ((input ≡ completion) × ((rest : List ℕ) × (sys.done_queue ≡ seq ∷ rest)))
unfolding step
active_stays toml sys (command c) seq inv r = inl (
    if_both (λ (t : System). t.sup.active_op ≡ some seq) sys.alive (command_keeps toml sys c seq r)
      r.0)
active_stays toml sys (task_update n change) seq inv r =
    inl (update_task_keeps sys (nth_task n sys.tasks) change seq r.0)
active_stays toml sys (task_ends n) seq inv r =
    inl (end_task_keeps sys n (nth_task n sys.tasks) seq r.0)
active_stays toml sys completion seq inv r =
    elim (receive_keeps sys sys.done_queue seq inv.0.same_seq r.0) [
      | inl still ↦ inl (if_both (λ (t : System). t.sup.active_op ≡ some seq) sys.alive still r.0)
      | inr own ↦ inr (refl, own)
    ]
active_stays toml sys (outside file now writable) seq inv r = inl r.0
