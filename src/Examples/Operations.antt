-- ===== src/Examples/Operations.antt =====
-- The supervisor's operations at work.
use andler.Base.{ℕ, ◌+◌, ◌≤◌, ◌≡◌, refl, ◌⊎◌, true, none, some, List, [], ◌∷◌, ok, err, codes}
use andler.Fsm.{running, stop}
use andler.Supervisor.{
  System, launch, run, step, handle_command, Input, command, task_ends, completion, run_operation,
  cancel, transition, start_operation, start_id_operation, cancel_operation, operation_done,
  accept_operation, join_decision, spawn_supervisor, already_running,
}
use andler.Supervisor.Tasks.{live_count}
use andler.Supervisor.Agreement.{Agrees}
use andler.Supervisor.Published.{published-Agrees}
use andler.Supervisor.OneOperation.{one_operation, run-OpInv, launch-OpInv}
use andler.Supervisor.Retry.{fresh_start, retry_joins, clone_retry_joins, retry_after_cancel}
use andler.Supervisor.Retention.{active_stays}
use andler.Examples.Data.{
  vm, vm_id, names, boot_op, compact_op, quiet, with_edit, supervised, retry_key,
}

-- An operation, its cancellation, a retry while the first task still runs, and the end of the first.
abbrev inputs : List Input
inputs =
    command (run_operation boot_op (some retry_key))
    ∷ command (cancel (codes "op-1"))
    ∷ command (run_operation compact_op (some retry_key))
    ∷ task_ends 1
    ∷ completion
    ∷ command (transition stop)
    ∷ []

one_operation_example :
    live_count
      (run names (launch vm_id vm running none quiet) inputs).world.cancels
      (run names (launch vm_id vm running none quiet) inputs).tasks
    ≤ 1
one_operation_example = one_operation names vm_id vm running none quiet inputs

published-Agrees_example : Agrees (run names (launch vm_id vm running none with_edit) inputs).sup
published-Agrees_example = published-Agrees names vm_id vm running none with_edit inputs

retry_joins_example :
    let (s, w, answer) = start_operation (supervised running) quiet boot_op (some retry_key) in
    (answer ≡ fresh_start (supervised running).next_op_seq)
    × (start_operation s w compact_op (some retry_key)
        ≡ (s, w, record { ack = ok (some (codes "op-1")); spawned = none }))
    × (start_operation s w compact_op none ≡ (
      s,
      w,
      record { ack = err (already_running (supervised running) boot_op); spawned = none },
    ))
unfolding spawn_supervisor
retry_joins_example =
    retry_joins (supervised running) quiet boot_op compact_op retry_key none refl (λ e. cc)

clone_retry_joins_example :
    let (s, w, answer) =
      start_id_operation (supervised running) quiet boot_op (some retry_key) (1 ∷ []) in
    (answer ≡ fresh_start (supervised running).next_op_seq)
    × (start_id_operation s w compact_op (some retry_key) (2 ∷ [])
        ≡ (s, w, record { ack = ok (some (codes "op-1", 1 ∷ [])); spawned = none }))
unfolding spawn_supervisor
clone_retry_joins_example =
    clone_retry_joins (supervised running) quiet boot_op compact_op retry_key (1 ∷ []) (2 ∷ []) refl

retry_after_cancel_example :
    let (s₁, w₁, first) = start_operation (supervised running) quiet boot_op (some retry_key) in
    let (s₂, w₂, sent) = cancel_operation s₁ w₁ boot_op.op_id in
    let (s₃, w₃, second) = start_operation s₂ w₂ compact_op (some retry_key) in
    (sent ≡ true)
    × (second ≡ fresh_start ((supervised running).next_op_seq + 1))
    × (operation_done s₃ (supervised running).next_op_seq ≡ s₃)
    × (w₃.cancels (supervised running).next_op_seq ≡ true)
    × (w₃.ops ((supervised running).next_op_seq + 1) ≡ compact_op)
unfolding spawn_supervisor
retry_after_cancel_example =
    retry_after_cancel (supervised running) quiet boot_op compact_op retry_key refl

abbrev one_active : System
one_active =
    run names (launch vm_id vm running none quiet)
      (command (run_operation boot_op (some retry_key)) ∷ [])

active_stays_example :
    ((step names one_active (command (run_operation compact_op none))).sup.active_op ≡ some 0)
    ⊎ ((command (run_operation compact_op none) ≡ completion)
        × ((rest : List ℕ) × (one_active.done_queue ≡ 0 ∷ rest)))
unfolding run step handle_command launch spawn_supervisor start_operation join_decision
    accept_operation
active_stays_example =
    active_stays names one_active (command (run_operation compact_op none)) 0
      (run-OpInv names (launch vm_id vm running none quiet)
        (command (run_operation boot_op (some retry_key)) ∷ [])
        (launch-OpInv vm_id vm running none quiet))
      (refl, refl)
