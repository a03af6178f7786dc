-- ===== src/Supervisor/Run.antt =====
-- The supervisor's loop, and the tasks of operations with `OpProgress` of daemon/ops.rs.
--
-- `select!` may take a command, a task's completion, or neither while a task, another process or
-- the clock goes on: a run is a list of such inputs, in any order. The loop's own sender keeps the
-- completion channel open, so its `None` arm is not reached.
use andler.Base.{
  ℕ, zero, suc, Bool, true, false, Option, none, some, List, [], ◌∷◌, ◌++◌, Text, Result, ok, err,
  if◌then◌else◌,
}
use andler.Config.{InstanceId, InstanceConfig, Resolution}
use andler.Fsm.{InstanceState, InstanceEvent, FsmError}
use andler.Readiness.{GuestReadinessLevel, ProbeOutcome, ReadinessLadder}
use andler.Supervisor.State.{
  Operation, EventKind, Toml, TomlFile, Supervisor, World, running, done, failed, cancelled,
  spawn_supervisor,
}
use andler.Supervisor.Transitions.{
  apply_transition, observe_readiness, set_handle, set_config, ConfigSnapshot, reload_config,
}
use andler.Supervisor.Operations.{
  AlreadyRunning, start_operation, start_id_operation, cancel_operation, get_active_op, join_active,
  operation_done, update,
}

pub data SupervisorCommand : Type 0 where
  transition : InstanceEvent → SupervisorCommand
  swap_handle : Option Text → SupervisorCommand
  swap_config : InstanceConfig → Option Resolution → SupervisorCommand
  reload : SupervisorCommand
  run_operation : Operation → Option Text → SupervisorCommand
  run_id_operation : Operation → Option Text → InstanceId → SupervisorCommand
  cancel : Text → SupervisorCommand
  observe_level : GuestReadinessLevel → ProbeOutcome → SupervisorCommand
  active : SupervisorCommand
  join : Option Text → SupervisorCommand
  shutdown : SupervisorCommand

-- What is sent through the command's `ack`.
pub data Reply : Type 0 where
  transitioned : Result InstanceState FsmError → Reply
  swapped : Reply
  snapshot : ConfigSnapshot → Reply
  started : Result (Option Text) AlreadyRunning → Reply
  id_started : Result (Option (Text × InstanceId)) AlreadyRunning → Reply
  cancel_sent : Bool → Reply
  position : ReadinessLadder → Reply
  active_is : Option Operation → Reply
  joins : Result (Option Text) AlreadyRunning → Reply
  stopped : Reply

-- The supervisor, its world, the generations of the tasks that run (newest first), the completions
-- that wait, and whether the loop still runs.
pub record System : Type 0 where
  pub sup : Supervisor
  pub world : World
  pub tasks : List ℕ
  pub done_queue : List ℕ
  pub alive : Bool

abbrev pub spawn_task : Option ℕ → List ℕ → List ℕ
spawn_task none tasks = tasks
spawn_task (some seq) tasks = seq ∷ tasks

-- A supervisor as `spawn_supervisor` starts it.
unfoldable pub launch : InstanceId → InstanceConfig → InstanceState → Option Text → World → System
unfolding spawn_supervisor
launch id config state handle world = record {
  sup = spawn_supervisor id config state handle;
  world = world;
  tasks = [];
  done_queue = [];
  alive = true;
}

-- The `match command` of the loop.
unfoldable pub handle_command : Toml → System → SupervisorCommand → System × Reply
unfolding apply_transition observe_readiness set_handle set_config reload_config start_operation
    start_id_operation cancel_operation get_active_op join_active
handle_command toml sys (transition event) =
    let (s, w, result) = apply_transition toml sys.sup sys.world event in
    (record sys { sup = s; world = w }, transitioned result)
handle_command toml sys (swap_handle handle) =
    (record sys { sup = set_handle sys.sup handle }, swapped)
handle_command toml sys (swap_config config live) =
    let (s, w) = set_config toml sys.sup sys.world config live in
    (record sys { sup = s; world = w }, swapped)
handle_command toml sys reload =
    let (s, seen) = reload_config toml sys.sup sys.world in (record sys { sup = s }, snapshot seen)
handle_command toml sys (run_operation op key) =
    let (s, w, answer) = start_operation sys.sup sys.world op key in
    (
      record sys { sup = s; world = w; tasks = spawn_task answer.spawned sys.tasks },
      started answer.ack,
    )
handle_command toml sys (run_id_operation op key new_id) =
    let (s, w, answer) = start_id_operation sys.sup sys.world op key new_id in
    (
      record sys { sup = s; world = w; tasks = spawn_task answer.spawned sys.tasks },
      id_started answer.ack,
    )
handle_command toml sys (cancel op_id) =
    let (s, w, sent) = cancel_operation sys.sup sys.world op_id in
    (record sys { sup = s; world = w }, cancel_sent sent)
handle_command toml sys (observe_level level outcome) =
    let (s, w, reached) = observe_readiness sys.sup sys.world level outcome in
    (record sys { sup = s; world = w }, position reached)
handle_command toml sys active = (sys, active_is (get_active_op sys.sup sys.world))
handle_command toml sys (join key) = (sys, joins (join_active sys.sup sys.world key))
handle_command toml sys shutdown = (record sys { alive = false }, stopped)

-- What a task does to its operation through `OpProgress`.
pub data OpUpdate : Type 0 where
  mark_running : OpUpdate
  enter_phase : Text → OpUpdate
  finish : Result (Unit {0}) Text → OpUpdate

-- `is_cancelled` is the value of the operation's cancel channel.
unfoldable pub apply_update : Bool → OpUpdate → Operation → Operation
apply_update is_cancelled mark_running op = record op { state = running }
apply_update is_cancelled (enter_phase name) op = record op { current_phase = some name }
apply_update true (finish result) op = record op { state = cancelled }
apply_update false (finish (ok done_value)) op = record op { state = done }
apply_update false (finish (err message)) op = record op { state = failed; error = some message }

abbrev pub publish : World → ℕ → OpUpdate → World
unfolding apply_update
publish w seq change =
    let op = apply_update (w.cancels seq) change (w.ops seq) in
    record w { ops = update w.ops seq op; bus = EventKind.operation op ∷ w.bus }

pub data Input : Type 0 where
  command : SupervisorCommand → Input
  task_update : ℕ → OpUpdate → Input
  task_ends : ℕ → Input
  completion : Input
  outside : Option TomlFile → ℕ → Bool → Input

abbrev pub nth_task : ℕ → List ℕ → Option ℕ
nth_task n [] = none
nth_task zero (seq ∷ tasks) = some seq
nth_task (suc n) (seq ∷ tasks) = nth_task n tasks

abbrev pub without_nth : ℕ → List ℕ → List ℕ
without_nth n [] = []
without_nth zero (seq ∷ tasks) = tasks
without_nth (suc n) (seq ∷ tasks) = seq ∷ without_nth n tasks

-- `op_done_tx.send(seq)`, the last thing a task does.
abbrev pub end_task : System → ℕ → Option ℕ → System
end_task sys n none = sys
end_task sys n (some seq) = record sys {
  tasks = without_nth n sys.tasks;
  done_queue = sys.done_queue ++ seq ∷ [];
}

unfoldable pub update_task : System → Option ℕ → OpUpdate → System
unfolding publish
update_task sys none change = sys
update_task sys (some seq) change = record sys { world = publish sys.world seq change }

unfoldable pub receive_done : System → List ℕ → System
unfolding operation_done
receive_done sys [] = sys
receive_done sys (seq ∷ rest) = record sys { sup = operation_done sys.sup seq; done_queue = rest }

-- One input. After `Shutdown` the loop takes no more.
unfoldable pub step : Toml → System → Input → System
unfolding handle_command update_task receive_done
step toml sys (command c) = if sys.alive then (handle_command toml sys c).0 else sys
step toml sys (task_update n change) = update_task sys (nth_task n sys.tasks) change
step toml sys (task_ends n) = end_task sys n (nth_task n sys.tasks)
step toml sys completion = if sys.alive then receive_done sys sys.done_queue else sys
step toml sys (outside file now writable) = record sys {
  world = record (sys.world) { file = file; now = now; writable = writable };
}

unfoldable pub run : Toml → System → List Input → System
run toml sys [] = sys
run toml sys (input ∷ inputs) = run toml (step toml sys input) inputs
