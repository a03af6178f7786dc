-- ===== src/Supervisor/Published.antt =====
-- What the supervisor publishes on its watch channels agrees with what it holds, and the ladder it
-- reports is that of the instance's effective profile.
use andler.Base.{refl, ◌∙◌, Option, none, some, List, [], ◌∷◌, Text, if_both, ℕ}
use andler.Config.{InstanceId, InstanceConfig}
use andler.Fsm
use andler.Fsm.{InstanceState, InstanceEvent, FsmError}
use andler.Readiness.{ladder_new}
use andler.Supervisor.State.{Toml, World, spawn_supervisor}
use andler.Supervisor.ConfigFile.{reload_if_changed}
use andler.Supervisor.Run.{
  System, SupervisorCommand, handle_command, Input, command, task_update, task_ends, completion,
  outside, step, run, OpUpdate, update_task, end_task, receive_done, nth_task, launch,
}
use andler.Supervisor.Run
use andler.Supervisor.Kept.{reload-Kept}
use andler.Supervisor.Agreement.{
  Agrees, Kept-Agrees, transition_to-Agrees, set_config-Agrees, start_operation-Agrees,
  start_id_operation-Agrees, cancel-Agrees, operation_done-Agrees, observe-profile,
}

command-Agrees :
    (toml : Toml) (sys : System) (c : SupervisorCommand)
    → Agrees sys.sup
    → Agrees (handle_command toml sys c).0.sup
unfolding handle_command
command-Agrees toml sys (Run.transition event) a =
    transition_to-Agrees toml sys.sup sys.world event (Fsm.apply sys.sup.state event) a
command-Agrees toml sys (Run.swap_handle handle) a = record {
  state_agrees = a.state_agrees;
  handle_agrees = refl;
  config_agrees = a.config_agrees;
  ladder_agrees = a.ladder_agrees;
  profile_agrees = a.profile_agrees;
}
command-Agrees toml sys (Run.swap_config cfg live) a =
    set_config-Agrees toml sys.sup sys.world cfg live a
command-Agrees toml sys Run.reload a =
    Kept-Agrees sys.sup (reload_if_changed toml sys.sup sys.world)
      (reload-Kept toml sys.sup sys.world) a
command-Agrees toml sys (Run.run_operation op key) a =
    start_operation-Agrees sys.sup sys.world op key a
command-Agrees toml sys (Run.run_id_operation op key new_id) a =
    start_id_operation-Agrees sys.sup sys.world op key new_id a
command-Agrees toml sys (Run.cancel op_id) a = cancel-Agrees sys.sup sys.world op_id a
command-Agrees toml sys (Run.observe_level level outcome) a = record {
  state_agrees = a.state_agrees;
  handle_agrees = a.handle_agrees;
  config_agrees = a.config_agrees;
  ladder_agrees = refl;
  profile_agrees = observe-profile sys.sup.ladder level outcome ∙ a.profile_agrees;
}
command-Agrees toml sys Run.active a = a
command-Agrees toml sys (Run.join key) a = a
command-Agrees toml sys Run.shutdown a = a

update_task-Agrees :
    (sys : System) (seq : Option ℕ) (change : OpUpdate)
    → Agrees sys.sup
    → Agrees (update_task sys seq change).sup
unfolding update_task
update_task-Agrees sys none change a = a
update_task-Agrees sys (some seq) change a = a

end_task-Agrees :
    (sys : System) (n : ℕ) (seq : Option ℕ) → Agrees sys.sup → Agrees (end_task sys n seq).sup
end_task-Agrees sys n none a = a
end_task-Agrees sys n (some seq) a = a

receive_done-Agrees :
    (sys : System) (dones : List ℕ) → Agrees sys.sup → Agrees (receive_done sys dones).sup
unfolding receive_done
receive_done-Agrees sys [] a = a
receive_done-Agrees sys (seq ∷ rest) a = operation_done-Agrees sys.sup seq a

step-Agrees :
    (toml : Toml) (sys : System) (input : Input) → Agrees sys.sup → Agrees (step toml sys input).sup
unfolding step
step-Agrees toml sys (command c) a =
    if_both (λ (t : System). Agrees t.sup) sys.alive (command-Agrees toml sys c a) a
step-Agrees toml sys (task_update n change) a =
    update_task-Agrees sys (nth_task n sys.tasks) change a
step-Agrees toml sys (task_ends n) a = end_task-Agrees sys n (nth_task n sys.tasks) a
step-Agrees toml sys completion a =
    if_both (λ (t : System). Agrees t.sup) sys.alive (receive_done-Agrees sys sys.done_queue a) a
step-Agrees toml sys (outside file now writable) a = a

run-Agrees :
    (toml : Toml) (sys : System) (inputs : List Input)
    → Agrees sys.sup
    → Agrees (run toml sys inputs).sup
unfolding run
run-Agrees toml sys [] a = a
run-Agrees toml sys (input ∷ inputs) a =
    run-Agrees toml (step toml sys input) inputs (step-Agrees toml sys input a)

-- However commands, task steps, completions and outside changes interleave, the watch channels
-- carry the supervisor's own state, handle, configuration and ladder, and the ladder is that of the
-- profile of the configuration's kind and boot mode.
pub published-Agrees :
    (toml : Toml) (id : InstanceId) (cfg : InstanceConfig) (state : InstanceState)
    (handle : Option Text) (world : World) (inputs : List Input)
    → Agrees (run toml (launch id cfg state handle world) inputs).sup
unfolding launch spawn_supervisor ladder_new
published-Agrees toml id cfg state handle world inputs =
    run-Agrees toml (launch id cfg state handle world) inputs (record {
      state_agrees = refl;
      handle_agrees = refl;
      config_agrees = refl;
      ladder_agrees = refl;
      profile_agrees = refl;
    })
