-- ===== src/Supervisor/Agreement.antt =====
-- When the watch channels carry what the supervisor holds, and each handler's part in it.
use andler.Base.{
  ◌≡◌, refl, sym, ◌∙◌, Bool, true, false, Option, none, some, Text, Result, ok, err, arith, ℕ,
}
use andler.Config.{InstanceId, InstanceConfig, Resolution}
use andler.Fsm.{InstanceState, InstanceEvent, FsmError}
use andler.Readiness.{
  GuestReadinessLevel, ProbeOutcome, profile_of, observe, ladder_new, ReadinessLadder,
}
use andler.Supervisor.State.{Toml, Supervisor, World, Operation}
use andler.Supervisor.ConfigFile.{rebase_ladder, persist}
use andler.Supervisor.Transitions.{
  ends_ladder, reset_if, enter_state, transition_to, set_config, applied_live,
}
use andler.Supervisor.Operations.{
  start_operation, start_id_operation, cancel_operation, operation_done,
}
use andler.Supervisor.Kept.{Kept, persist-Kept, adopt-Kept}

pub record Agrees (s : Supervisor) : Type 0 where
  pub state_agrees : s.state_tx ≡ s.state
  pub handle_agrees : s.handle_tx ≡ s.handle
  pub config_agrees : s.config_tx ≡ s.config
  pub ladder_agrees : s.readiness_tx ≡ s.ladder
  pub profile_agrees : s.ladder.profile ≡ profile_of s.config.kind

pub Kept-Agrees : (s s' : Supervisor) → Kept s s' → Agrees s → Agrees s'
Kept-Agrees s s' k a = record {
  state_agrees = cc (k.state_kept, k.state_tx_kept, a.state_agrees);
  handle_agrees = cc (k.handle_kept, k.handle_tx_kept, a.handle_agrees);
  config_agrees = k.config_agrees a.config_agrees;
  ladder_agrees = k.ladder_agrees a.ladder_agrees;
  profile_agrees = k.profile_agrees a.profile_agrees;
}

-- `Agrees` but for the state, which a transition publishes last.
record Moved (s : Supervisor) (state : InstanceState) : Type 0 where
  state_moved : s.state ≡ state
  handle_agrees : s.handle_tx ≡ s.handle
  config_agrees : s.config_tx ≡ s.config
  ladder_agrees : s.readiness_tx ≡ s.ladder
  profile_agrees : s.ladder.profile ≡ profile_of s.config.kind

reset_if-Moved :
    (s : Supervisor) (state : InstanceState) (b : Bool)
    → Agrees s
    → Moved (reset_if b (record s { state = state })) state
unfolding reset_if ladder_new
reset_if-Moved s state true a = record {
  state_moved = refl;
  handle_agrees = a.handle_agrees;
  config_agrees = a.config_agrees;
  ladder_agrees = refl;
  profile_agrees = refl;
}
reset_if-Moved s state false a = record {
  state_moved = refl;
  handle_agrees = a.handle_agrees;
  config_agrees = a.config_agrees;
  ladder_agrees = a.ladder_agrees;
  profile_agrees = a.profile_agrees;
}

publish_state :
    (s s' : Supervisor) (state : InstanceState)
    → Moved s state
    → Kept s s'
    → Agrees (record s' { state_tx = state })
publish_state s s' state m k = record {
  state_agrees = sym (k.state_kept ∙ m.state_moved);
  handle_agrees = cc (k.handle_kept, k.handle_tx_kept, m.handle_agrees);
  config_agrees = k.config_agrees m.config_agrees;
  ladder_agrees = k.ladder_agrees m.ladder_agrees;
  profile_agrees = k.profile_agrees m.profile_agrees;
}

pub transition_to-Agrees :
    (toml : Toml) (s : Supervisor) (w : World) (event : InstanceEvent)
    (r : Result InstanceState FsmError)
    → Agrees s
    → Agrees (transition_to toml s w event r).0
unfolding transition_to enter_state
transition_to-Agrees toml s w event (err e) a = a
transition_to-Agrees toml s w event (ok state) a =
    let moved = reset_if (ends_ladder state) (record s { state = state }) in
    publish_state moved (persist toml moved w).0 state (reset_if-Moved s state _ a)
      (persist-Kept toml moved w)

pub observe-profile :
    (ladder : ReadinessLadder) (level : GuestReadinessLevel) (outcome : ProbeOutcome)
    → (observe ladder level outcome).0.profile ≡ ladder.profile
unfolding observe
observe-profile ladder level outcome = ground arith

applied_live-Agrees :
    (s : Supervisor) (live : Option Resolution) → Agrees s → Agrees (applied_live live s)
applied_live-Agrees s none a = a
applied_live-Agrees s (some resolution) a = record {
  state_agrees = a.state_agrees;
  handle_agrees = a.handle_agrees;
  config_agrees = a.config_agrees;
  ladder_agrees = a.ladder_agrees;
  profile_agrees = a.profile_agrees;
}

pub set_config-Agrees :
    (toml : Toml) (s : Supervisor) (w : World) (cfg : InstanceConfig) (live : Option Resolution)
    → Agrees s
    → Agrees (set_config toml s w cfg live).0
unfolding set_config
set_config-Agrees toml s w cfg live a =
    let lived = applied_live live s in
    let rebased = record (rebase_ladder (record lived { config = cfg })) { config_tx = cfg } in
    Kept-Agrees rebased (persist toml rebased w).0 (persist-Kept toml rebased w)
      (Kept-Agrees lived rebased (adopt-Kept lived cfg) (applied_live-Agrees s live a))

pub start_operation-Agrees :
    (s : Supervisor) (w : World) (op : Operation) (key : Option Text)
    → Agrees s
    → Agrees (start_operation s w op key).0
unfolding start_operation
start_operation-Agrees s w op key a = ground arith

pub start_id_operation-Agrees :
    (s : Supervisor) (w : World) (op : Operation) (key : Option Text) (new_id : InstanceId)
    → Agrees s
    → Agrees (start_id_operation s w op key new_id).0
unfolding start_id_operation
start_id_operation-Agrees s w op key new_id a = ground arith

pub cancel-Agrees :
    (s : Supervisor) (w : World) (op_id : Text) → Agrees s → Agrees (cancel_operation s w op_id).0
unfolding cancel_operation
cancel-Agrees s w op_id a = ground arith

pub operation_done-Agrees : (s : Supervisor) (seq : ℕ) → Agrees s → Agrees (operation_done s seq)
unfolding operation_done
operation_done-Agrees s seq a = ground arith
