-- ===== src/Supervisor/Handlers.antt =====
-- What each handler of the supervisor's loop does to the slots of the operation.
use andler.Base.{
  ℕ, ◌≡◌, refl, ◌∙◌, ◌⊎◌, Bool, true, false, Option, none, some, arith, Text, Result, ok, err,
}
use andler.Config.{InstanceId, InstanceConfig, Resolution}
use andler.Fsm.{InstanceState, InstanceEvent, FsmError}
use andler.Readiness.{GuestReadinessLevel, ProbeOutcome}
use andler.Supervisor.State.{Toml, Supervisor, World, Operation}
use andler.Supervisor.ConfigFile.{rebase_ladder}
use andler.Supervisor.Transitions.{
  ends_ladder, reset_if, enter_state, transition_to, set_config, observe_readiness, applied_live,
}
use andler.Supervisor.Operations.{
  start_operation, start_id_operation, cancel_operation, operation_done, update,
}
use andler.Supervisor.Kept.{slots, persist-Kept, adopt-Kept, persist-cancels}
use andler.Supervisor.Accounting.{IsFree, accepted, told, clear}

-- A handler that leaves the operation alone.
abbrev pub Untouched : Supervisor → World → Supervisor → World → Type 0
Untouched s w s' w' = (slots s' ≡ slots s) × (w'.cancels ≡ w.cancels)

reset_if-slots :
    (s : Supervisor) (state : InstanceState) (b : Bool)
    → slots (reset_if b (record s { state = state })) ≡ slots s
unfolding reset_if
reset_if-slots s state true = refl
reset_if-slots s state false = refl

pub transition_to-Untouched :
    (toml : Toml) (s : Supervisor) (w : World) (event : InstanceEvent)
    (r : Result InstanceState FsmError)
    → Untouched s w (transition_to toml s w event r).0 (transition_to toml s w event r).1
unfolding transition_to enter_state
transition_to-Untouched toml s w event (err e) = (refl, refl)
transition_to-Untouched toml s w event (ok state) =
    let moved = reset_if (ends_ladder state) (record s { state = state }) in
    (
      (persist-Kept toml moved w).slots_kept ∙ reset_if-slots s state (ends_ladder state),
      persist-cancels toml moved w,
    )

applied_live-slots :
    (s : Supervisor) (live : Option Resolution) → slots (applied_live live s) ≡ slots s
applied_live-slots s none = refl
applied_live-slots s (some resolution) = refl

pub set_config-Untouched :
    (toml : Toml) (s : Supervisor) (w : World) (cfg : InstanceConfig) (live : Option Resolution)
    → Untouched s w (set_config toml s w cfg live).0 (set_config toml s w cfg live).1
unfolding set_config
set_config-Untouched toml s w cfg live =
    let lived = applied_live live s in
    let given = record (rebase_ladder (record lived { config = cfg })) { config_tx = cfg } in
    (
      (persist-Kept toml given w).slots_kept
          ∙ (adopt-Kept lived cfg).slots_kept
          ∙ applied_live-slots s live,
      persist-cancels toml given w,
    )

pub observe-Untouched :
    (s : Supervisor) (w : World) (level : GuestReadinessLevel) (outcome : ProbeOutcome)
    → Untouched s w (observe_readiness s w level outcome).0 (observe_readiness s w level outcome).1
unfolding observe_readiness
observe-Untouched s w level outcome = (refl, ground arith)

pub start_cases :
    (s : Supervisor) (w : World) (op : Operation) (key : Option Text)
    → (Untouched s w (start_operation s w op key).0 (start_operation s w op key).1
        × ((start_operation s w op key).2.spawned ≡ none))
      ⊎ (IsFree (slots s)
          × (slots (start_operation s w op key).0 ≡ accepted (slots s) key none)
          × ((start_operation s w op key).1.cancels ≡ update w.cancels s.next_op_seq false)
          × ((start_operation s w op key).2.spawned ≡ some s.next_op_seq))
unfolding start_operation accepted
start_cases s w op key = ground arith

pub start_id_cases :
    (s : Supervisor) (w : World) (op : Operation) (key : Option Text) (new_id : InstanceId)
    → let (s', w', answer) = start_id_operation s w op key new_id in
      (Untouched s w s' w' × (answer.spawned ≡ none))
      ⊎ (IsFree (slots s)
          × (slots s' ≡ accepted (slots s) key (some new_id))
          × (w'.cancels ≡ update w.cancels s.next_op_seq false)
          × (answer.spawned ≡ some s.next_op_seq))
unfolding start_id_operation accepted
start_id_cases s w op key new_id = ground arith

pub cancel_cases :
    (s : Supervisor) (w : World) (op_id : Text)
    → let (s', w', sent) = cancel_operation s w op_id in
      Untouched s w s' w'
      ⊎ ((seq : ℕ) × (s.op_cancel ≡ some seq)
          × (slots s' ≡ told (slots s))
          × (w'.cancels ≡ update w.cancels seq true))
unfolding cancel_operation told
cancel_cases s w op_id = ground arith

pub done_cases :
    (s : Supervisor) (seq : ℕ)
    → (slots (operation_done s seq) ≡ slots s)
      ⊎ ((s.active_op_seq ≡ some seq) × (slots (operation_done s seq) ≡ clear (slots s)))
unfolding operation_done clear
done_cases s seq = ground arith
