-- ===== src/Supervisor/Transitions.antt =====
-- `apply_transition`, `observe_readiness`, and the handlers of `SetHandle`, `SetConfig` and
-- `ReloadConfig`.
use andler.Base.{Bool, true, false, Option, none, some, ◌∷◌, Text, Result, ok, err}
use andler.Config.{InstanceConfig, Resolution}
use andler.Fsm
use andler.Fsm.{InstanceState, InstanceEvent, FsmError}
use andler.Readiness.{GuestReadinessLevel, ProbeOutcome, ReadinessLadder, observe}
use andler.Supervisor.State.{Toml, FileError, EventKind, lifecycle, readiness, Supervisor, World}
use andler.Supervisor.ConfigFile.{reset_ladder, rebase_ladder, reload_if_changed, persist}

-- `matches!(new_state, Starting | Stopping | Stopped | Error { .. })`
abbrev pub ends_ladder : InstanceState → Bool
ends_ladder Fsm.starting = true
ends_ladder Fsm.stopping = true
ends_ladder Fsm.stopped = true
ends_ladder (Fsm.error m) = true
ends_ladder _ = false

abbrev pub reason_of : InstanceEvent → Option Text
reason_of (Fsm.fail message) = some message
reason_of _ = none

unfoldable pub reset_if : Bool → Supervisor → Supervisor
unfolding reset_ladder
reset_if true s = reset_ladder s
reset_if false s = s

abbrev send : EventKind → World → World
send event w = record w { bus = event ∷ w.bus }

-- The `Ok` arm of `apply_transition`.
unfoldable pub enter_state :
    Toml → Supervisor → World → InstanceEvent → InstanceState → Supervisor × World
unfolding persist reset_if
enter_state toml s w event new_state =
    let moved = reset_if (ends_ladder new_state) (record s { state = new_state }) in
    let (s', w') = persist toml moved w in
    (record s' { state_tx = new_state }, send (lifecycle s.state new_state (reason_of event)) w')

unfoldable pub transition_to :
    Toml
    → Supervisor
    → World
    → InstanceEvent
    → Result InstanceState FsmError
    → Supervisor × World × Result InstanceState FsmError
unfolding enter_state
transition_to toml s w event (err e) = (s, w, err e)
transition_to toml s w event (ok new_state) =
    let (s', w') = enter_state toml s w event new_state in (s', w', ok new_state)

unfoldable pub apply_transition :
    Toml → Supervisor → World → InstanceEvent → Supervisor × World × Result InstanceState FsmError
unfolding transition_to Fsm.apply
apply_transition toml s w event = transition_to toml s w event (Fsm.apply s.state event)

abbrev announce : Option GuestReadinessLevel → World → World
announce none w = w
announce (some level) w = send (readiness level) w

unfoldable pub observe_readiness :
    Supervisor → World → GuestReadinessLevel → ProbeOutcome → Supervisor × World × ReadinessLadder
observe_readiness s w level outcome =
    let (ladder', reached) = observe s.ladder level outcome in
    (record s { ladder = ladder'; readiness_tx = ladder' }, announce reached w, ladder')

unfoldable pub set_handle : Supervisor → Option Text → Supervisor
set_handle s handle = record s { handle = handle; handle_tx = handle }

abbrev pub applied_live : Option Resolution → Supervisor → Supervisor
applied_live none s = s
applied_live (some resolution) s = record s { live_resolution = some resolution }

unfoldable pub set_config :
    Toml → Supervisor → World → InstanceConfig → Option Resolution → Supervisor × World
unfolding rebase_ladder persist
set_config toml s w config applied_live_resolution =
    let live = applied_live applied_live_resolution s in
    let rebased = rebase_ladder (record live { config = config }) in
    persist toml (record rebased { config_tx = config }) w

pub record ConfigSnapshot : Type 0 where
  pub config : InstanceConfig
  pub file_config : Option InstanceConfig
  pub file_error : Option FileError
  pub live_resolution : Option Resolution

unfoldable pub reload_config : Toml → Supervisor → World → Supervisor × ConfigSnapshot
unfolding reload_if_changed
reload_config toml s w =
    let s' = reload_if_changed toml s w in
    (
      s',
      record {
        config = s'.config;
        file_config = s'.file_config;
        file_error = s'.file_error;
        live_resolution = s'.live_resolution;
      },
    )
