-- ===== src/Supervisor/State.antt =====
-- The data of supervisor.rs, and `Operation` of core/andler-core/src/events.rs.
--
-- A channel is named by the generation (`seq`) of the operation it was made for: `active_op` and
-- `op_cancel` are pointers into the world, where the operation's task writes through the same
-- channels. A watch channel is its last value, and the broadcast bus the list of what was sent,
-- newest first. The weights of phases and the progress are floats and are left out.
use andler.Base.{ℕ, Bool, false, Option, none, List, Text, Result}
use andler.Config.{InstanceId, InstanceConfig, Resolution, SchemaError}
use andler.Fsm.{InstanceState}
use andler.Readiness.{GuestReadinessLevel, ReadinessLadder, ladder_new, profile_of}

pub data OperationKind : Type 0 where
  create clone export start stop : OperationKind
  snapshot_create snapshot_restore snapshot_delete compact : OperationKind
  guest_install guest_remove disk_create disk_resize : OperationKind

pub data OperationState : Type 0 where
  queued running done failed cancelled : OperationState

pub record Operation : Type 0 where
  pub op_id : Text
  pub instance_id : InstanceId
  pub kind : OperationKind
  pub current_phase : Option Text
  pub state : OperationState
  pub error : Option Text

pub data EventKind : Type 0 where
  lifecycle : InstanceState → InstanceState → Option Text → EventKind
  operation : Operation → EventKind
  readiness : GuestReadinessLevel → EventKind

-- What `toml::from_str` and `toml::to_string_pretty` do for an `InstanceConfig`.
pub record Toml : Type 0 where
  pub decode : Text → Result InstanceConfig Text
  pub encode : InstanceConfig → Option Text

-- instance.toml on disk; `content` is `none` where reading it fails.
pub record TomlFile : Type 0 where
  pub content : Option Text
  pub mtime : Option ℕ

pub data InvalidToml : Type 0 where
  syntax : Text → InvalidToml
  schema : SchemaError → InvalidToml

pub data FileError : Type 0 where
  unreadable : FileError
  other_instance : FileError
  invalid : InvalidToml → FileError

pub record Supervisor : Type 0 where
  pub id : InstanceId
  pub state : InstanceState
  pub handle : Option Text
  pub config : InstanceConfig
  pub state_tx : InstanceState
  pub handle_tx : Option Text
  pub config_tx : InstanceConfig
  pub config_mtime : Option ℕ
  pub file_config : Option InstanceConfig
  pub file_error : Option FileError
  pub live_resolution : Option Resolution
  pub ladder : ReadinessLadder
  pub readiness_tx : ReadinessLadder
  pub active_op : Option ℕ
  pub active_op_key : Option Text
  pub active_op_new_id : Option InstanceId
  pub active_op_cancelled : Bool
  pub active_op_seq : Option ℕ
  pub next_op_seq : ℕ
  pub op_cancel : Option ℕ

-- What the supervisor shares with the rest: the file, the bus, and the channels of operations.
pub record World : Type 0 where
  pub file : Option TomlFile
  pub now : ℕ
  pub writable : Bool
  pub bus : List EventKind
  pub ops : ℕ → Operation
  pub cancels : ℕ → Bool

unfoldable pub spawn_supervisor :
    InstanceId → InstanceConfig → InstanceState → Option Text → Supervisor
unfolding ladder_new
spawn_supervisor id config state handle = record {
  id = id;
  state = state;
  handle = handle;
  config = config;
  state_tx = state;
  handle_tx = handle;
  config_tx = config;
  config_mtime = none;
  file_config = none;
  file_error = none;
  live_resolution = none;
  ladder = ladder_new (profile_of config.kind);
  readiness_tx = ladder_new (profile_of config.kind);
  active_op = none;
  active_op_key = none;
  active_op_new_id = none;
  active_op_cancelled = false;
  active_op_seq = none;
  next_op_seq = 0;
  op_cancel = none;
}
