-- ===== src/Lib.antt =====
-- andler runs Linux and Android guests under QEMU. A daemon keeps one task per instance, the
-- supervisor, which owns the instance's lifecycle state, its configuration and the operations on it;
-- a core library holds the configuration, the state machine and the readiness of guests; the QEMU
-- backend turns a configuration into a command line; clients and the daemon exchange configurations
-- as protobuf messages. This library models those parts.
--
-- Parts and files:
--   Base        what the modules share: numbers' tests, `Result`, lists, texts.
--   Decimal, Words, Paths
--               what the source uses of Rust's numbers as text, strings and paths. A string is the
--               list of its code points.
--   Config      core/andler-core/src/config (cpu.rs, memory.rs, disk.rs, display.rs, gpu.rs,
--               audio.rs, input.rs, firmware.rs, cdrom.rs, network.rs, instance.rs, mod.rs) and
--               android_profile.rs: the structs with their `reference_default`, `validate`,
--               `migrate_schema`, `AndroidProfile::resolve`.
--   Draft       core/andler-core/src/config/draft.rs: `ConfigDraft` and `resolve_draft`, which is its
--               `resolve`.
--   InstanceId  `Display` and `FromStr` of core/andler-core/src/config/instance.rs.
--   Sizes       core/andler-core/src/sizes.rs: `parse_size`, `format_size`.
--   Keypath     core/andler-core/src/config/keypath.rs: `config_keys` in six parts, `get_key`,
--               `set_key`, `diff_configs`, `is_live_key`.
--   Fsm         core/andler-core/src/fsm.rs: `InstanceState::apply` and its tests on states.
--   Readiness   core/andler-core/src/events.rs: `ReadinessProfile`, `ReadinessLadder::observe`,
--               `ReadinessSnapshot::pending`.
--   Supervisor  apps/daemon/src/daemon/supervisor.rs, with `OpProgress` of ops.rs and
--               `write_instance_toml` of types.rs. `State` holds the fields of `InstanceSupervisor`,
--               `ConfigFile` is `reload_if_changed` and `persist`, `Transitions` is
--               `apply_transition`, `observe_readiness` and the handlers of `SetHandle`,
--               `SetConfig` and `ReloadConfig`, `Operations` is `join_decision`, `start_operation`,
--               `start_id_operation` and the handlers of `CancelOperation`, `GetActiveOp` and
--               `JoinActive`, and `Run` is the loop: `step` takes one command, one completion, one
--               move of a task or one change from outside, and `run` any list of them.
--   Rpc         services/andler-rpc: the messages of proto/andler.proto that carry a configuration
--               (`Messages`, `Requests`) and their conversions in src/convert.rs (`Enums`, `Devices`,
--               `Inputs`, `Instances`, `Commands`). `x_from_proto` is `TryFrom` or `From` out of a
--               message, `x_to_proto` is `From` into one. `Carried` says what a message can carry.
--   Cmdline     backends/andler-qemu/src/cmdline.rs: `build_args` and the functions it calls.
--   Qmp         backends/andler-qemu/src: `Monitor` and `Client` are qmp.rs, with `Polling` for its
--               loops; `Backend` and `Nics` are what backend.rs does with a running QEMU:
--               `ensure_qmp_connected`, `run_qmp_operation` and the four hotplug operations, with
--               `_at` behind their names. `Effects` is their monad: state, and an error or a value.
--   Hotplug     apps/daemon/src/daemon/hotplug_ops.rs: `Host` and `Operations`.
--   Snapshots   apps/daemon/src/daemon/disk_chain.rs: the queries on snapshot records and layers.
--   LogRing     apps/daemon/src/log_ring.rs: `LogRing` and `RingWriter`.
--   Examples    concrete inputs at which the theorems apply.
--
-- The supervisor reads `Fsm`, `Readiness` and `Config`; the command line reads `Config` and the id's
-- text. Channels are named by the generation of their operation, so that the task that holds a
-- channel and the supervisor that points to it see one value. Hotplug calls the backend, which sends
-- commands over `Qmp`, and then gives the supervisor the new configuration.
--
-- Bounds and fuel: u16, u32, u64 and usize are numbers, with the largest value as a test where the
-- source parses or multiplies with overflow checks. `to_text` has one step more than its number and
-- never runs out. `migrate_schema` has one round more than there are versions. `drain_lines` has
-- the length of its text, of which each round takes a character. `ancestors` takes its fuel as an
-- argument: the loop of the source does not end on a cycle of parents. The waits of the QMP client
-- have a round for each pause that fits their timeout, and two or three more; connecting has the 300
-- attempts of the source.
--
-- Not modelled: the TOML encoder (a parameter, `Toml`), the one-decimal format of floats (a
-- parameter of `format_size`), qemu-img (the parameters `info` and `DiskTools`), QEMU with its
-- socket and the clock (the parameter `Monitor`, with the law `IsClock` of clocks and, where a
-- theorem says so, the law `Releases` of a guest that releases its devices at once), the host's networks
-- (`NetworkService`), the guest agent, the JSON text of QMP, the value of `console_socket_path`,
-- which reads the environment (an argument), floats of progress, the audit log and tracing, sockets,
-- processes, SQLite, the transport of gRPC and its handlers, and the command line client.
mod Base
pub mod Config
pub mod Decimal
pub mod Words
pub mod Sizes
pub mod Paths
pub mod Draft
pub mod InstanceId
pub mod Keypath
pub mod Cmdline
pub mod Fsm
pub mod Readiness
pub mod Supervisor
pub mod Rpc
pub mod Qmp
pub mod Hotplug
pub mod Snapshots
pub mod LogRing
pub mod Examples
