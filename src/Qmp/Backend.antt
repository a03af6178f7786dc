-- ===== src/Qmp/Backend.antt =====
-- backends/andler-qemu/src/backend.rs: `RunningInstance`, the contract of `run_qmp_operation`, and
-- what `QemuBackend` does with a running QEMU. The lock around the map of instances is held for the
-- whole of each operation, so that each is one step.
use andler.Base.{
  ℕ, zero, suc, ◌+◌, Bool, true, false, List, Text, codes, Result, ok, err, if◌then◌else◌,
}
use andler.Config.{DiskFormat, DiskConfig}
use andler.Cmdline.Machine.{BackendError}
use andler.Cmdline.Drives.{extra_disk_drive_id, extra_disk_device_id}
use andler.Qmp.Effects.{Io, fail, catch, ◌>>=◌}
use andler.Qmp.Monitor.{
  QmpError, connect_failed, not_found, connection_refused, other_kind, parse_error, command_failed,
  Monitor, blockdev_add, blockdev_del,
}
use andler.Qmp.Client.{connect, run_command, device_add_block_at, detach_block_device}

pub data NetworkInfo : Type 0 where
  bridged : Text → Text → NetworkInfo
  isolated_net nat_net : NetworkInfo

-- A `QmpClient` has no state but its socket, so that it is here or not. `machine` is the process with
-- its sockets; `qmp_reconnects` is the instance's share of the backend's counter.
pub record RunningInstance (S : Type 0) : Type 0 where
  pub machine : S
  pub qmp_client : Bool
  pub network_info : NetworkInfo
  pub extra_network_infos : List (Text × NetworkInfo)
  pub qmp_reconnects : ℕ

-- `BackendError`, with the error itself where the source has its text.
pub data QemuError : Type 0 where
  handle_not_found process_not_running : QemuError
  qmp_failed : QmpError → QemuError
  network_failed : Text → QemuError
  not_configurable : BackendError → QemuError

-- The host's networks: `DefaultNetworkService`.
pub record NetworkService (S : Type 0) : Type 0 where
  pub setup_bridge : Text → Text → Io S Text (Unit {0})
  pub teardown_bridge : Text → Text → S → S
  pub teardown_isolated : S → S

unfoldable pub is_retryable : QmpError → Bool
is_retryable (connect_failed not_found) = true
is_retryable (connect_failed connection_refused) = true
is_retryable (connect_failed other_kind) = false
is_retryable other = false

-- Errors that QEMU answered with, or that a second run would not change.
unfoldable pub is_command_level : QmpError → Bool
is_command_level (command_failed e) = true
is_command_level parse_error = true
is_command_level other = false

module _ {S A : Type 0} where
  -- A step of the machine, in the instance.
  abbrev pub replace_machine :
      RunningInstance S → S × Result A QmpError → RunningInstance S × Result A QmpError
  replace_machine instance (s, r) = (record instance { machine = s }, r)

  abbrev pub on_machine : Io S QmpError A → Io (RunningInstance S) QmpError A
  on_machine op instance = replace_machine instance (op instance.machine)

  -- `map_err(qmp_error_to_backend_error)`.
  abbrev pub or_backend_error :
      Io (RunningInstance S) QmpError A → Io (RunningInstance S) QemuError A
  or_backend_error m = catch m (λ e. fail (qmp_failed e))

module _ {V S : Type 0} (qmp : Monitor V S) where
  -- The arms of the `match` on an attempt; `retry` goes on with the loop.
  unfoldable pub after_attempt :
      (RunningInstance S → QmpError → RunningInstance S × Result (Unit {0}) QmpError)
      → RunningInstance S
      → S × Result (Unit {0}) QmpError
      → RunningInstance S × Result (Unit {0}) QmpError
  after_attempt retry instance (s, ok client) =
      (record instance { machine = s; qmp_client = true }, ok tt)
  after_attempt retry instance (s, err e) =
      if is_retryable e
      then if qmp.is_alive s
        then retry (record instance { machine = qmp.sleep 100 s }) e
        else (record instance { machine = s }, err e)
      else (record instance { machine = s }, err e)

  -- The attempts that are left after this one; the last error is the result of the loop.
  unfoldable pub connect_loop : ℕ → Io (RunningInstance S) QmpError (Unit {0})
  connect_loop zero instance =
      after_attempt (λ later e. (later, err e)) instance (connect qmp instance.machine)
  connect_loop (suc n) instance =
      after_attempt (λ later e. connect_loop n later) instance (connect qmp instance.machine)

  -- `for _ in 0..300`.
  unfoldable pub ensure_qmp_connected : Io (RunningInstance S) QmpError (Unit {0})
  ensure_qmp_connected instance =
      if instance.qmp_client then (instance, ok tt) else connect_loop 299 instance

  unfoldable pub diagnose_and_reset_qmp : Io (RunningInstance S) QemuError (Unit {0})
  diagnose_and_reset_qmp instance =
      let reset : RunningInstance S = record instance {
        qmp_client = false;
        qmp_reconnects = instance.qmp_reconnects + 1;
      } in
      (reset, if qmp.is_alive instance.machine then ok tt else err process_not_running)

  module _ {A : Type 0} (op : Io S QmpError A) where
    -- After an error of the connection: the second run.
    abbrev pub run_again : Io (RunningInstance S) QemuError A
    run_again = do
      _ ← diagnose_and_reset_qmp
      _ ← or_backend_error ensure_qmp_connected
      or_backend_error (on_machine op)

    abbrev pub judge_first : QmpError → Io (RunningInstance S) QemuError A
    judge_first e = if is_command_level e then fail (qmp_failed e) else run_again

    unfoldable pub run_qmp_operation : Io (RunningInstance S) QemuError A
    run_qmp_operation = do
      _ ← or_backend_error ensure_qmp_connected
      catch (on_machine op) judge_first

abbrev pub format_str : DiskFormat → Text
format_str DiskFormat.qcow2 = codes "qcow2"
format_str DiskFormat.raw = codes "raw"
format_str DiskFormat.vdi = codes "vdi"

abbrev pub unplug_timeout : ℕ
unplug_timeout = 15000

module _ {V S : Type 0} (qmp : Monitor V S) where
  -- A failed `device_add` takes the block node back; the result of that is not looked at.
  unfoldable pub plug_block : Text → Text → Text → Text → ℕ → Io S QmpError (Unit {0})
  plug_block drive_id device_id path format index = do
    _ ← run_command qmp (blockdev_add drive_id path format)
    catch (device_add_block_at qmp device_id drive_id index)
        (λ e s. ((run_command qmp (blockdev_del drive_id) s).0, err e))

  unfoldable pub attach_disk_at : DiskConfig → ℕ → Io (RunningInstance S) QemuError (Unit {0})
  attach_disk_at disk index = run_qmp_operation qmp (
      plug_block (extra_disk_drive_id index) (extra_disk_device_id index) disk.path
        (format_str disk.format) index)

  unfoldable pub detach_disk_at : ℕ → Io (RunningInstance S) QemuError (Unit {0})
  detach_disk_at index = run_qmp_operation qmp (
      detach_block_device qmp (extra_disk_device_id index) (extra_disk_drive_id index)
        unplug_timeout)
