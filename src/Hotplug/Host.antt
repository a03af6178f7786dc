-- ===== src/Hotplug/Host.antt =====
-- apps/daemon/src/daemon/hotplug_ops.rs: what the operations work on, `hotplug_target` and
-- `resolve_extra_disk_path`.
use andler.Base.{
  ℕ, Bool, true, false, not, ◌&&◌, Option, none, some, [], ◌∷◌, ◌++◌, Text, codes, Result, ok, err,
  if◌then◌else◌, ◌==◌,
}
use andler.Decimal.{to_text}
use andler.Fsm.{InstanceState}
use andler.Paths.{parent, join}
use andler.Supervisor.{Supervisor, World}
use andler.Qmp.Effects.{Io}
use andler.Qmp.Backend.{RunningInstance, QemuError, handle_not_found}

-- `DaemonError`, as far as hotplug returns it; the id of the instance is left out.
pub data HotplugError : Type 0 where
  requires_running : InstanceState → HotplugError
  disk_already_attached disk_not_attached path_not_absolute : Text → HotplugError
  size_required empty_device_model supervisor_gone : HotplugError
  disk_empty : Text → HotplugError
  network_not_attached : ℕ → ℕ → HotplugError
  disk_failed : Text → HotplugError
  backend_failed : QemuError → HotplugError

-- qemu-img and the file system, on the images `D`.
pub record DiskTools (D : Type 0) : Type 0 where
  pub exists : Text → D → Bool
  pub create : Text → ℕ → Io D Text (Unit {0})
  pub virtual_size_bytes : Text → D → Result ℕ Text
  pub remove_file : Text → D → D

-- What becomes of a command to the supervisor, whose task may end at any time: it is answered; it is
-- never taken; or it is taken, and the answer is lost.
pub data Delivery : Type 0 where
  answered not_taken not_answered : Delivery

-- The instance's supervisor with what it shares, the backend's entry for its handle, and the images.
pub record Host (S D : Type 0) : Type 0 where
  pub sup : Supervisor
  pub world : World
  pub running : Option (RunningInstance S)
  pub images : D
  pub delivery : Delivery

abbrev pub takes_hotplug : InstanceState → Bool
takes_hotplug InstanceState.running = true
takes_hotplug InstanceState.paused = true
takes_hotplug other = false

abbrev pub target_of : InstanceState → Option Text → Result (Unit {0}) HotplugError
target_of state none =
    if takes_hotplug state
    then err (backend_failed handle_not_found)
    else err (requires_running state)
target_of state (some handle) = if takes_hotplug state then ok tt else err (requires_running state)

module _ {S D : Type 0} where
  -- By the watch channels; QEMU is the only backend there is.
  unfoldable pub hotplug_target : Io (Host S D) HotplugError (Unit {0})
  hotplug_target host = (host, target_of host.sup.state_tx host.sup.handle_tx)

abbrev pub is_absolute : Text → Bool
is_absolute [] = false
is_absolute (c ∷ rest) = c == b'/'

abbrev pub has_parent : Option Text → Bool
has_parent none = false
has_parent (some dir) = true

abbrev pub requested_path : Option Text → Text → ℕ → Text
requested_path none instance_dir index =
    join instance_dir (codes "disk-extra" ++ to_text index ++ codes ".qcow2")
requested_path (some path) instance_dir index =
    if not (is_absolute path) && not (has_parent (parent path))
    then join instance_dir path
    else path

unfoldable pub resolve_extra_disk_path : Option Text → Text → ℕ → Result Text HotplugError
resolve_extra_disk_path requested instance_dir index =
    let path = requested_path requested instance_dir index in
    if is_absolute path then ok path else err (path_not_absolute path)
