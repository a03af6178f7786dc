-- ===== src/Examples/Plugs.antt =====
-- A QEMU whose guest releases its devices at once, and an instance whose disks are taken away.
use andler.Base.{
  Text, Result, Bool, ◌||◌, if◌then◌else◌, Bool-cases, inl, inr, text_eq_iff, false, ◌≡◌, ◌≢◌, refl,
  true, none, some, List, [], ◌∷◌, codes, text_eq, ok, err, arith,
}
use andler.Config.{InstanceConfig, DiskConfig, disk_default}
use andler.Fsm.{running}
use andler.Cmdline.Drives.{extra_disk_drive_id, extra_disk_device_id}
use andler.Supervisor.{spawn_supervisor}
use andler.Qmp.Monitor.{Message, QmpError, QmpCommand, Monitor, reply, device_del, blockdev_del}
use andler.Qmp.Backend.{RunningInstance, nat_net}
use andler.Qmp.Releases.{Releases, StillHas, log_of}
use andler.Hotplug.Host.{
  answered, DiskTools, Host, hotplug_target, disk_not_attached, path_not_absolute,
  resolve_extra_disk_path,
}
use andler.Hotplug.Operations.{drop_disk, detach_disk, disk_position}
use andler.Hotplug.Running.{IsUp}
use andler.Hotplug.Shift.{later_detach_misses}
use andler.Hotplug.Untouched.{IsKept}
use andler.Hotplug.Failures.{unplug_disk, run_request, failed_hotplug_keeps}
use andler.Hotplug.DiskPath.{resolve_extra_disk_path_cases}
use andler.Examples.Data.{vm, vm_id, names, quiet}

-- Whether a device, or a block node, was taken away before.
abbrev told_device : Text → List QmpCommand → Bool
unfolding text_eq
told_device device [] = false
told_device device (device_del other ∷ rest) = text_eq other device || told_device device rest
told_device device (c ∷ rest) = told_device device rest

abbrev told_node : Text → List QmpCommand → Bool
unfolding text_eq
told_node node [] = false
told_node node (blockdev_del other ∷ rest) = text_eq other node || told_node node rest
told_node node (c ∷ rest) = told_node node rest

abbrev Answer : Type 0
Answer = List QmpCommand × Result (List (Message (Unit {0}))) QmpError

abbrev taken : QmpCommand → List QmpCommand → Answer
taken c s = (c ∷ s, ok (reply (record { return_value = some tt; error = none }) ∷ []))

abbrev refusal : List QmpCommand → Answer
refusal s = (
  s,
  ok (
      reply (record {
        return_value = none;
        error = some (record { class = codes "DeviceNotFound"; desc = codes "not found" });
      })
      ∷ []),
)

-- It remembers what it was told, and takes nothing away twice.
abbrev careful : QmpCommand → List QmpCommand → Answer
careful (device_del device) s =
    if told_device device s then refusal s else taken (device_del device) s
careful (blockdev_del node) s = if told_node node s then refusal s else taken (blockdev_del node) s
careful c s = taken c s

abbrev willing : Monitor (Unit {0}) (List QmpCommand)
willing = record {
  exchange = careful;
  greet = λ s. (s, ok tt);
  is_alive = λ s. true;
  now = λ s. 0;
  sleep = λ ms s. s;
}

text_ne : (s t : Text) → s ≢ t → text_eq s t ≡ false
text_ne s t other = elim (Bool-cases (text_eq s t)) [
  | inl same ↦ absurd (other ((text_eq_iff s t).0 same))
  | inr e ↦ e
]

abbrev willing_releases : Releases willing
unfolding text_eq
willing_releases = record {
  HasDisk = λ device node s. (told_device device s ≡ false) × (told_node node s ≡ false);
  log = λ s. s;
  after = λ c s. c ∷ s;
  value = λ c s. tt;
  device_released = λ device node s has. rw (has.0) refl;
  node_freed = λ device node s has. rw (has.1) refl;
  others_kept = λ device node device' node' s has has' d n.
      (rw (text_ne device device' d) (has'.0), rw (text_ne node node' n) (has'.1));
  logged = λ c s. refl;
}

abbrev images : DiskTools (Unit {0})
images = record {
  exists = λ path s. true;
  create = λ path size s. (s, ok tt);
  virtual_size_bytes = λ path s. ok 4096;
  remove_file = λ path s. s;
}

abbrev disk_a : DiskConfig
disk_a = disk_default (codes "/a")

abbrev disk_b : DiskConfig
disk_b = disk_default (codes "/b")

abbrev disk_c : DiskConfig
disk_c = disk_default (codes "/c")

abbrev with_disks : InstanceConfig
with_disks = record vm { extra_disks = disk_a ∷ disk_b ∷ disk_c ∷ [] }

abbrev qemu_process : RunningInstance (List QmpCommand)
qemu_process = record {
  machine = [];
  qmp_client = true;
  network_info = nat_net;
  extra_network_infos = [];
  qmp_reconnects = 0;
}

abbrev plugged_in : Host (List QmpCommand) (Unit {0})
plugged_in = record {
  sup = spawn_supervisor vm_id with_disks running (some (codes "h"));
  world = quiet;
  running = some qemu_process;
  images = tt;
  delivery = answered;
}

plugged_in-IsUp : IsUp plugged_in
unfolding spawn_supervisor
plugged_in-IsUp = record {
  agrees = record {
    state_agrees = refl;
    handle_agrees = refl;
    config_agrees = refl;
    ladder_agrees = refl;
    profile_agrees = refl;
  };
  up = refl;
  handle = codes "h";
  has_handle = refl;
  instance = qemu_process;
  entry = refl;
  connected = refl;
  answers = refl;
}

-- Once the first disk is gone, the device that is taken away for the third is the second's.
later_detach_misses_example :
    let (first, q) = detach_disk willing names (codes "/a") plugged_in in
    let (second, r) = detach_disk willing names (codes "/c") first in
    (q ≡ ok tt)
    × (r ≡ ok tt)
    × (second.sup.config_tx ≡ drop_disk 1 (drop_disk 0 plugged_in.sup.config_tx))
    × (log_of willing willing_releases second.running
        ≡ blockdev_del (extra_disk_drive_id 1)
          ∷ device_del (extra_disk_device_id 1)
          ∷ blockdev_del (extra_disk_drive_id 0)
          ∷ device_del (extra_disk_device_id 0)
          ∷ [])
    × StillHas willing willing_releases 2 second.running
unfolding spawn_supervisor text_eq disk_position willing_releases plugged_in-IsUp
later_detach_misses_example =
    later_detach_misses willing willing_releases names (codes "/a") (codes "/c") plugged_in
      plugged_in-IsUp 0 1 refl refl (omega arith) (refl, refl) (refl, refl) (refl, refl)

-- A disk that is not there.
failed_hotplug_keeps_example :
    IsKept plugged_in
      (disk_not_attached (codes "/d"))
      (run_request willing names (unplug_disk (codes "/d")) plugged_in).0
unfolding spawn_supervisor text_eq disk_position detach_disk hotplug_target
failed_hotplug_keeps_example =
    failed_hotplug_keeps willing names (unplug_disk (codes "/d")) plugged_in
      (disk_not_attached (codes "/d")) refl

resolve_extra_disk_path_cases_example :
    resolve_extra_disk_path (some (codes "disk.qcow2")) (codes "/vm/a") 0
    ≡ err (path_not_absolute (codes "disk.qcow2"))
resolve_extra_disk_path_cases_example =
    resolve_extra_disk_path_cases (codes "disk.qcow2") (codes "/vm/a") 0 (λ e. cc)
