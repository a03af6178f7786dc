-- ===== src/Hotplug/Operations.antt =====
-- apps/daemon/src/daemon/hotplug_ops.rs: `attach_disk`, `detach_disk`, `attach_network` and
-- `detach_network`. Each is a chain of awaits; nothing else changes the configuration in between.
use andler.Base.{
  ℕ, zero, suc, Bool, true, false, ◌||◌, Option, none, some, List, [], ◌∷◌, ◌++◌, Text, text_eq,
  Result, ok, err, if◌then◌else◌, ◌==◌, length, any, is_empty, ltb,
}
use andler.Config.{InstanceConfig, DiskConfig, DiskFormat, NetworkConfig}
use andler.Supervisor.{Toml, set_config}
use andler.Qmp.Effects.{Io, pure, lift, catch, ◌>>=◌}
use andler.Qmp.Monitor.{Monitor}
use andler.Qmp.Backend.{
  RunningInstance, QemuError, handle_not_found, NetworkService, attach_disk_at, detach_disk_at,
}
use andler.Qmp.Nics.{attach_network_at, detach_network_at}
use andler.Hotplug.Host.{
  HotplugError, disk_already_attached, disk_not_attached, size_required, disk_empty,
  empty_device_model, network_not_attached, disk_failed, backend_failed, supervisor_gone, Delivery,
  answered, not_taken, not_answered, DiskTools, Host, hotplug_target, resolve_extra_disk_path,
}

abbrev pub hot_disk : Text → ℕ → DiskConfig
hot_disk path size = record {
  path = path;
  size_bytes = size;
  format = DiskFormat.qcow2;
  base_image = none;
  thin_provisioning = true;
  trim_on_shutdown = false;
  compact_on_shutdown = false;
  snapshot_timeout_secs = none;
}

-- `Vec::remove`.
unfoldable pub remove_at {ℓ} : {A : Type ℓ} → ℕ → List A → List A
remove_at n [] = []
remove_at zero (x ∷ xs) = xs
remove_at (suc n) (x ∷ xs) = x ∷ remove_at n xs

abbrev next_position : Option ℕ → Option ℕ
next_position none = none
next_position (some n) = some (suc n)

-- `position(|d| d.path == path)`.
unfoldable pub disk_position : Text → List DiskConfig → Option ℕ
disk_position path [] = none
disk_position path (disk ∷ rest) =
    let later = next_position (disk_position path rest) in
    if text_eq disk.path path then some zero else later

abbrev pub is_attached : Text → InstanceConfig → Bool
is_attached path config =
    text_eq config.disk.path path
    || any (λ (d : DiskConfig). text_eq d.path path) config.extra_disks

module _ {S D A : Type 0} where
  abbrev pub back_in_host :
      Host S D → RunningInstance S × Result A QemuError → Host S D × Result A HotplugError
  back_in_host host (instance, ok a) = (record host { running = some instance }, ok a)
  back_in_host host (instance, err e) =
      (record host { running = some instance }, err (backend_failed e))

  abbrev pub by_entry :
      Io (RunningInstance S) QemuError A
      → Host S D
      → Option (RunningInstance S)
      → Host S D × Result A HotplugError
  by_entry op host none = (host, err (backend_failed handle_not_found))
  by_entry op host (some instance) = back_in_host host (op instance)

  -- A call of the backend, which looks the handle up in its map.
  abbrev pub on_backend : Io (RunningInstance S) QemuError A → Io (Host S D) HotplugError A
  on_backend op host = by_entry op host host.running

module _ {S D : Type 0} (toml : Toml) where
  -- `SetConfig`, as the supervisor handles it. `sup.config()` is the last configuration on the watch
  -- channel.
  abbrev pub configured : (InstanceConfig → InstanceConfig) → Host S D → Host S D
  configured change host =
      let (sup, world) = set_config toml host.sup host.world (change host.sup.config_tx) none in
      record host { sup = sup; world = world }

  abbrev pub delivered :
      (InstanceConfig → InstanceConfig)
      → Host S D
      → Delivery
      → Host S D × Result (Unit {0}) HotplugError
  delivered change host answered = (configured change host, ok tt)
  delivered change host not_taken = (host, err supervisor_gone)
  delivered change host not_answered = (configured change host, err supervisor_gone)

  -- `sup.set_config(config, None).await?`.
  abbrev pub update_config :
      (InstanceConfig → InstanceConfig) → Io (Host S D) HotplugError (Unit {0})
  update_config change host = delivered change host host.delivery

abbrev pub measured_image : Text → Result ℕ Text → Result (ℕ × Bool) HotplugError
measured_image path (ok size) = if size == 0 then err (disk_empty path) else ok (size, false)
measured_image path (err e) = err (disk_failed e)

module _ {S D : Type 0} (tools : DiskTools D) where
  abbrev pub created_image :
      ℕ → Host S D → D × Result (Unit {0}) Text → Host S D × Result (ℕ × Bool) HotplugError
  created_image size host (images, ok done) = (record host { images = images }, ok (size, true))
  created_image size host (images, err e) = (record host { images = images }, err (disk_failed e))

  -- The size of the image, and whether it was created. A created image has the size that was asked
  -- for, which is not 0, so that the test for an empty image is on one that was there.
  unfoldable pub image_size : Text → ℕ → Io (Host S D) HotplugError (ℕ × Bool)
  image_size path size host =
      if tools.exists path host.images
      then (host, measured_image path (tools.virtual_size_bytes path host.images))
      else if size == 0
      then (host, err size_required)
      else created_image size host (tools.create path size host.images)

  abbrev pub discard_image : Bool → Text → Host S D → Host S D
  discard_image created path host =
      if created then record host { images = tools.remove_file path host.images } else host

abbrev pub found_disk : Text → Option ℕ → Result ℕ HotplugError
found_disk path none = err (disk_not_attached path)
found_disk path (some index) = ok index

abbrev pub add_disk : DiskConfig → InstanceConfig → InstanceConfig
add_disk disk cfg = record cfg { extra_disks = cfg.extra_disks ++ disk ∷ [] }

abbrev pub drop_disk : ℕ → InstanceConfig → InstanceConfig
drop_disk index cfg = record cfg { extra_disks = remove_at index cfg.extra_disks }

abbrev pub add_network : NetworkConfig → InstanceConfig → InstanceConfig
add_network network cfg = record cfg { extra_networks = cfg.extra_networks ++ network ∷ [] }

abbrev pub drop_network : ℕ → InstanceConfig → InstanceConfig
drop_network index cfg = record cfg { extra_networks = remove_at index cfg.extra_networks }

abbrev pub attached_network : ℕ → ℕ → Result (Unit {0}) HotplugError
attached_network index count =
    if ltb index count then ok tt else err (network_not_attached index count)

module _ {V S D : Type 0} (qmp : Monitor V S) (toml : Toml) where
  -- From the resolved path on.
  unfoldable pub plug_disk :
      DiskTools D → ℕ → Text → InstanceConfig → ℕ → Io (Host S D) HotplugError (Text × ℕ)
  plug_disk tools size_bytes path config index = do
    _ ← lift (if is_attached path config then err (disk_already_attached path) else ok tt)
    (size, created) ← image_size tools path size_bytes
    _ ←
        catch (on_backend (attach_disk_at qmp (hot_disk path size) index))
          (λ e later. (discard_image tools created path later, err e))
    _ ← update_config toml (add_disk (hot_disk path size))
    pure (path, index)

  unfoldable pub attach_disk :
      DiskTools D → Text → Option Text → ℕ → Io (Host S D) HotplugError (Text × ℕ)
  attach_disk tools instance_dir requested size_bytes = do
    _ ← hotplug_target
    config ← λ host. (host, ok host.sup.config_tx)
    path ← lift (resolve_extra_disk_path requested instance_dir (length config.extra_disks))
    plug_disk tools size_bytes path config (length config.extra_disks)

  unfoldable pub detach_disk : Text → Io (Host S D) HotplugError (Unit {0})
  detach_disk path = do
    _ ← hotplug_target
    index ← λ host. (host, found_disk path (disk_position path host.sup.config_tx.extra_disks))
    _ ← on_backend (detach_disk_at qmp index)
    update_config toml (drop_disk index)

  unfoldable pub attach_network :
      NetworkService S → Text → NetworkConfig → Io (Host S D) HotplugError ℕ
  attach_network nets instance_id network = do
    _ ← lift (if is_empty network.device_model then err empty_device_model else ok tt)
    _ ← hotplug_target
    index ← λ host. (host, ok (length host.sup.config_tx.extra_networks))
    _ ← on_backend (attach_network_at qmp nets instance_id network index)
    _ ← update_config toml (add_network network)
    pure index

  unfoldable pub detach_network : NetworkService S → ℕ → Io (Host S D) HotplugError (Unit {0})
  detach_network nets index = do
    _ ← hotplug_target
    _ ← λ host. (host, attached_network index (length host.sup.config_tx.extra_networks))
    _ ← on_backend (detach_network_at qmp nets index)
    update_config toml (drop_network index)
