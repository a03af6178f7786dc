-- ===== src/Keypath/Table.antt =====
-- core/andler-core/src/config/keypath.rs: `ConfigKey` and the rows of `config_keys`, in six parts.
use andler.Base.{
  Bool, true, false, Option, none, some, List, [], ◌∷◌, ◌++◌, Text, codes, Result, ok, ◌>>=◌,
  length, ℕ,
}
use andler.Decimal.{to_text}
use andler.Config.{InstanceConfig}
use andler.InstanceId.{fmt}
use andler.Sizes.{format_size}
use andler.Keypath.Values.{
  KeyFault, parse_u32, parse_bool, parse_enum, parse_size_above_zero, parse_name, bool_str,
  priority_table, priority_name, engine_table, engine_name, nat_table, nat_name, audio_table,
  audio_name, device_table, device_name, pointer_table, pointer_name,
}
use andler.Keypath.Rows.{
  snapshot_timeout_get, snapshot_timeout_read, resolution_get, resolution_read, render_backend_get,
  render_backend_read, network_mode_get, network_mode_read, affinity_get, port_forwards_get,
  format_name, kind_get, android_arm_translator_get, android_boot_mode_get, android_version_get,
  counted,
}

-- A setter gives the configuration that it leaves; on an error there is none, and the old one stays.
abbrev pub Setter : Type 0
Setter = InstanceConfig → Text → Result InstanceConfig KeyFault

pub record ConfigKey : Type 0 where
  pub key : Text
  pub get : InstanceConfig → Text
  pub set : Option Setter
  pub immutable_reason : Option Text
  pub live : Bool

-- A setter that reads a value and puts it into the configuration.
abbrev pub setter :
    {A : Type 0} → (Text → Result A KeyFault) → (InstanceConfig → A → InstanceConfig) → Setter
setter read put cfg value = read value >>= λ x. ok (put cfg x)

abbrev or_none : Option Text → Text
or_none none = codes "none"
or_none (some path) = path

abbrev row : Text → (InstanceConfig → Text) → Setter → Bool → ConfigKey
row key get set live = record {
  key = key;
  get = get;
  set = some set;
  immutable_reason = none;
  live = live;
}

abbrev row_immutable : Text → (InstanceConfig → Text) → Text → ConfigKey
row_immutable key get reason = record {
  key = key;
  get = get;
  set = none;
  immutable_reason = some reason;
  live = false;
}

module _ (one_decimal : ℕ → ℕ → Text) where
  unfoldable pub instance_keys : List ConfigKey
  instance_keys =
      row_immutable (codes "id") (λ cfg. fmt cfg.id)
        (codes "the instance id identifies the directory; it cannot be changed")
      ∷ row (codes "name") (λ cfg. cfg.name) (setter parse_name (λ cfg x. record cfg { name = x }))
          false
      ∷ row_immutable (codes "kind") (λ cfg. kind_get cfg.kind)
          (codes "the VM kind is fixed at creation; create a new instance instead")
      ∷ row_immutable (codes "backend") (λ cfg. codes "qemu")
          (codes "the only supported backend is QEMU")
      ∷ row_immutable (codes "schema_version") (λ cfg. to_text cfg.schema_version)
          (codes "managed by andlerd schema migrations")
      ∷ row (codes "autostart") (λ cfg. bool_str cfg.autostart)
          (setter parse_bool (λ cfg x. record cfg { autostart = x })) false
      ∷ []

  unfoldable pub machine_keys : List ConfigKey
  machine_keys =
      row (codes "cpu.cores") (λ cfg. to_text cfg.cpu.cores)
        (setter parse_u32 (λ cfg x. record cfg { cpu = record (cfg.cpu) { cores = x } })) false
      ∷ row (codes "cpu.sockets") (λ cfg. to_text cfg.cpu.sockets)
          (setter parse_u32 (λ cfg x. record cfg { cpu = record (cfg.cpu) { sockets = x } })) false
      ∷ row (codes "cpu.threads") (λ cfg. to_text cfg.cpu.threads)
          (setter parse_u32 (λ cfg x. record cfg { cpu = record (cfg.cpu) { threads = x } })) false
      ∷ row (codes "cpu.priority") (λ cfg. priority_name cfg.cpu.priority)
          (setter (parse_enum priority_table)
            (λ cfg x. record cfg { cpu = record (cfg.cpu) { priority = x } }))
          false
      ∷ row_immutable (codes "cpu.affinity") (λ cfg. affinity_get cfg.cpu.affinity)
          (codes "edit cpu.affinity in instance.toml directly")
      ∷ row (codes "memory.size_bytes") (λ cfg. format_size one_decimal cfg.memory.size_bytes)
          (setter parse_size_above_zero
            (λ cfg x. record cfg { memory = record (cfg.memory) { size_bytes = x } }))
          false
      ∷ row (codes "memory.ballooning") (λ cfg. bool_str cfg.memory.ballooning)
          (setter parse_bool
            (λ cfg x. record cfg { memory = record (cfg.memory) { ballooning = x } }))
          false
      ∷ row (codes "memory.zram") (λ cfg. bool_str cfg.memory.zram)
          (setter parse_bool (λ cfg x. record cfg { memory = record (cfg.memory) { zram = x } }))
          false
      ∷ row (codes "memory.ksm") (λ cfg. bool_str cfg.memory.ksm)
          (setter parse_bool (λ cfg x. record cfg { memory = record (cfg.memory) { ksm = x } }))
          false
      ∷ row (codes "memory.mem_lock") (λ cfg. bool_str cfg.memory.mem_lock)
          (setter parse_bool
            (λ cfg x. record cfg { memory = record (cfg.memory) { mem_lock = x } }))
          false
      ∷ row (codes "memory.hugepages") (λ cfg. bool_str cfg.memory.hugepages)
          (setter parse_bool
            (λ cfg x. record cfg { memory = record (cfg.memory) { hugepages = x } }))
          false
      ∷ []

  unfoldable pub disk_keys : List ConfigKey
  disk_keys =
      row_immutable (codes "disk.path") (λ cfg. cfg.disk.path)
        (codes "the disk lives at its path; create a new instance to move it")
      ∷ row_immutable (codes "disk.size_bytes") (λ cfg. format_size one_decimal cfg.disk.size_bytes)
          (codes "use `andler disk resize` to grow the disk")
      ∷ row_immutable (codes "disk.format") (λ cfg. format_name cfg.disk.format)
          (codes "the disk format is fixed at creation")
      ∷ row_immutable (codes "disk.base_image") (λ cfg. or_none cfg.disk.base_image)
          (codes "the base image is pinned at creation")
      ∷ row (codes "disk.thin_provisioning") (λ cfg. bool_str cfg.disk.thin_provisioning)
          (setter parse_bool
            (λ cfg x. record cfg { disk = record (cfg.disk) { thin_provisioning = x } }))
          false
      ∷ row (codes "disk.trim_on_shutdown") (λ cfg. bool_str cfg.disk.trim_on_shutdown)
          (setter parse_bool
            (λ cfg x. record cfg { disk = record (cfg.disk) { trim_on_shutdown = x } }))
          false
      ∷ row (codes "disk.compact_on_shutdown") (λ cfg. bool_str cfg.disk.compact_on_shutdown)
          (setter parse_bool
            (λ cfg x. record cfg { disk = record (cfg.disk) { compact_on_shutdown = x } }))
          false
      ∷ row (codes "disk.snapshot_timeout_secs")
          (λ cfg. snapshot_timeout_get cfg.disk.snapshot_timeout_secs)
          (setter snapshot_timeout_read
            (λ cfg x. record cfg { disk = record (cfg.disk) { snapshot_timeout_secs = x } }))
          false
      ∷ []

  unfoldable pub display_keys : List ConfigKey
  display_keys =
      row (codes "display.resolution") (λ cfg. resolution_get cfg.display.resolution)
        (setter resolution_read
          (λ cfg x. record cfg { display = record (cfg.display) { resolution = x } }))
        true
      ∷ row (codes "display.dpi") (λ cfg. to_text cfg.display.dpi)
          (setter parse_u32 (λ cfg x. record cfg { display = record (cfg.display) { dpi = x } }))
          false
      ∷ row (codes "display.fps_limit") (λ cfg. to_text cfg.display.fps_limit)
          (setter parse_u32
            (λ cfg x. record cfg { display = record (cfg.display) { fps_limit = x } }))
          false
      ∷ row (codes "display.engine") (λ cfg. engine_name cfg.display.display_engine)
          (setter (parse_enum engine_table)
            (λ cfg x. record cfg { display = record (cfg.display) { display_engine = x } }))
          false
      ∷ row (codes "display.fullscreen") (λ cfg. bool_str cfg.display.fullscreen)
          (setter parse_bool
            (λ cfg x. record cfg { display = record (cfg.display) { fullscreen = x } }))
          false
      ∷ row (codes "gpu.render_backend") (λ cfg. render_backend_get cfg.gpu.render_backend)
          (setter render_backend_read
            (λ cfg x. record cfg { gpu = record (cfg.gpu) { render_backend = x } }))
          false
      ∷ row (codes "gpu.hostmem_bytes") (λ cfg. format_size one_decimal cfg.gpu.hostmem_bytes)
          (setter parse_size_above_zero
            (λ cfg x. record cfg { gpu = record (cfg.gpu) { hostmem_bytes = x } }))
          false
      ∷ row (codes "gpu.blob") (λ cfg. bool_str cfg.gpu.blob)
          (setter parse_bool (λ cfg x. record cfg { gpu = record (cfg.gpu) { blob = x } })) false
      ∷ row (codes "gpu.gl") (λ cfg. bool_str cfg.gpu.gl)
          (setter parse_bool (λ cfg x. record cfg { gpu = record (cfg.gpu) { gl = x } })) false
      ∷ []

  unfoldable pub device_keys : List ConfigKey
  device_keys =
      row (codes "network.mode") (λ cfg. network_mode_get cfg.network.mode)
        (setter network_mode_read
          (λ cfg x. record cfg { network = record (cfg.network) { mode = x } }))
        false
      ∷ row (codes "network.device_model") (λ cfg. cfg.network.device_model)
          (setter parse_name
            (λ cfg x. record cfg { network = record (cfg.network) { device_model = x } }))
          false
      ∷ row (codes "network.nat_backend") (λ cfg. nat_name cfg.network.nat_backend)
          (setter (parse_enum nat_table)
            (λ cfg x. record cfg { network = record (cfg.network) { nat_backend = x } }))
          false
      ∷ row_immutable (codes "network.port_forwards")
          (λ cfg. port_forwards_get cfg.network.port_forwards)
          (codes "port forwards are fixed at create time (QEMU netdev hostfwd)")
      ∷ row (codes "audio.backend") (λ cfg. audio_name cfg.audio.backend)
          (setter (parse_enum audio_table)
            (λ cfg x. record cfg { audio = record (cfg.audio) { backend = x } }))
          false
      ∷ row (codes "audio.device") (λ cfg. device_name cfg.audio.device)
          (setter (parse_enum device_table)
            (λ cfg x. record cfg { audio = record (cfg.audio) { device = x } }))
          false
      ∷ row (codes "input.pointer_mode") (λ cfg. pointer_name cfg.input.pointer_mode)
          (setter (parse_enum pointer_table)
            (λ cfg x. record cfg { input = record (cfg.input) { pointer_mode = x } }))
          false
      ∷ row (codes "input.hide_host_cursor") (λ cfg. bool_str cfg.input.hide_host_cursor)
          (setter parse_bool
            (λ cfg x. record cfg { input = record (cfg.input) { hide_host_cursor = x } }))
          false
      ∷ row (codes "input.clipboard_enabled") (λ cfg. bool_str cfg.input.clipboard_enabled)
          (setter parse_bool
            (λ cfg x. record cfg { input = record (cfg.input) { clipboard_enabled = x } }))
          false
      ∷ []

  unfoldable pub fixed_keys : List ConfigKey
  fixed_keys =
      row (codes "firmware.enable_uefi") (λ cfg. bool_str cfg.firmware.enable_uefi)
        (setter parse_bool
          (λ cfg x. record cfg { firmware = record (cfg.firmware) { enable_uefi = x } }))
        false
      ∷ row_immutable (codes "firmware.ovmf_code_path") (λ cfg. cfg.firmware.ovmf_code_path)
          (codes "set via ANDLERD_OVMF_CODE or firmware discovery")
      ∷ row_immutable (codes "firmware.ovmf_vars_path") (λ cfg. cfg.firmware.ovmf_vars_path)
          (codes "VARS.fd belongs to the instance directory")
      ∷ row_immutable (codes "kind.android_profile.arm_translator")
          (λ cfg. android_arm_translator_get cfg.kind)
          (codes "use the dedicated arm-translator command; switching rebuilds the image")
      ∷ row_immutable (codes "kind.android_profile.boot_mode")
          (λ cfg. android_boot_mode_get cfg.kind)
          (codes "use the dedicated boot-mode command; switching rewrites the guest image")
      ∷ row_immutable (codes "kind.android_profile.android_version")
          (λ cfg. android_version_get cfg.kind) (codes "the Android version is fixed at creation")
      ∷ row_immutable (codes "extra_disks")
          (λ cfg. counted (length cfg.extra_disks) (codes " disk(s)"))
          (codes "use `andler attach disk` / `andler detach disk`")
      ∷ row_immutable (codes "extra_networks")
          (λ cfg. counted (length cfg.extra_networks) (codes " nic(s)"))
          (codes "use `andler attach net` / `andler detach net`")
      ∷ []

  unfoldable pub config_keys : List ConfigKey
  unfolding instance_keys machine_keys disk_keys display_keys device_keys fixed_keys
  config_keys =
      instance_keys ++ machine_keys ++ disk_keys ++ display_keys ++ device_keys ++ fixed_keys
