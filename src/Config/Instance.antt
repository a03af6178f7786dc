-- ===== src/Config/Instance.antt =====
-- core/andler-core/src/config/instance.rs, `migrate_schema` of config/mod.rs, and
-- `AndroidProfile::resolve` of android_profile.rs.
use andler.Base.{
  ℕ, suc, ◌+◌, ◌/◌, Bool, true, false, not, ◌&&◌, ◌||◌, List, [], ◌∷◌, Text, Result, ok, err, ◌>>=◌,
  leb, ltb, ◌==◌, if◌then◌else◌,
}
use andler.Config.Hardware.{
  CpuConfig, cpu_default, MemoryConfig, memory_default, DiskConfig, DisplayConfig, display_default,
  RenderBackend, GpuConfig, gpu_default, AudioConfig, audio_default, InputConfig, input_default,
  FirmwareConfig, firmware_default, CdromBus, mib,
}
use andler.Config.Network.{
  NetworkConfig, network_default, ConfigError, zero_cores, zero_memory, zero_disk,
  hostmem_out_of_range, zero_resolution, extra_disk_zero, validate_network,
}
use andler.Config.Android.{AndroidProfile}

-- `InstanceId([u8; 32])`.
abbrev pub InstanceId : Type 0
InstanceId = List ℕ

pub data BackendKind : Type 0 where
  qemu : BackendKind

pub data InstanceKind : Type 0 where
  linux_vm : Text → CdromBus → InstanceKind
  android_vm : AndroidProfile → InstanceKind

pub record InstanceConfig : Type 0 where
  pub id : InstanceId
  pub name : Text
  pub kind : InstanceKind
  pub backend : BackendKind
  pub schema_version : ℕ
  pub cpu : CpuConfig
  pub memory : MemoryConfig
  pub disk : DiskConfig
  pub display : DisplayConfig
  pub gpu : GpuConfig
  pub network : NetworkConfig
  pub extra_disks : List DiskConfig
  pub extra_networks : List NetworkConfig
  pub firmware : FirmwareConfig
  pub audio : AudioConfig
  pub input : InputConfig
  pub autostart : Bool

-- `self.gpu.render_backend != RenderBackend::Cpu`
abbrev pub is_cpu : RenderBackend → Bool
is_cpu RenderBackend.cpu = true
is_cpu _ = false

-- `!(256..=16384).contains(&gpu_mib)`, on a backend that is not the CPU.
unfoldable pub check_hostmem : GpuConfig → Result (Unit {0}) ConfigError
check_hostmem gpu =
    let gpu_mib = gpu.hostmem_bytes / mib in
    if not (is_cpu gpu.render_backend) && not (leb 256 gpu_mib && leb gpu_mib 16384)
    then err (hostmem_out_of_range gpu_mib)
    else ok tt

unfoldable pub check_extra_disks : List DiskConfig → Result (Unit {0}) ConfigError
check_extra_disks [] = ok tt
check_extra_disks (disk ∷ rest) =
    let later = check_extra_disks rest in
    if disk.size_bytes == 0 then err (extra_disk_zero disk.path) else later

unfoldable pub check_sizes : InstanceConfig → Result (Unit {0}) ConfigError
check_sizes cfg =
    if cfg.cpu.cores == 0
    then err zero_cores
    else if cfg.memory.size_bytes == 0
    then err zero_memory
    else if cfg.disk.size_bytes == 0
    then err zero_disk
    else ok tt

unfoldable pub check_resolution : DisplayConfig → Result (Unit {0}) ConfigError
check_resolution display =
    if display.resolution.width == 0 || display.resolution.height == 0
    then err (zero_resolution display.resolution.width display.resolution.height)
    else ok tt

unfoldable pub validate : InstanceConfig → Result (Unit {0}) ConfigError
unfolding check_hostmem check_extra_disks check_sizes check_resolution validate_network
validate cfg = do
  _ ← check_sizes cfg
  _ ← check_hostmem cfg.gpu
  _ ← check_resolution cfg.display
  _ ← check_extra_disks cfg.extra_disks
  validate_network cfg.network

abbrev pub current_schema_version : ℕ
current_schema_version = 1

pub data SchemaError : Type 0 where
  newer unsupported : ℕ → SchemaError

-- Both arms of the `match` and the increment after it.
unfoldable pub migrate_one_step : InstanceConfig → Result InstanceConfig SchemaError
migrate_one_step cfg =
    if cfg.schema_version == 1
    then ok (record cfg { schema_version = cfg.schema_version + 1 })
    else err (unsupported cfg.schema_version)

-- The `while` loop, on fuel.
unfoldable pub migrate_loop : ℕ → InstanceConfig → Result InstanceConfig SchemaError
unfolding migrate_one_step
migrate_loop ℕ.zero cfg = err (unsupported cfg.schema_version)
migrate_loop (suc fuel) cfg =
    let rest = migrate_one_step cfg >>= migrate_loop fuel in
    if ltb cfg.schema_version current_schema_version then rest else ok cfg

-- One round more than there are versions to pass.
unfoldable pub migrate_schema : InstanceConfig → Result InstanceConfig SchemaError
unfolding migrate_loop
migrate_schema cfg =
    if ltb current_schema_version cfg.schema_version
    then err (newer cfg.schema_version)
    else migrate_loop (current_schema_version + 1) cfg

-- `AndroidProfile::resolve`; the random id of `InstanceId::new` is an argument.
unfoldable pub resolve : AndroidProfile → InstanceId → Text → DiskConfig → Text → InstanceConfig
resolve profile new_id instance_name disk ovmf_vars_path = record {
  id = new_id;
  name = instance_name;
  kind = android_vm profile;
  backend = qemu;
  schema_version = current_schema_version;
  cpu = cpu_default;
  memory = memory_default;
  disk = disk;
  display = display_default;
  gpu = gpu_default;
  network = network_default;
  extra_disks = [];
  extra_networks = [];
  firmware = firmware_default ovmf_vars_path;
  audio = audio_default;
  input = input_default;
  autostart = false;
}
