-- ===== src/Draft.antt =====
-- core/andler-core/src/config/draft.rs: what a client asks for, and the configuration it resolves to.
-- The texts of the errors are values.
pub mod Accepted
pub mod Valid
use andler.Base.{
  ℕ, ◌*◌, Bool, true, false, ◌||◌, Option, none, some, [], Text, Result, ok, err, ◌>>=◌,
  if◌then◌else◌, ltb, is_empty,
}
use andler.Config.{
  InstanceId, InstanceKind, linux_vm, android_vm, InstanceConfig, CdromBus, CpuConfig, MemoryConfig,
  DisplayConfig, GpuConfig, NetworkConfig, AudioConfig, InputConfig, FirmwareConfig, DiskConfig,
  AndroidProfile, cpu_default, memory_default, display_default, gpu_default, network_default,
  audio_default, input_default, disk_standalone, disk_overlay, qemu, current_schema_version, gib,
}
use andler.Decimal.{u64_max}

abbrev pub default_disk_gib : ℕ
default_disk_gib = 256

abbrev pub default_overlay_gib : ℕ
default_overlay_gib = 128

pub record HostFirmware : Type 0 where
  pub ovmf_code_path : Option Text
  pub ovmf_vars_template : Option Text

pub data DraftKind : Type 0 where
  linux : Text → CdromBus → DraftKind
  android : AndroidProfile → DraftKind

-- A base image, with whether the disk is an overlay on it.
pub data DiskSource : Type 0 where
  fresh : DiskSource
  base_image : Text → Bool → DiskSource

pub record DiskDraft : Type 0 where
  pub path : Text
  pub source : DiskSource
  pub size_gib : Option ℕ
  pub compact_on_shutdown : Bool
  pub snapshot_timeout_secs : Option ℕ

pub record FirmwareDraft : Type 0 where
  pub enable_uefi : Option Bool
  pub ovmf_vars_template : Option Text

pub record ConfigDraft : Type 0 where
  pub name : Text
  pub kind : DraftKind
  pub disk : DiskDraft
  pub firmware : FirmwareDraft
  pub autostart : Bool
  pub cpu : Option CpuConfig
  pub memory : Option MemoryConfig
  pub display : Option DisplayConfig
  pub gpu : Option GpuConfig
  pub network : Option NetworkConfig
  pub audio : Option AudioConfig
  pub input : Option InputConfig

pub data Section : Type 0 where
  cpu memory display gpu network audio input : Section

pub data DraftError : Type 0 where
  too_large : ℕ → DraftError
  section_unsupported : Section → DraftError
  autostart_unsupported : DraftError

abbrev pub unwrap_or {ℓ} : {A : Type ℓ} → Option A → A → A
unwrap_or none d = d
unwrap_or (some x) d = x

abbrev default_gib : DiskSource → ℕ
default_gib fresh = default_disk_gib
default_gib (base_image path linked) = default_overlay_gib

abbrev pub gib_of : DiskDraft → ℕ
gib_of draft = unwrap_or draft.size_gib (default_gib draft.source)

abbrev pub disk_of : DiskSource → Text → ℕ → DiskConfig
disk_of fresh path size_bytes = disk_standalone path size_bytes
disk_of (base_image base true) path size_bytes = disk_overlay path base size_bytes
disk_of (base_image base false) path size_bytes = disk_standalone path size_bytes

abbrev pub drafted_disk : DiskDraft → DiskConfig
drafted_disk draft = record (disk_of draft.source draft.path (gib_of draft * gib)) {
  compact_on_shutdown = draft.compact_on_shutdown;
  snapshot_timeout_secs = draft.snapshot_timeout_secs;
}

-- `checked_mul`.
unfoldable pub resolve_disk : DiskDraft → Result DiskConfig DraftError
resolve_disk draft =
    if ltb u64_max (gib_of draft * gib)
    then err (too_large (gib_of draft))
    else ok (drafted_disk draft)

abbrev pub is_some : {A : Type 0} → Option A → Bool
is_some none = false
is_some (some x) = true

-- `filter(|path| !path.as_os_str().is_empty())`.
abbrev non_empty : Option Text → Option Text
non_empty none = none
non_empty (some path) = if is_empty path then none else some path

unfoldable pub resolve_firmware : FirmwareDraft → HostFirmware → FirmwareConfig
resolve_firmware draft host =
    let explicit = non_empty draft.ovmf_vars_template in
    let available = is_some explicit || is_some host.ovmf_vars_template in
    if unwrap_or draft.enable_uefi available
    then record { enable_uefi = true; ovmf_code_path = []; ovmf_vars_path = unwrap_or explicit [] }
    else record { enable_uefi = false; ovmf_code_path = []; ovmf_vars_path = [] }

abbrev pub first_section : ConfigDraft → Option Section
first_section draft =
    if is_some draft.cpu
    then some cpu
    else if is_some draft.memory
    then some memory
    else if is_some draft.display
    then some display
    else if is_some draft.gpu
    then some gpu
    else if is_some draft.network
    then some network
    else if is_some draft.audio
    then some audio
    else if is_some draft.input
    then some input
    else none

abbrev pub refused : Option Section → Bool → Result (Unit {0}) DraftError
refused (some section) autostart = err (section_unsupported section)
refused none autostart = if autostart then err autostart_unsupported else ok tt

unfoldable pub reject_unsupported_android_inputs : ConfigDraft → Result (Unit {0}) DraftError
reject_unsupported_android_inputs draft = refused (first_section draft) draft.autostart

abbrev kind_of : DraftKind → InstanceKind
kind_of (linux iso_path cdrom_bus) = linux_vm iso_path cdrom_bus
kind_of (android profile) = android_vm profile

abbrev pub base_config : InstanceId → ConfigDraft → DiskConfig → FirmwareConfig → InstanceConfig
base_config new_id draft disk firmware = record {
  id = new_id;
  name = draft.name;
  kind = kind_of draft.kind;
  backend = qemu;
  schema_version = current_schema_version;
  cpu = unwrap_or draft.cpu cpu_default;
  memory = unwrap_or draft.memory memory_default;
  disk = disk;
  display = unwrap_or draft.display display_default;
  gpu = unwrap_or draft.gpu gpu_default;
  network = unwrap_or draft.network network_default;
  extra_disks = [];
  extra_networks = [];
  firmware = firmware;
  audio = unwrap_or draft.audio audio_default;
  input = unwrap_or draft.input input_default;
  autostart = draft.autostart;
}

abbrev pub finish : DraftKind → ConfigDraft → InstanceConfig → Result InstanceConfig DraftError
finish (linux iso_path cdrom_bus) draft base = ok base
finish (android profile) draft base = do
  _ ← reject_unsupported_android_inputs draft
  ok (record base { autostart = false })

-- `ConfigDraft::resolve`; `new_id` is the id that `InstanceId::new` makes.
unfoldable pub resolve_draft :
    InstanceId → ConfigDraft → HostFirmware → Result InstanceConfig DraftError
resolve_draft new_id draft host = do
  disk ← resolve_disk draft.disk
  finish draft.kind draft (base_config new_id draft disk (resolve_firmware draft.firmware host))
