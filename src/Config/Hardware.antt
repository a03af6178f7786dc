-- ===== src/Config/Hardware.antt =====
-- core/andler-core/src/config: cpu.rs, memory.rs, disk.rs, display.rs, gpu.rs, audio.rs, input.rs,
-- firmware.rs and cdrom.rs. Each `reference_default` is given with its struct.
use andler.Base.{ℕ, ◌*◌, ◌^◌, Bool, true, false, Option, none, some, List, Text, codes}

abbrev pub mib : ℕ
mib = 2 ^ 20

abbrev pub gib : ℕ
gib = 2 ^ 30

pub data CpuPriority : Type 0 where
  low normal high : CpuPriority

pub record CpuConfig : Type 0 where
  pub cores : ℕ
  pub sockets : ℕ
  pub threads : ℕ
  pub affinity : Option (List ℕ)
  pub priority : CpuPriority

abbrev pub cpu_default : CpuConfig
cpu_default = record {
  cores = 4;
  sockets = 1;
  threads = 1;
  affinity = none;
  priority = CpuPriority.normal;
}

pub record MemoryConfig : Type 0 where
  pub size_bytes : ℕ
  pub ballooning : Bool
  pub zram : Bool
  pub ksm : Bool
  pub mem_lock : Bool
  pub hugepages : Bool

abbrev pub memory_default : MemoryConfig
memory_default = record {
  size_bytes = 8 * gib;
  ballooning = false;
  zram = false;
  ksm = true;
  mem_lock = false;
  hugepages = false;
}

pub data DiskFormat : Type 0 where
  qcow2 raw vdi : DiskFormat

pub record DiskConfig : Type 0 where
  pub path : Text
  pub size_bytes : ℕ
  pub format : DiskFormat
  pub base_image : Option Text
  pub thin_provisioning : Bool
  pub trim_on_shutdown : Bool
  pub compact_on_shutdown : Bool
  pub snapshot_timeout_secs : Option ℕ

abbrev pub disk_overlay : Text → Text → ℕ → DiskConfig
disk_overlay path base size_bytes = record {
  path = path;
  size_bytes = size_bytes;
  format = DiskFormat.qcow2;
  base_image = some base;
  thin_provisioning = true;
  trim_on_shutdown = true;
  compact_on_shutdown = false;
  snapshot_timeout_secs = none;
}

abbrev pub disk_standalone : Text → ℕ → DiskConfig
disk_standalone path size_bytes = record {
  path = path;
  size_bytes = size_bytes;
  format = DiskFormat.qcow2;
  base_image = none;
  thin_provisioning = true;
  trim_on_shutdown = true;
  compact_on_shutdown = false;
  snapshot_timeout_secs = none;
}

abbrev pub disk_default : Text → DiskConfig
disk_default path = disk_standalone path (256 * gib)

pub record Resolution : Type 0 where
  pub width : ℕ
  pub height : ℕ

pub data DisplayEngine : Type 0 where
  sdl gtk spice dbus no_display : DisplayEngine

pub record DisplayConfig : Type 0 where
  pub resolution : Resolution
  pub dpi : ℕ
  pub fps_limit : ℕ
  pub display_engine : DisplayEngine
  pub fullscreen : Bool

abbrev pub display_default : DisplayConfig
display_default = record {
  resolution = record { width = 1920; height = 1080 };
  dpi = 96;
  fps_limit = 0;
  display_engine = DisplayEngine.sdl;
  fullscreen = false;
}

pub data RenderBackend : Type 0 where
  venus virtio_gpu virgl cpu : RenderBackend
  passthrough : Text → RenderBackend

pub record GpuConfig : Type 0 where
  pub render_backend : RenderBackend
  pub hostmem_bytes : ℕ
  pub blob : Bool
  pub gl : Bool

abbrev pub gpu_default : GpuConfig
gpu_default = record {
  render_backend = RenderBackend.venus;
  hostmem_bytes = 4096 * mib;
  blob = true;
  gl = true;
}

pub data AudioBackend : Type 0 where
  pipewire pulseaudio no_audio : AudioBackend

pub data AudioDevice : Type 0 where
  virtio_sound ich9_hda : AudioDevice

pub record AudioConfig : Type 0 where
  pub backend : AudioBackend
  pub device : AudioDevice

abbrev pub audio_default : AudioConfig
audio_default = record { backend = AudioBackend.pipewire; device = AudioDevice.virtio_sound }

pub data PointerMode : Type 0 where
  tablet mouse : PointerMode

pub record InputConfig : Type 0 where
  pub pointer_mode : PointerMode
  pub hide_host_cursor : Bool
  pub clipboard_enabled : Bool

abbrev pub input_default : InputConfig
input_default = record {
  pointer_mode = PointerMode.tablet;
  hide_host_cursor = true;
  clipboard_enabled = true;
}

pub record FirmwareConfig : Type 0 where
  pub enable_uefi : Bool
  pub ovmf_code_path : Text
  pub ovmf_vars_path : Text

abbrev pub firmware_default : Text → FirmwareConfig
firmware_default ovmf_vars_path = record {
  enable_uefi = true;
  ovmf_code_path = codes "/usr/share/edk2/x64/OVMF_CODE.4m.fd";
  ovmf_vars_path = ovmf_vars_path;
}

pub data CdromBus : Type 0 where
  virtio_scsi ide : CdromBus
