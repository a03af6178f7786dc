-- ===== src/Rpc/Devices.antt =====
-- services/andler-rpc/src/convert.rs: the messages of an instance's devices. A path is its text, so
-- `to_string_lossy` returns it; `usize` has 64 bits.
use andler.Base.{codes, ok, Result, ◌>>=◌}
use andler.Config.{
  CpuConfig, MemoryConfig, DiskConfig, Resolution, DisplayConfig, RenderBackend, GpuConfig,
  FirmwareConfig, AudioConfig,
}
use andler.Base.{some}
use andler.Rpc.Messages.{
  ProtoCpuConfig, ProtoMemoryConfig, ProtoDiskConfig, ProtoResolution, ProtoDisplayConfig,
  RenderBackendKind, ProtoRenderBackend, ProtoGpuConfig, ProtoFirmwareConfig, ProtoAudioConfig,
}
use andler.Rpc.Errors.{
  ConvertError, missing_field, missing_render_backend_kind, ok_or, unwrap_or_default, unless_empty,
}
use andler.Rpc.Enums.{
  cpu_priority_from_proto, cpu_priority_to_proto, disk_format_from_proto, disk_format_to_proto,
  display_engine_from_proto, display_engine_to_proto, audio_backend_from_proto,
  audio_backend_to_proto, audio_device_from_proto, audio_device_to_proto,
}

unfoldable pub cpu_from_proto : ProtoCpuConfig → Result CpuConfig ConvertError
cpu_from_proto value = do
  priority ← cpu_priority_from_proto value.priority
  ok (record {
    cores = value.cores;
    sockets = value.sockets;
    threads = value.threads;
    affinity = unless_empty value.affinity;
    priority = priority;
  })

unfoldable pub cpu_to_proto : CpuConfig → ProtoCpuConfig
cpu_to_proto value = record {
  cores = value.cores;
  sockets = value.sockets;
  threads = value.threads;
  affinity = unwrap_or_default value.affinity;
  priority = cpu_priority_to_proto value.priority;
}

unfoldable pub memory_from_proto : ProtoMemoryConfig → MemoryConfig
memory_from_proto value = record {
  size_bytes = value.size_bytes;
  ballooning = value.ballooning;
  zram = value.zram;
  ksm = value.ksm;
  mem_lock = value.mem_lock;
  hugepages = value.hugepages;
}

unfoldable pub memory_to_proto : MemoryConfig → ProtoMemoryConfig
memory_to_proto value = record {
  size_bytes = value.size_bytes;
  ballooning = value.ballooning;
  zram = value.zram;
  ksm = value.ksm;
  mem_lock = value.mem_lock;
  hugepages = value.hugepages;
}

unfoldable pub disk_from_proto : ProtoDiskConfig → Result DiskConfig ConvertError
disk_from_proto value = do
  format ← disk_format_from_proto value.format
  ok (record {
    path = value.path;
    size_bytes = value.size_bytes;
    format = format;
    base_image = unless_empty value.base_image;
    thin_provisioning = value.thin_provisioning;
    trim_on_shutdown = value.trim_on_shutdown;
    compact_on_shutdown = value.compact_on_shutdown;
    snapshot_timeout_secs = value.snapshot_timeout_secs;
  })

unfoldable pub disk_to_proto : DiskConfig → ProtoDiskConfig
disk_to_proto value = record {
  path = value.path;
  size_bytes = value.size_bytes;
  format = disk_format_to_proto value.format;
  base_image = unwrap_or_default value.base_image;
  thin_provisioning = value.thin_provisioning;
  trim_on_shutdown = value.trim_on_shutdown;
  snapshot_timeout_secs = value.snapshot_timeout_secs;
  compact_on_shutdown = value.compact_on_shutdown;
}

unfoldable pub resolution_from_proto : ProtoResolution → Resolution
resolution_from_proto value = record { width = value.width; height = value.height }

unfoldable pub resolution_to_proto : Resolution → ProtoResolution
resolution_to_proto value = record { width = value.width; height = value.height }

unfoldable pub display_from_proto : ProtoDisplayConfig → Result DisplayConfig ConvertError
display_from_proto value = do
  display_engine ← display_engine_from_proto value.display_engine
  resolution ← ok_or (missing_field (codes "display.resolution")) value.resolution
  ok (record {
    resolution = resolution_from_proto resolution;
    dpi = value.dpi;
    fps_limit = value.fps_limit;
    display_engine = display_engine;
    fullscreen = value.fullscreen;
  })

unfoldable pub display_to_proto : DisplayConfig → ProtoDisplayConfig
display_to_proto value = record {
  resolution = some (resolution_to_proto value.resolution);
  dpi = value.dpi;
  fps_limit = value.fps_limit;
  display_engine = display_engine_to_proto value.display_engine;
  fullscreen = value.fullscreen;
}

-- The arms of the `match` on the kind.
unfoldable pub render_backend_of_kind : RenderBackendKind → RenderBackend
render_backend_of_kind RenderBackendKind.venus = RenderBackend.venus
render_backend_of_kind RenderBackendKind.virtio_gpu = RenderBackend.virtio_gpu
render_backend_of_kind RenderBackendKind.vir_gl = RenderBackend.virgl
render_backend_of_kind RenderBackendKind.cpu = RenderBackend.cpu
render_backend_of_kind (RenderBackendKind.passthrough gpu_pci_id) =
    RenderBackend.passthrough gpu_pci_id

unfoldable pub render_backend_from_proto : ProtoRenderBackend → Result RenderBackend ConvertError
render_backend_from_proto value = do
  kind ← ok_or missing_render_backend_kind value.kind
  ok (render_backend_of_kind kind)

unfoldable pub kind_of_render_backend : RenderBackend → RenderBackendKind
kind_of_render_backend RenderBackend.venus = RenderBackendKind.venus
kind_of_render_backend RenderBackend.virtio_gpu = RenderBackendKind.virtio_gpu
kind_of_render_backend RenderBackend.virgl = RenderBackendKind.vir_gl
kind_of_render_backend RenderBackend.cpu = RenderBackendKind.cpu
kind_of_render_backend (RenderBackend.passthrough gpu_pci_id) =
    RenderBackendKind.passthrough gpu_pci_id

unfoldable pub render_backend_to_proto : RenderBackend → ProtoRenderBackend
render_backend_to_proto value = record { kind = some (kind_of_render_backend value) }

unfoldable pub gpu_from_proto : ProtoGpuConfig → Result GpuConfig ConvertError
gpu_from_proto value = do
  message ← ok_or (missing_field (codes "gpu.render_backend")) value.render_backend
  render_backend ← render_backend_from_proto message
  ok (record {
    render_backend = render_backend;
    hostmem_bytes = value.hostmem_bytes;
    blob = value.blob;
    gl = value.gl;
  })

unfoldable pub gpu_to_proto : GpuConfig → ProtoGpuConfig
gpu_to_proto value = record {
  render_backend = some (render_backend_to_proto value.render_backend);
  hostmem_bytes = value.hostmem_bytes;
  blob = value.blob;
  gl = value.gl;
}

unfoldable pub firmware_from_proto : ProtoFirmwareConfig → FirmwareConfig
firmware_from_proto value = record {
  enable_uefi = value.enable_uefi;
  ovmf_code_path = value.ovmf_code_path;
  ovmf_vars_path = value.ovmf_vars_path;
}

unfoldable pub firmware_to_proto : FirmwareConfig → ProtoFirmwareConfig
firmware_to_proto value = record {
  enable_uefi = value.enable_uefi;
  ovmf_code_path = value.ovmf_code_path;
  ovmf_vars_path = value.ovmf_vars_path;
}

unfoldable pub audio_from_proto : ProtoAudioConfig → Result AudioConfig ConvertError
audio_from_proto value = do
  backend ← audio_backend_from_proto value.backend
  ok (record { backend = backend; device = audio_device_from_proto value.device })

unfoldable pub audio_to_proto : AudioConfig → ProtoAudioConfig
audio_to_proto value = record {
  backend = audio_backend_to_proto value.backend;
  device = audio_device_to_proto value.device;
}
