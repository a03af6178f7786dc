-- ===== src/Rpc/Messages.antt =====
-- services/andler-rpc/proto/andler.proto: the enums and messages that carry a configuration. A field
-- of an enum type holds what the generated getter reads, which is the unspecified value for a number
-- that the schema does not list; a field of a message type, and a oneof, may be absent.
use andler.Base.{ℕ, Bool, Option, List, Text}

pub data ProtoCpuPriority : Type 0 where
  unspecified low normal high : ProtoCpuPriority

pub record ProtoCpuConfig : Type 0 where
  pub cores : ℕ
  pub sockets : ℕ
  pub threads : ℕ
  pub affinity : List ℕ
  pub priority : ProtoCpuPriority

pub record ProtoMemoryConfig : Type 0 where
  pub size_bytes : ℕ
  pub ballooning : Bool
  pub zram : Bool
  pub ksm : Bool
  pub mem_lock : Bool
  pub hugepages : Bool

pub data ProtoDiskFormat : Type 0 where
  unspecified qcow2 raw vdi : ProtoDiskFormat

pub data ProtoCdromBus : Type 0 where
  unspecified virtio_scsi ide : ProtoCdromBus

pub record ProtoDiskConfig : Type 0 where
  pub path : Text
  pub size_bytes : ℕ
  pub format : ProtoDiskFormat
  pub base_image : Text
  pub thin_provisioning : Bool
  pub trim_on_shutdown : Bool
  pub snapshot_timeout_secs : Option ℕ
  pub compact_on_shutdown : Bool

pub record ProtoResolution : Type 0 where
  pub width : ℕ
  pub height : ℕ

pub data ProtoDisplayEngine : Type 0 where
  unspecified sdl spice dbus display_none gtk : ProtoDisplayEngine

pub record ProtoDisplayConfig : Type 0 where
  pub resolution : Option ProtoResolution
  pub dpi : ℕ
  pub fps_limit : ℕ
  pub display_engine : ProtoDisplayEngine
  pub fullscreen : Bool

pub data RenderBackendKind : Type 0 where
  venus virtio_gpu vir_gl cpu : RenderBackendKind
  passthrough : Text → RenderBackendKind

pub record ProtoRenderBackend : Type 0 where
  pub kind : Option RenderBackendKind

pub record ProtoGpuConfig : Type 0 where
  pub render_backend : Option ProtoRenderBackend
  pub hostmem_bytes : ℕ
  pub blob : Bool
  pub gl : Bool

pub data NetworkModeKind : Type 0 where
  nat isolated : NetworkModeKind
  bridge : Text → NetworkModeKind

pub record ProtoNetworkMode : Type 0 where
  pub kind : Option NetworkModeKind

pub data ProtoNatBackend : Type 0 where
  unspecified slirp passt : ProtoNatBackend

pub data ProtoPortForwardProtocol : Type 0 where
  unspecified tcp udp : ProtoPortForwardProtocol

-- Both ports are `uint32`.
pub record ProtoPortForward : Type 0 where
  pub protocol : ProtoPortForwardProtocol
  pub host_port : ℕ
  pub guest_port : ℕ
  pub host_address : Text

pub record ProtoNetworkConfig : Type 0 where
  pub mode : Option ProtoNetworkMode
  pub device_model : Text
  pub nat_backend : ProtoNatBackend
  pub port_forwards : List ProtoPortForward

pub record ProtoFirmwareConfig : Type 0 where
  pub enable_uefi : Bool
  pub ovmf_code_path : Text
  pub ovmf_vars_path : Text

pub data ProtoAudioBackend : Type 0 where
  unspecified pipewire pulseaudio audio_none : ProtoAudioBackend

pub data ProtoAudioDevice : Type 0 where
  unspecified virtio_sound ich9_hda : ProtoAudioDevice

pub record ProtoAudioConfig : Type 0 where
  pub backend : ProtoAudioBackend
  pub device : ProtoAudioDevice

pub data ProtoPointerMode : Type 0 where
  unspecified tablet mouse : ProtoPointerMode

pub record ProtoInputConfig : Type 0 where
  pub tablet_mode : Bool
  pub hide_host_cursor : Bool
  pub clipboard_enabled : Bool
  pub pointer_mode : ProtoPointerMode

pub data ProtoAndroidVersion : Type 0 where
  unspecified android11 android13 : ProtoAndroidVersion

pub data ProtoArmTranslator : Type 0 where
  unspecified no_translator libndk libhoudini : ProtoArmTranslator

pub data ProtoAndroidBootMode : Type 0 where
  unspecified android linux : ProtoAndroidBootMode

pub record ProtoBaseImagePin : Type 0 where
  pub id : Text
  pub sha256 : Text

pub record ProtoAndroidProfile : Type 0 where
  pub android_version : ProtoAndroidVersion
  pub gapps : Bool
  pub microg : Bool
  pub arm_translator : ProtoArmTranslator
  pub boot_mode : ProtoAndroidBootMode
  pub base_image_pin : Option ProtoBaseImagePin

pub data ProtoBackendKind : Type 0 where
  unspecified qemu : ProtoBackendKind

-- A `LinuxVm` has its path and bus, an `AndroidVm` its profile.
pub data InstanceKindKind : Type 0 where
  linux_vm : Text → ProtoCdromBus → InstanceKindKind
  android_vm : Option ProtoAndroidProfile → InstanceKindKind

pub record ProtoInstanceKind : Type 0 where
  pub kind : Option InstanceKindKind
