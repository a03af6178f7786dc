-- ===== src/Rpc/Requests.antt =====
-- services/andler-rpc/proto/andler.proto: the requests and responses whose conversion is modelled.
use andler.Base.{Bool, Option, List, Text}
use andler.Rpc.Messages.{
  ProtoCpuConfig, ProtoMemoryConfig, ProtoDiskConfig, ProtoDisplayConfig, ProtoGpuConfig,
  ProtoNetworkConfig, ProtoFirmwareConfig, ProtoAudioConfig, ProtoInputConfig, ProtoCdromBus,
  ProtoInstanceKind, ProtoBackendKind, ProtoAndroidBootMode, ProtoArmTranslator, ProtoDiskFormat,
}

pub record CreateInstanceRequest : Type 0 where
  pub name : Text
  pub iso_path : Text
  pub cpu : Option ProtoCpuConfig
  pub memory : Option ProtoMemoryConfig
  pub disk : Option ProtoDiskConfig
  pub display : Option ProtoDisplayConfig
  pub gpu : Option ProtoGpuConfig
  pub network : Option ProtoNetworkConfig
  pub firmware : Option ProtoFirmwareConfig
  pub audio : Option ProtoAudioConfig
  pub input : Option ProtoInputConfig
  pub cdrom_bus : ProtoCdromBus
  pub autostart : Bool
  pub instances_root : Text

pub record GetInstanceConfigResponse : Type 0 where
  pub instance_id : Text
  pub name : Text
  pub kind : Option ProtoInstanceKind
  pub backend : ProtoBackendKind
  pub cpu : Option ProtoCpuConfig
  pub memory : Option ProtoMemoryConfig
  pub disk : Option ProtoDiskConfig
  pub display : Option ProtoDisplayConfig
  pub gpu : Option ProtoGpuConfig
  pub network : Option ProtoNetworkConfig
  pub firmware : Option ProtoFirmwareConfig
  pub audio : Option ProtoAudioConfig
  pub input : Option ProtoInputConfig
  pub extra_disks : List ProtoDiskConfig
  pub extra_networks : List ProtoNetworkConfig
  pub boot_mode : ProtoAndroidBootMode
  pub autostart : Bool

pub record UpdateInstanceConfigRequest : Type 0 where
  pub instance_ref : Text
  pub name : Text
  pub kind : Option ProtoInstanceKind
  pub backend : ProtoBackendKind
  pub cpu : Option ProtoCpuConfig
  pub memory : Option ProtoMemoryConfig
  pub disk : Option ProtoDiskConfig
  pub display : Option ProtoDisplayConfig
  pub gpu : Option ProtoGpuConfig
  pub network : Option ProtoNetworkConfig
  pub firmware : Option ProtoFirmwareConfig
  pub audio : Option ProtoAudioConfig
  pub input : Option ProtoInputConfig
  pub extra_disks : List ProtoDiskConfig
  pub extra_networks : List ProtoNetworkConfig
  pub autostart : Bool

pub record SwitchArmTranslatorRequest : Type 0 where
  pub instance_ref : Text
  pub translator : ProtoArmTranslator
  pub translator_dir : Text

pub record SwitchAndroidBootModeRequest : Type 0 where
  pub instance_ref : Text
  pub mode : ProtoAndroidBootMode

pub record ExportInstanceOciRequest : Type 0 where
  pub source_instance_id : Text
  pub dest_path : Text
  pub disk_format : ProtoDiskFormat
  pub disk_path : Option Text
