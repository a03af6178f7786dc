-- ===== src/Rpc/Commands.antt =====
-- services/andler-rpc/src/convert.rs: the requests that become commands, and instance states.
use andler.Base.{Option, [], Text, codes, Result, ok, err, ◌>>=◌}
use andler.Config.{
  InstanceId, InstanceConfig, ArmTranslator, AndroidBootMode, DiskFormat, linux_vm, qemu,
  current_schema_version,
}
use andler.Fsm.{InstanceState}
use andler.InstanceId.{fmt}
use andler.Rpc.Messages.{ProtoAndroidBootMode}
use andler.Rpc.Requests.{
  CreateInstanceRequest, SwitchArmTranslatorRequest, SwitchAndroidBootModeRequest,
  ExportInstanceOciRequest,
}
use andler.Rpc.Errors.{ConvertError, missing_field, ok_or, unless_empty}
use andler.Rpc.Enums.{
  arm_translator_from_proto, cdrom_bus_from_proto, disk_format_from_proto, disk_format_to_proto,
}
use andler.Rpc.Devices.{
  cpu_from_proto, memory_from_proto, disk_from_proto, display_from_proto, gpu_from_proto,
  firmware_from_proto, audio_from_proto,
}
use andler.Rpc.Inputs.{input_from_proto, network_from_proto}
use andler.Rpc.Instances.{parse_instance_id, required_cdrom_bus}

-- `TryFrom<proto::CreateInstanceRequest>`; the random id of `InstanceId::new` is an argument.
unfoldable pub create_request_to_config :
    InstanceId → CreateInstanceRequest → Result InstanceConfig ConvertError
create_request_to_config new_id value = do
  bus ← required_cdrom_bus (codes "cdrom_bus") value.cdrom_bus
  cpu_message ← ok_or (missing_field (codes "cpu")) value.cpu
  cpu ← cpu_from_proto cpu_message
  memory ← ok_or (missing_field (codes "memory")) value.memory
  disk_message ← ok_or (missing_field (codes "disk")) value.disk
  disk ← disk_from_proto disk_message
  display_message ← ok_or (missing_field (codes "display")) value.display
  display ← display_from_proto display_message
  gpu_message ← ok_or (missing_field (codes "gpu")) value.gpu
  gpu ← gpu_from_proto gpu_message
  network_message ← ok_or (missing_field (codes "network")) value.network
  network ← network_from_proto network_message
  firmware ← ok_or (missing_field (codes "firmware")) value.firmware
  audio_message ← ok_or (missing_field (codes "audio")) value.audio
  audio ← audio_from_proto audio_message
  input ← ok_or (missing_field (codes "input")) value.input
  ok (record {
    id = new_id;
    name = value.name;
    kind = linux_vm value.iso_path (cdrom_bus_from_proto bus);
    backend = qemu;
    schema_version = current_schema_version;
    cpu = cpu;
    memory = memory_from_proto memory;
    disk = disk;
    display = display;
    gpu = gpu;
    network = network;
    extra_disks = [];
    extra_networks = [];
    firmware = firmware_from_proto firmware;
    audio = audio;
    input = input_from_proto input;
    autostart = value.autostart;
  })

pub record SwitchArmTranslatorCmd : Type 0 where
  pub instance_ref : Text
  pub translator : ArmTranslator
  pub translator_dir : Option Text

-- The `match` has the arms of `arm_translator_from_proto`.
unfoldable pub switch_arm_translator_cmd :
    SwitchArmTranslatorRequest → Result SwitchArmTranslatorCmd ConvertError
switch_arm_translator_cmd req = ok (record {
  instance_ref = req.instance_ref;
  translator = arm_translator_from_proto req.translator;
  translator_dir = unless_empty req.translator_dir;
})

pub record SwitchAndroidBootModeCmd : Type 0 where
  pub instance_ref : Text
  pub mode : AndroidBootMode

unfoldable pub required_boot_mode : ProtoAndroidBootMode → Result AndroidBootMode ConvertError
required_boot_mode ProtoAndroidBootMode.unspecified = err (missing_field (codes "mode"))
required_boot_mode ProtoAndroidBootMode.android = ok AndroidBootMode.android_boot
required_boot_mode ProtoAndroidBootMode.linux = ok AndroidBootMode.linux_boot

unfoldable pub switch_boot_mode_cmd :
    SwitchAndroidBootModeRequest → Result SwitchAndroidBootModeCmd ConvertError
switch_boot_mode_cmd req = do
  mode ← required_boot_mode req.mode
  ok (record { instance_ref = req.instance_ref; mode = mode })

pub record ExportInstanceOciCmd : Type 0 where
  pub source_instance_id : InstanceId
  pub dest_path : Text
  pub disk_format : DiskFormat
  pub disk_path : Option Text

-- The test for an unspecified format returns the error that the conversion of the format has.
unfoldable pub export_oci_cmd : ExportInstanceOciRequest → Result ExportInstanceOciCmd ConvertError
export_oci_cmd req = do
  disk_format ← disk_format_from_proto req.disk_format
  source_instance_id ← parse_instance_id req.source_instance_id
  ok (record {
    source_instance_id = source_instance_id;
    dest_path = req.dest_path;
    disk_format = disk_format;
    disk_path = req.disk_path;
  })

unfoldable pub export_oci_request : ExportInstanceOciCmd → ExportInstanceOciRequest
export_oci_request cmd = record {
  source_instance_id = fmt cmd.source_instance_id;
  dest_path = cmd.dest_path;
  disk_format = disk_format_to_proto cmd.disk_format;
  disk_path = cmd.disk_path;
}

pub data ProtoStateKind : Type 0 where
  unspecified created starting running paused stopping stopped error : ProtoStateKind

unfoldable pub instance_state_to_proto : InstanceState → ProtoStateKind × Text
instance_state_to_proto InstanceState.created = (ProtoStateKind.created, [])
instance_state_to_proto InstanceState.starting = (ProtoStateKind.starting, [])
instance_state_to_proto InstanceState.running = (ProtoStateKind.running, [])
instance_state_to_proto InstanceState.paused = (ProtoStateKind.paused, [])
instance_state_to_proto InstanceState.stopping = (ProtoStateKind.stopping, [])
instance_state_to_proto InstanceState.stopped = (ProtoStateKind.stopped, [])
instance_state_to_proto (InstanceState.error message) = (ProtoStateKind.error, message)
