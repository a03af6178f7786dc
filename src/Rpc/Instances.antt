-- ===== src/Rpc/Instances.antt =====
-- services/andler-rpc/src/convert.rs: whole configurations, as a response and as the two requests that
-- carry one, and the ids in them. A missing field is named in the error.
use andler.Base.{some, [], ◌∷◌, map, Text, codes, Result, ok, err, ◌>>=◌}
use andler.Config.{
  InstanceId, InstanceKind, linux_vm, android_vm, InstanceConfig, current_schema_version,
}
use andler.InstanceId.{fmt, from_str}
use andler.Rpc.Messages.{ProtoCdromBus, ProtoAndroidBootMode, InstanceKindKind, ProtoInstanceKind}
use andler.Rpc.Requests.{GetInstanceConfigResponse, UpdateInstanceConfigRequest}
use andler.Rpc.Errors.{
  ConvertError, missing_field, missing_instance_id, invalid_instance_id, ok_or, collect,
}
use andler.Rpc.Enums.{
  cdrom_bus_from_proto, cdrom_bus_to_proto, backend_from_proto, backend_to_proto,
  boot_mode_to_proto,
}
use andler.Rpc.Devices.{
  cpu_from_proto, cpu_to_proto, memory_from_proto, memory_to_proto, disk_from_proto, disk_to_proto,
  display_from_proto, display_to_proto, gpu_from_proto, gpu_to_proto, firmware_from_proto,
  firmware_to_proto, audio_from_proto, audio_to_proto,
}
use andler.Rpc.Inputs.{
  input_from_proto, input_to_proto, network_from_proto, network_to_proto, profile_from_proto,
  profile_to_proto,
}

-- `raw.parse()` is `InstanceId::from_str`.
unfoldable pub parse_instance_id : Text → Result InstanceId ConvertError
parse_instance_id [] = err missing_instance_id
parse_instance_id (c ∷ rest) = ok_or (invalid_instance_id (c ∷ rest)) (from_str (c ∷ rest))

-- A bus is required here, where `From` would take the default one: `name` is the field that the error
-- shows.
unfoldable pub required_cdrom_bus : Text → ProtoCdromBus → Result ProtoCdromBus ConvertError
required_cdrom_bus name ProtoCdromBus.unspecified = err (missing_field name)
required_cdrom_bus name ProtoCdromBus.virtio_scsi = ok ProtoCdromBus.virtio_scsi
required_cdrom_bus name ProtoCdromBus.ide = ok ProtoCdromBus.ide

unfoldable pub kind_of_message : InstanceKindKind → Result InstanceKind ConvertError
kind_of_message (InstanceKindKind.linux_vm iso_path cdrom_bus) = do
  bus ← required_cdrom_bus (codes "kind.linux_vm.cdrom_bus") cdrom_bus
  ok (linux_vm iso_path (cdrom_bus_from_proto bus))
kind_of_message (InstanceKindKind.android_vm android_profile) = do
  message ← ok_or (missing_field (codes "kind.android_vm.android_profile")) android_profile
  profile ← profile_from_proto message
  ok (android_vm profile)

unfoldable pub kind_from_proto : ProtoInstanceKind → Result InstanceKind ConvertError
kind_from_proto value = do
  kind ← ok_or (missing_field (codes "kind.kind")) value.kind
  kind_of_message kind

unfoldable pub message_of_kind : InstanceKind → InstanceKindKind
message_of_kind (linux_vm iso_path cdrom_bus) =
    InstanceKindKind.linux_vm iso_path (cdrom_bus_to_proto cdrom_bus)
message_of_kind (android_vm android_profile) =
    InstanceKindKind.android_vm (some (profile_to_proto android_profile))

unfoldable pub kind_to_proto : InstanceKind → ProtoInstanceKind
kind_to_proto value = record { kind = some (message_of_kind value) }

unfoldable pub response_boot_mode : InstanceKind → ProtoAndroidBootMode
response_boot_mode (android_vm android_profile) = boot_mode_to_proto android_profile.boot_mode
response_boot_mode (linux_vm iso_path cdrom_bus) = ProtoAndroidBootMode.unspecified

unfoldable pub config_to_response : InstanceConfig → GetInstanceConfigResponse
config_to_response value = record {
  instance_id = fmt value.id;
  name = value.name;
  kind = some (kind_to_proto value.kind);
  backend = backend_to_proto value.backend;
  cpu = some (cpu_to_proto value.cpu);
  memory = some (memory_to_proto value.memory);
  disk = some (disk_to_proto value.disk);
  display = some (display_to_proto value.display);
  gpu = some (gpu_to_proto value.gpu);
  network = some (network_to_proto value.network);
  firmware = some (firmware_to_proto value.firmware);
  audio = some (audio_to_proto value.audio);
  input = some (input_to_proto value.input);
  extra_disks = map disk_to_proto value.extra_disks;
  extra_networks = map network_to_proto value.extra_networks;
  boot_mode = response_boot_mode value.kind;
  autostart = value.autostart;
}

unfoldable pub config_from_response : GetInstanceConfigResponse → Result InstanceConfig ConvertError
config_from_response value = do
  backend ← backend_from_proto value.backend
  id ← parse_instance_id value.instance_id
  kind_message ← ok_or (missing_field (codes "kind")) value.kind
  kind ← kind_from_proto kind_message
  cpu_message ← ok_or (missing_field (codes "cpu")) value.cpu
  cpu ← cpu_from_proto cpu_message
  memory ← ok_or (missing_field (codes "memory")) value.memory
  disk_message ← ok_or (missing_field (codes "disk")) value.disk
  disk ← disk_from_proto disk_message
  display_message ← ok_or (missing_field (codes "display")) value.display
  display ← display_from_proto display_message
  gpu_message ← ok_or (missing_field (codes "gpu")) value.gpu
  gpu ← gpu_from_proto gpu_message
  network_message ← ok_or (missing_field (codes "network")) value.network
  network ← network_from_proto network_message
  extra_disks ← collect disk_from_proto value.extra_disks
  extra_networks ← collect network_from_proto value.extra_networks
  firmware ← ok_or (missing_field (codes "firmware")) value.firmware
  audio_message ← ok_or (missing_field (codes "audio")) value.audio
  audio ← audio_from_proto audio_message
  input ← ok_or (missing_field (codes "input")) value.input
  ok (record {
    id = id;
    name = value.name;
    kind = kind;
    backend = backend;
    schema_version = current_schema_version;
    cpu = cpu;
    memory = memory_from_proto memory;
    disk = disk;
    display = display;
    gpu = gpu;
    network = network;
    extra_disks = extra_disks;
    extra_networks = extra_networks;
    firmware = firmware_from_proto firmware;
    audio = audio;
    input = input_from_proto input;
    autostart = value.autostart;
  })

unfoldable pub instance_config_to_update_request :
    InstanceConfig → Text → UpdateInstanceConfigRequest
instance_config_to_update_request cfg instance_ref =
    let response = config_to_response cfg in
    record {
      instance_ref = instance_ref;
      name = response.name;
      kind = response.kind;
      backend = response.backend;
      cpu = response.cpu;
      memory = response.memory;
      disk = response.disk;
      display = response.display;
      gpu = response.gpu;
      network = response.network;
      firmware = response.firmware;
      audio = response.audio;
      input = response.input;
      extra_disks = response.extra_disks;
      extra_networks = response.extra_networks;
      autostart = response.autostart;
    }

unfoldable pub update_request_to_instance_config :
    InstanceId → UpdateInstanceConfigRequest → Result InstanceConfig ConvertError
update_request_to_instance_config id req = do
  backend ← backend_from_proto req.backend
  kind_message ← ok_or (missing_field (codes "kind")) req.kind
  kind ← kind_from_proto kind_message
  cpu_message ← ok_or (missing_field (codes "cpu")) req.cpu
  cpu ← cpu_from_proto cpu_message
  memory ← ok_or (missing_field (codes "memory")) req.memory
  disk_message ← ok_or (missing_field (codes "disk")) req.disk
  disk ← disk_from_proto disk_message
  display_message ← ok_or (missing_field (codes "display")) req.display
  display ← display_from_proto display_message
  gpu_message ← ok_or (missing_field (codes "gpu")) req.gpu
  gpu ← gpu_from_proto gpu_message
  network_message ← ok_or (missing_field (codes "network")) req.network
  network ← network_from_proto network_message
  extra_disks ← collect disk_from_proto req.extra_disks
  extra_networks ← collect network_from_proto req.extra_networks
  firmware ← ok_or (missing_field (codes "firmware")) req.firmware
  audio_message ← ok_or (missing_field (codes "audio")) req.audio
  audio ← audio_from_proto audio_message
  input ← ok_or (missing_field (codes "input")) req.input
  ok (record {
    id = id;
    name = req.name;
    kind = kind;
    backend = backend;
    schema_version = current_schema_version;
    cpu = cpu;
    memory = memory_from_proto memory;
    disk = disk;
    display = display;
    gpu = gpu;
    network = network;
    extra_disks = extra_disks;
    extra_networks = extra_networks;
    firmware = firmware_from_proto firmware;
    audio = audio;
    input = input_from_proto input;
    autostart = req.autostart;
  })
