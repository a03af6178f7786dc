-- ===== src/Rpc/Inputs.antt =====
-- services/andler-rpc/src/convert.rs: the messages of input devices, networks and Android profiles.
use andler.Base.{◌%◌, ◌^◌, Bool, true, false, some, map, codes, ok, Result, ◌>>=◌, if◌then◌else◌}
use mathlib.Core.Option
use andler.Config.{
  PointerMode, InputConfig, NetworkMode, PortForward, NetworkConfig, BaseImagePin, AndroidProfile,
}
use andler.Rpc.Messages.{
  ProtoPointerMode, ProtoInputConfig, NetworkModeKind, ProtoNetworkMode, ProtoPortForward,
  ProtoNetworkConfig, ProtoBaseImagePin, ProtoAndroidProfile,
}
use andler.Rpc.Errors.{
  ConvertError, missing_field, missing_network_mode_kind, ok_or, unwrap_or_default, unless_empty,
  collect,
}
use andler.Rpc.Enums.{
  pointer_mode_to_proto, nat_backend_from_proto, nat_backend_to_proto, protocol_from_proto,
  protocol_to_proto, android_version_from_proto, android_version_to_proto, boot_mode_from_proto,
  boot_mode_to_proto, arm_translator_from_proto, arm_translator_to_proto,
}

-- The `match`, with the old `tablet_mode` field where no mode is given.
unfoldable pub pointer_mode_from_proto : ProtoPointerMode → Bool → PointerMode
pointer_mode_from_proto ProtoPointerMode.tablet tablet_mode = PointerMode.tablet
pointer_mode_from_proto ProtoPointerMode.mouse tablet_mode = PointerMode.mouse
pointer_mode_from_proto ProtoPointerMode.unspecified tablet_mode =
    if tablet_mode then PointerMode.tablet else PointerMode.mouse

unfoldable pub input_from_proto : ProtoInputConfig → InputConfig
input_from_proto value = record {
  pointer_mode = pointer_mode_from_proto value.pointer_mode value.tablet_mode;
  hide_host_cursor = value.hide_host_cursor;
  clipboard_enabled = value.clipboard_enabled;
}

abbrev pub is_tablet : PointerMode → Bool
is_tablet PointerMode.tablet = true
is_tablet PointerMode.mouse = false

unfoldable pub input_to_proto : InputConfig → ProtoInputConfig
input_to_proto value = record {
  tablet_mode = is_tablet value.pointer_mode;
  hide_host_cursor = value.hide_host_cursor;
  clipboard_enabled = value.clipboard_enabled;
  pointer_mode = pointer_mode_to_proto value.pointer_mode;
}

unfoldable pub network_mode_of_kind : NetworkModeKind → NetworkMode
network_mode_of_kind NetworkModeKind.nat = NetworkMode.nat
network_mode_of_kind (NetworkModeKind.bridge interface) = NetworkMode.bridge interface
network_mode_of_kind NetworkModeKind.isolated = NetworkMode.isolated

unfoldable pub network_mode_from_proto : ProtoNetworkMode → Result NetworkMode ConvertError
network_mode_from_proto value = do
  kind ← ok_or missing_network_mode_kind value.kind
  ok (network_mode_of_kind kind)

unfoldable pub kind_of_network_mode : NetworkMode → NetworkModeKind
kind_of_network_mode NetworkMode.nat = NetworkModeKind.nat
kind_of_network_mode (NetworkMode.bridge interface) = NetworkModeKind.bridge interface
kind_of_network_mode NetworkMode.isolated = NetworkModeKind.isolated

unfoldable pub network_mode_to_proto : NetworkMode → ProtoNetworkMode
network_mode_to_proto value = record { kind = some (kind_of_network_mode value) }

-- `as u16` keeps the low 16 bits of a port.
unfoldable pub port_forward_from_proto : ProtoPortForward → Result PortForward ConvertError
port_forward_from_proto value = do
  protocol ← protocol_from_proto value.protocol
  ok (record {
    protocol = protocol;
    host_port = value.host_port % 2 ^ 16;
    guest_port = value.guest_port % 2 ^ 16;
    host_address = unless_empty value.host_address;
  })

unfoldable pub port_forward_to_proto : PortForward → ProtoPortForward
port_forward_to_proto value = record {
  protocol = protocol_to_proto value.protocol;
  host_port = value.host_port;
  guest_port = value.guest_port;
  host_address = unwrap_or_default value.host_address;
}

unfoldable pub network_from_proto : ProtoNetworkConfig → Result NetworkConfig ConvertError
network_from_proto value = do
  message ← ok_or (missing_field (codes "network.mode")) value.mode
  mode ← network_mode_from_proto message
  port_forwards ← collect port_forward_from_proto value.port_forwards
  ok (record {
    mode = mode;
    device_model = value.device_model;
    nat_backend = nat_backend_from_proto value.nat_backend;
    port_forwards = port_forwards;
  })

unfoldable pub network_to_proto : NetworkConfig → ProtoNetworkConfig
network_to_proto value = record {
  mode = some (network_mode_to_proto value.mode);
  device_model = value.device_model;
  nat_backend = nat_backend_to_proto value.nat_backend;
  port_forwards = map port_forward_to_proto value.port_forwards;
}

unfoldable pub pin_from_proto : ProtoBaseImagePin → BaseImagePin
pin_from_proto pin = record { id = pin.id; sha256 = pin.sha256 }

unfoldable pub pin_to_proto : BaseImagePin → ProtoBaseImagePin
pin_to_proto pin = record { id = pin.id; sha256 = pin.sha256 }

-- The conversion of the pin cannot fail.
unfoldable pub profile_from_proto : ProtoAndroidProfile → Result AndroidProfile ConvertError
profile_from_proto value = do
  android_version ← android_version_from_proto value.android_version
  boot_mode ← boot_mode_from_proto value.boot_mode
  ok (record {
    android_version = android_version;
    gapps = value.gapps;
    microg = value.microg;
    arm_translator = arm_translator_from_proto value.arm_translator;
    boot_mode = boot_mode;
    base_image_pin = Option.map pin_from_proto value.base_image_pin;
  })

unfoldable pub profile_to_proto : AndroidProfile → ProtoAndroidProfile
profile_to_proto value = record {
  android_version = android_version_to_proto value.android_version;
  gapps = value.gapps;
  microg = value.microg;
  arm_translator = arm_translator_to_proto value.arm_translator;
  boot_mode = boot_mode_to_proto value.boot_mode;
  base_image_pin = Option.map pin_to_proto value.base_image_pin;
}
