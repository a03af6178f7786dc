-- ===== src/Rpc/Enums.antt =====
-- services/andler-rpc/src/convert.rs: the enums, from their messages (`TryFrom`, or `From` where an
-- unspecified value has a meaning) and to them.
use andler.Base.{Result, ok, err}
use andler.Config.{
  CpuPriority, DiskFormat, CdromBus, DisplayEngine, NatBackend, PortForwardProtocol, AudioBackend,
  AudioDevice, PointerMode, AndroidVersion, ArmTranslator, AndroidBootMode, BackendKind,
}
use andler.Rpc.Messages.{
  ProtoCpuPriority, ProtoDiskFormat, ProtoCdromBus, ProtoDisplayEngine, ProtoNatBackend,
  ProtoPortForwardProtocol, ProtoAudioBackend, ProtoAudioDevice, ProtoPointerMode,
  ProtoAndroidVersion, ProtoArmTranslator, ProtoAndroidBootMode, ProtoBackendKind,
}
use andler.Rpc.Errors.{
  ConvertError, missing_android_version, missing_cpu_priority, missing_disk_format,
  missing_display_engine, missing_audio_backend, missing_backend_kind,
  missing_port_forward_protocol,
}

unfoldable pub android_version_from_proto : ProtoAndroidVersion → Result AndroidVersion ConvertError
android_version_from_proto ProtoAndroidVersion.android11 = ok AndroidVersion.android11
android_version_from_proto ProtoAndroidVersion.android13 = ok AndroidVersion.android13
android_version_from_proto ProtoAndroidVersion.unspecified = err missing_android_version

unfoldable pub android_version_to_proto : AndroidVersion → ProtoAndroidVersion
android_version_to_proto AndroidVersion.android11 = ProtoAndroidVersion.android11
android_version_to_proto AndroidVersion.android13 = ProtoAndroidVersion.android13

-- An unspecified boot mode is the default one.
unfoldable pub boot_mode_from_proto : ProtoAndroidBootMode → Result AndroidBootMode ConvertError
boot_mode_from_proto ProtoAndroidBootMode.android = ok AndroidBootMode.android_boot
boot_mode_from_proto ProtoAndroidBootMode.linux = ok AndroidBootMode.linux_boot
boot_mode_from_proto ProtoAndroidBootMode.unspecified = ok AndroidBootMode.android_boot

unfoldable pub boot_mode_to_proto : AndroidBootMode → ProtoAndroidBootMode
boot_mode_to_proto AndroidBootMode.android_boot = ProtoAndroidBootMode.android
boot_mode_to_proto AndroidBootMode.linux_boot = ProtoAndroidBootMode.linux

unfoldable pub arm_translator_from_proto : ProtoArmTranslator → ArmTranslator
arm_translator_from_proto ProtoArmTranslator.libndk = ArmTranslator.libndk
arm_translator_from_proto ProtoArmTranslator.libhoudini = ArmTranslator.libhoudini
arm_translator_from_proto ProtoArmTranslator.no_translator = ArmTranslator.no_translator
arm_translator_from_proto ProtoArmTranslator.unspecified = ArmTranslator.no_translator

unfoldable pub arm_translator_to_proto : ArmTranslator → ProtoArmTranslator
arm_translator_to_proto ArmTranslator.no_translator = ProtoArmTranslator.no_translator
arm_translator_to_proto ArmTranslator.libndk = ProtoArmTranslator.libndk
arm_translator_to_proto ArmTranslator.libhoudini = ProtoArmTranslator.libhoudini

unfoldable pub cpu_priority_from_proto : ProtoCpuPriority → Result CpuPriority ConvertError
cpu_priority_from_proto ProtoCpuPriority.low = ok CpuPriority.low
cpu_priority_from_proto ProtoCpuPriority.normal = ok CpuPriority.normal
cpu_priority_from_proto ProtoCpuPriority.high = ok CpuPriority.high
cpu_priority_from_proto ProtoCpuPriority.unspecified = err missing_cpu_priority

unfoldable pub cpu_priority_to_proto : CpuPriority → ProtoCpuPriority
cpu_priority_to_proto CpuPriority.low = ProtoCpuPriority.low
cpu_priority_to_proto CpuPriority.normal = ProtoCpuPriority.normal
cpu_priority_to_proto CpuPriority.high = ProtoCpuPriority.high

unfoldable pub disk_format_from_proto : ProtoDiskFormat → Result DiskFormat ConvertError
disk_format_from_proto ProtoDiskFormat.qcow2 = ok DiskFormat.qcow2
disk_format_from_proto ProtoDiskFormat.raw = ok DiskFormat.raw
disk_format_from_proto ProtoDiskFormat.vdi = ok DiskFormat.vdi
disk_format_from_proto ProtoDiskFormat.unspecified = err missing_disk_format

unfoldable pub disk_format_to_proto : DiskFormat → ProtoDiskFormat
disk_format_to_proto DiskFormat.qcow2 = ProtoDiskFormat.qcow2
disk_format_to_proto DiskFormat.raw = ProtoDiskFormat.raw
disk_format_to_proto DiskFormat.vdi = ProtoDiskFormat.vdi

-- `CdromBus::default()` is `Ide`.
unfoldable pub cdrom_bus_from_proto : ProtoCdromBus → CdromBus
cdrom_bus_from_proto ProtoCdromBus.virtio_scsi = CdromBus.virtio_scsi
cdrom_bus_from_proto ProtoCdromBus.ide = CdromBus.ide
cdrom_bus_from_proto ProtoCdromBus.unspecified = CdromBus.ide

unfoldable pub cdrom_bus_to_proto : CdromBus → ProtoCdromBus
cdrom_bus_to_proto CdromBus.virtio_scsi = ProtoCdromBus.virtio_scsi
cdrom_bus_to_proto CdromBus.ide = ProtoCdromBus.ide

unfoldable pub display_engine_from_proto : ProtoDisplayEngine → Result DisplayEngine ConvertError
display_engine_from_proto ProtoDisplayEngine.sdl = ok DisplayEngine.sdl
display_engine_from_proto ProtoDisplayEngine.spice = ok DisplayEngine.spice
display_engine_from_proto ProtoDisplayEngine.dbus = ok DisplayEngine.dbus
display_engine_from_proto ProtoDisplayEngine.display_none = ok DisplayEngine.no_display
display_engine_from_proto ProtoDisplayEngine.gtk = ok DisplayEngine.gtk
display_engine_from_proto ProtoDisplayEngine.unspecified = err missing_display_engine

unfoldable pub display_engine_to_proto : DisplayEngine → ProtoDisplayEngine
display_engine_to_proto DisplayEngine.sdl = ProtoDisplayEngine.sdl
display_engine_to_proto DisplayEngine.spice = ProtoDisplayEngine.spice
display_engine_to_proto DisplayEngine.dbus = ProtoDisplayEngine.dbus
display_engine_to_proto DisplayEngine.no_display = ProtoDisplayEngine.display_none
display_engine_to_proto DisplayEngine.gtk = ProtoDisplayEngine.gtk

unfoldable pub nat_backend_from_proto : ProtoNatBackend → NatBackend
nat_backend_from_proto ProtoNatBackend.passt = NatBackend.passt
nat_backend_from_proto ProtoNatBackend.slirp = NatBackend.slirp
nat_backend_from_proto ProtoNatBackend.unspecified = NatBackend.slirp

unfoldable pub nat_backend_to_proto : NatBackend → ProtoNatBackend
nat_backend_to_proto NatBackend.slirp = ProtoNatBackend.slirp
nat_backend_to_proto NatBackend.passt = ProtoNatBackend.passt

unfoldable pub protocol_from_proto :
    ProtoPortForwardProtocol → Result PortForwardProtocol ConvertError
protocol_from_proto ProtoPortForwardProtocol.tcp = ok PortForwardProtocol.tcp
protocol_from_proto ProtoPortForwardProtocol.udp = ok PortForwardProtocol.udp
protocol_from_proto ProtoPortForwardProtocol.unspecified = err missing_port_forward_protocol

unfoldable pub protocol_to_proto : PortForwardProtocol → ProtoPortForwardProtocol
protocol_to_proto PortForwardProtocol.tcp = ProtoPortForwardProtocol.tcp
protocol_to_proto PortForwardProtocol.udp = ProtoPortForwardProtocol.udp

unfoldable pub audio_backend_from_proto : ProtoAudioBackend → Result AudioBackend ConvertError
audio_backend_from_proto ProtoAudioBackend.pipewire = ok AudioBackend.pipewire
audio_backend_from_proto ProtoAudioBackend.pulseaudio = ok AudioBackend.pulseaudio
audio_backend_from_proto ProtoAudioBackend.audio_none = ok AudioBackend.no_audio
audio_backend_from_proto ProtoAudioBackend.unspecified = err missing_audio_backend

unfoldable pub audio_backend_to_proto : AudioBackend → ProtoAudioBackend
audio_backend_to_proto AudioBackend.pipewire = ProtoAudioBackend.pipewire
audio_backend_to_proto AudioBackend.pulseaudio = ProtoAudioBackend.pulseaudio
audio_backend_to_proto AudioBackend.no_audio = ProtoAudioBackend.audio_none

unfoldable pub audio_device_from_proto : ProtoAudioDevice → AudioDevice
audio_device_from_proto ProtoAudioDevice.ich9_hda = AudioDevice.ich9_hda
audio_device_from_proto ProtoAudioDevice.virtio_sound = AudioDevice.virtio_sound
audio_device_from_proto ProtoAudioDevice.unspecified = AudioDevice.virtio_sound

unfoldable pub audio_device_to_proto : AudioDevice → ProtoAudioDevice
audio_device_to_proto AudioDevice.virtio_sound = ProtoAudioDevice.virtio_sound
audio_device_to_proto AudioDevice.ich9_hda = ProtoAudioDevice.ich9_hda

unfoldable pub pointer_mode_to_proto : PointerMode → ProtoPointerMode
pointer_mode_to_proto PointerMode.tablet = ProtoPointerMode.tablet
pointer_mode_to_proto PointerMode.mouse = ProtoPointerMode.mouse

unfoldable pub backend_from_proto : ProtoBackendKind → Result BackendKind ConvertError
backend_from_proto ProtoBackendKind.qemu = ok BackendKind.qemu
backend_from_proto ProtoBackendKind.unspecified = err missing_backend_kind

unfoldable pub backend_to_proto : BackendKind → ProtoBackendKind
backend_to_proto BackendKind.qemu = ProtoBackendKind.qemu
