-- ===== src/Rpc/Complete.antt =====
-- Which messages of parts of a configuration the conversions accept.
use andler.Base.{◌≢◌, ◌↔◌, Text, All, arith}
use andler.Rpc.Messages.{
  ProtoCpuPriority, ProtoCpuConfig, ProtoDiskFormat, ProtoDiskConfig, ProtoDisplayEngine,
  ProtoDisplayConfig, ProtoRenderBackend, ProtoGpuConfig, ProtoNetworkMode,
  ProtoPortForwardProtocol, ProtoPortForward, ProtoNetworkConfig, ProtoAudioBackend,
  ProtoAudioConfig, ProtoAndroidVersion, ProtoAndroidProfile, ProtoCdromBus, InstanceKindKind,
  ProtoInstanceKind, ProtoBackendKind, ProtoAndroidBootMode,
}
use andler.Rpc.Acceptance.{
  >>=-Accepts_always, required_only-Accepts, Given, IsGiven, Accepts, >>=-Accepts, required-Accepts,
  required_last-Accepts, ok_or-Accepts, last-Accepts, collect-Accepts,
}
use andler.Rpc.Errors.{ok_or, collect}
use andler.Rpc.Enums.{
  cpu_priority_from_proto, disk_format_from_proto, display_engine_from_proto,
  audio_backend_from_proto, protocol_from_proto, android_version_from_proto, boot_mode_from_proto,
  backend_from_proto,
}
use andler.Rpc.Devices.{
  cpu_from_proto, disk_from_proto, display_from_proto, render_backend_from_proto, gpu_from_proto,
  audio_from_proto,
}
use andler.Rpc.Inputs.{
  network_mode_from_proto, port_forward_from_proto, network_from_proto, profile_from_proto,
}
use andler.Rpc.Instances.{required_cdrom_bus, kind_of_message, kind_from_proto}

cpu_priority-Accepts :
    (x : ProtoCpuPriority)
    → Accepts (cpu_priority_from_proto x) ↔ (x ≢ ProtoCpuPriority.unspecified)
unfolding cpu_priority_from_proto
cpu_priority-Accepts x = (λ h. λ e. ground arith, λ h. ground arith)

disk_format-Accepts :
    (x : ProtoDiskFormat) → Accepts (disk_format_from_proto x) ↔ (x ≢ ProtoDiskFormat.unspecified)
unfolding disk_format_from_proto
disk_format-Accepts x = (λ h. λ e. ground arith, λ h. ground arith)

display_engine-Accepts :
    (x : ProtoDisplayEngine)
    → Accepts (display_engine_from_proto x) ↔ (x ≢ ProtoDisplayEngine.unspecified)
unfolding display_engine_from_proto
display_engine-Accepts x = (λ h. λ e. ground arith, λ h. ground arith)

audio_backend-Accepts :
    (x : ProtoAudioBackend)
    → Accepts (audio_backend_from_proto x) ↔ (x ≢ ProtoAudioBackend.unspecified)
unfolding audio_backend_from_proto
audio_backend-Accepts x = (λ h. λ e. ground arith, λ h. ground arith)

protocol-Accepts :
    (x : ProtoPortForwardProtocol)
    → Accepts (protocol_from_proto x) ↔ (x ≢ ProtoPortForwardProtocol.unspecified)
unfolding protocol_from_proto
protocol-Accepts x = (λ h. λ e. ground arith, λ h. ground arith)

android_version-Accepts :
    (x : ProtoAndroidVersion)
    → Accepts (android_version_from_proto x) ↔ (x ≢ ProtoAndroidVersion.unspecified)
unfolding android_version_from_proto
android_version-Accepts x = (λ h. λ e. ground arith, λ h. ground arith)

pub backend-Accepts :
    (x : ProtoBackendKind) → Accepts (backend_from_proto x) ↔ (x ≢ ProtoBackendKind.unspecified)
unfolding backend_from_proto
backend-Accepts x = (λ h. λ e. ground arith, λ h. ground arith)

boot_mode-Accepts : (x : ProtoAndroidBootMode) → Accepts (boot_mode_from_proto x) ↔ Unit {0}
unfolding boot_mode_from_proto
boot_mode-Accepts x = (λ h. tt, λ h. ground arith)

abbrev pub IsCompleteCpu : ProtoCpuConfig → Type 0
IsCompleteCpu m = m.priority ≢ ProtoCpuPriority.unspecified

pub cpu-Accepts : (m : ProtoCpuConfig) → Accepts (cpu_from_proto m) ↔ IsCompleteCpu m
unfolding cpu_from_proto
cpu-Accepts m =
    last-Accepts (cpu_priority_from_proto m.priority) _ (cpu_priority-Accepts m.priority)

abbrev pub IsCompleteDisk : ProtoDiskConfig → Type 0
IsCompleteDisk m = m.format ≢ ProtoDiskFormat.unspecified

pub disk-Accepts : (m : ProtoDiskConfig) → Accepts (disk_from_proto m) ↔ IsCompleteDisk m
unfolding disk_from_proto
disk-Accepts m = last-Accepts (disk_format_from_proto m.format) _ (disk_format-Accepts m.format)

abbrev pub IsCompleteDisplay : ProtoDisplayConfig → Type 0
IsCompleteDisplay m = (m.display_engine ≢ ProtoDisplayEngine.unspecified) × IsGiven m.resolution

pub display-Accepts :
    (m : ProtoDisplayConfig) → Accepts (display_from_proto m) ↔ IsCompleteDisplay m
unfolding display_from_proto
display-Accepts m =
    >>=-Accepts (display_engine_from_proto m.display_engine) _
      (display_engine-Accepts m.display_engine)
      (λ engine. last-Accepts (ok_or _ m.resolution) _ (ok_or-Accepts _ m.resolution))

abbrev pub IsCompleteGpu : ProtoGpuConfig → Type 0
IsCompleteGpu m = Given (λ (b : ProtoRenderBackend). IsGiven b.kind) m.render_backend

render_backend-Accepts :
    (m : ProtoRenderBackend) → Accepts (render_backend_from_proto m) ↔ IsGiven m.kind
unfolding render_backend_from_proto
render_backend-Accepts m = last-Accepts (ok_or _ m.kind) _ (ok_or-Accepts _ m.kind)

pub gpu-Accepts : (m : ProtoGpuConfig) → Accepts (gpu_from_proto m) ↔ IsCompleteGpu m
unfolding gpu_from_proto
gpu-Accepts m = required_last-Accepts _ m.render_backend _ _ render_backend-Accepts

abbrev pub IsCompleteAudio : ProtoAudioConfig → Type 0
IsCompleteAudio m = m.backend ≢ ProtoAudioBackend.unspecified

pub audio-Accepts : (m : ProtoAudioConfig) → Accepts (audio_from_proto m) ↔ IsCompleteAudio m
unfolding audio_from_proto
audio-Accepts m =
    last-Accepts (audio_backend_from_proto m.backend) _ (audio_backend-Accepts m.backend)

abbrev pub IsCompleteForward : ProtoPortForward → Type 0
IsCompleteForward m = m.protocol ≢ ProtoPortForwardProtocol.unspecified

port_forward-Accepts :
    (m : ProtoPortForward) → Accepts (port_forward_from_proto m) ↔ IsCompleteForward m
unfolding port_forward_from_proto
port_forward-Accepts m =
    last-Accepts (protocol_from_proto m.protocol) _ (protocol-Accepts m.protocol)

abbrev pub IsCompleteNetwork : ProtoNetworkConfig → Type 0
IsCompleteNetwork m =
    Given (λ (mode : ProtoNetworkMode). IsGiven mode.kind) m.mode
    × All IsCompleteForward m.port_forwards

network_mode-Accepts : (m : ProtoNetworkMode) → Accepts (network_mode_from_proto m) ↔ IsGiven m.kind
unfolding network_mode_from_proto
network_mode-Accepts m = last-Accepts (ok_or _ m.kind) _ (ok_or-Accepts _ m.kind)

pub network-Accepts :
    (m : ProtoNetworkConfig) → Accepts (network_from_proto m) ↔ IsCompleteNetwork m
unfolding network_from_proto
network-Accepts m = required-Accepts _ m.mode _ _ network_mode-Accepts (λ mode.
    last-Accepts (collect port_forward_from_proto m.port_forwards) _
      (collect-Accepts _ port_forward-Accepts m.port_forwards))

abbrev pub IsCompleteProfile : ProtoAndroidProfile → Type 0
IsCompleteProfile m = m.android_version ≢ ProtoAndroidVersion.unspecified

profile-Accepts : (m : ProtoAndroidProfile) → Accepts (profile_from_proto m) ↔ IsCompleteProfile m
unfolding profile_from_proto
profile-Accepts m =
    >>=-Accepts_always (android_version_from_proto m.android_version) _
      (android_version-Accepts m.android_version)
      (λ version.
        (last-Accepts (boot_mode_from_proto m.boot_mode) _ (boot_mode-Accepts m.boot_mode)).1 tt)

abbrev pub IsCompleteKind : InstanceKindKind → Type 0
IsCompleteKind (InstanceKindKind.linux_vm iso_path cdrom_bus) =
    cdrom_bus ≢ ProtoCdromBus.unspecified
IsCompleteKind (InstanceKindKind.android_vm profile) = Given IsCompleteProfile profile

required_cdrom_bus-Accepts :
    (name : Text) (b : ProtoCdromBus)
    → Accepts (required_cdrom_bus name b) ↔ (b ≢ ProtoCdromBus.unspecified)
unfolding required_cdrom_bus
required_cdrom_bus-Accepts name b = (λ h. λ e. ground arith, λ h. ground arith)

kind_of_message-Accepts : (k : InstanceKindKind) → Accepts (kind_of_message k) ↔ IsCompleteKind k
unfolding kind_of_message
kind_of_message-Accepts (InstanceKindKind.linux_vm iso_path bus) =
    last-Accepts (required_cdrom_bus _ bus) _ (required_cdrom_bus-Accepts _ bus)
kind_of_message-Accepts (InstanceKindKind.android_vm profile) =
    required_last-Accepts _ profile _ _ profile-Accepts

pub kind-Accepts :
    (m : ProtoInstanceKind) → Accepts (kind_from_proto m) ↔ Given IsCompleteKind m.kind
unfolding kind_from_proto
kind-Accepts m = required_only-Accepts _ m.kind _ kind_of_message-Accepts
