-- ===== src/Rpc/RoundTrip.antt =====
-- Sending a device's configuration and reading it back.
use andler.Base.{◌≡◌, refl, Option, none, some, List, [], ◌∷◌, map, Result, ok, arith}
use mathlib.Core.Option
use andler.Config.{
  CpuPriority, CpuConfig, MemoryConfig, DiskFormat, DiskConfig, DisplayEngine, DisplayConfig,
  RenderBackend, GpuConfig, AudioBackend, AudioDevice, AudioConfig, PointerMode, InputConfig,
  NatBackend, NetworkMode, PortForwardProtocol, PortForward, NetworkConfig, BaseImagePin,
  AndroidVersion, ArmTranslator, AndroidBootMode, AndroidProfile, FirmwareConfig,
}
use andler.Rpc.Errors.{ok_or, unwrap_or_default, unless_empty, collect}
use andler.Rpc.Enums.{
  cpu_priority_from_proto, cpu_priority_to_proto, disk_format_from_proto, disk_format_to_proto,
  display_engine_from_proto, display_engine_to_proto, audio_backend_from_proto,
  audio_backend_to_proto, audio_device_from_proto, audio_device_to_proto, pointer_mode_to_proto,
  nat_backend_from_proto, nat_backend_to_proto, protocol_from_proto, protocol_to_proto,
  android_version_from_proto, android_version_to_proto, boot_mode_from_proto, boot_mode_to_proto,
  arm_translator_from_proto, arm_translator_to_proto,
}
use andler.Rpc.Carried.{carried_option, carried_cpu, carried_disk, carried_forward, carried_network}
use andler.Rpc.Inputs.{
  pointer_mode_from_proto, input_from_proto, input_to_proto, network_mode_of_kind,
  kind_of_network_mode, network_mode_from_proto, network_mode_to_proto, port_forward_from_proto,
  port_forward_to_proto, network_from_proto, network_to_proto, pin_from_proto, pin_to_proto,
  profile_from_proto, profile_to_proto, is_tablet,
}
use andler.Rpc.Devices.{
  cpu_from_proto, cpu_to_proto, memory_from_proto, memory_to_proto, disk_from_proto, disk_to_proto,
  resolution_from_proto, resolution_to_proto, display_from_proto, display_to_proto,
  render_backend_of_kind, kind_of_render_backend, render_backend_from_proto,
  render_backend_to_proto, gpu_from_proto, gpu_to_proto, firmware_from_proto, firmware_to_proto,
  audio_from_proto, audio_to_proto,
}

module _ {ℓ} {A : Type ℓ} where
  unless_empty-unwrap_or_default :
      (o : Option (List A)) → unless_empty (unwrap_or_default o) ≡ carried_option o
  unfolding unless_empty unwrap_or_default carried_option
  unless_empty-unwrap_or_default o = ground arith

module _ {ℓ κ μ ν} {A : Type ℓ} {B : Type κ} {C : Type μ} {E : Type ν} where
  -- A list is read back element by element.
  pub collect-map :
      (f : A → Result B E) (g : C → A) (c : C → B)
      → ((x : C) → f (g x) ≡ ok (c x))
      → (xs : List C) → collect f (map g xs) ≡ ok (map c xs)
  unfolding collect
  collect-map f g c h [] = refl
  collect-map f g c h (x ∷ xs) = rw (h x, collect-map f g c h xs) refl

cpu_priority_round_trip :
    (x : CpuPriority) → cpu_priority_from_proto (cpu_priority_to_proto x) ≡ ok x
unfolding cpu_priority_from_proto cpu_priority_to_proto
cpu_priority_round_trip x = ground arith

disk_format_round_trip : (x : DiskFormat) → disk_format_from_proto (disk_format_to_proto x) ≡ ok x
unfolding disk_format_from_proto disk_format_to_proto
disk_format_round_trip x = ground arith

display_engine_round_trip :
    (x : DisplayEngine) → display_engine_from_proto (display_engine_to_proto x) ≡ ok x
unfolding display_engine_from_proto display_engine_to_proto
display_engine_round_trip x = ground arith

audio_backend_round_trip :
    (x : AudioBackend) → audio_backend_from_proto (audio_backend_to_proto x) ≡ ok x
unfolding audio_backend_from_proto audio_backend_to_proto
audio_backend_round_trip x = ground arith

protocol_round_trip : (x : PortForwardProtocol) → protocol_from_proto (protocol_to_proto x) ≡ ok x
unfolding protocol_from_proto protocol_to_proto
protocol_round_trip x = ground arith

android_version_round_trip :
    (x : AndroidVersion) → android_version_from_proto (android_version_to_proto x) ≡ ok x
unfolding android_version_from_proto android_version_to_proto
android_version_round_trip x = ground arith

boot_mode_round_trip : (x : AndroidBootMode) → boot_mode_from_proto (boot_mode_to_proto x) ≡ ok x
unfolding boot_mode_from_proto boot_mode_to_proto
boot_mode_round_trip x = ground arith

audio_device_round_trip : (x : AudioDevice) → audio_device_from_proto (audio_device_to_proto x) ≡ x
unfolding audio_device_from_proto audio_device_to_proto
audio_device_round_trip x = ground arith

nat_backend_round_trip : (x : NatBackend) → nat_backend_from_proto (nat_backend_to_proto x) ≡ x
unfolding nat_backend_from_proto nat_backend_to_proto
nat_backend_round_trip x = ground arith

arm_translator_round_trip :
    (x : ArmTranslator) → arm_translator_from_proto (arm_translator_to_proto x) ≡ x
unfolding arm_translator_from_proto arm_translator_to_proto
arm_translator_round_trip x = ground arith

render_kind_round_trip : (x : RenderBackend) → render_backend_of_kind (kind_of_render_backend x) ≡ x
unfolding render_backend_of_kind kind_of_render_backend
render_kind_round_trip x = ground arith

network_kind_round_trip : (x : NetworkMode) → network_mode_of_kind (kind_of_network_mode x) ≡ x
unfolding network_mode_of_kind kind_of_network_mode
network_kind_round_trip x = ground arith

pub cpu_round_trip : (c : CpuConfig) → cpu_from_proto (cpu_to_proto c) ≡ ok (carried_cpu c)
unfolding cpu_from_proto cpu_to_proto
cpu_round_trip c =
    rw (cpu_priority_round_trip c.priority, unless_empty-unwrap_or_default c.affinity) refl

pub disk_round_trip : (d : DiskConfig) → disk_from_proto (disk_to_proto d) ≡ ok (carried_disk d)
unfolding disk_from_proto disk_to_proto
disk_round_trip d =
    rw (disk_format_round_trip d.format, unless_empty-unwrap_or_default d.base_image) refl

pub memory_round_trip : (m : MemoryConfig) → memory_from_proto (memory_to_proto m) ≡ m
unfolding memory_from_proto memory_to_proto
memory_round_trip m = refl

pub firmware_round_trip : (f : FirmwareConfig) → firmware_from_proto (firmware_to_proto f) ≡ f
unfolding firmware_from_proto firmware_to_proto
firmware_round_trip f = refl

pub display_round_trip : (d : DisplayConfig) → display_from_proto (display_to_proto d) ≡ ok d
unfolding display_from_proto display_to_proto resolution_from_proto resolution_to_proto ok_or
display_round_trip d = rw (display_engine_round_trip d.display_engine) refl

pub gpu_round_trip : (g : GpuConfig) → gpu_from_proto (gpu_to_proto g) ≡ ok g
unfolding gpu_from_proto gpu_to_proto render_backend_from_proto render_backend_to_proto ok_or
gpu_round_trip g = rw (render_kind_round_trip g.render_backend) refl

pub audio_round_trip : (a : AudioConfig) → audio_from_proto (audio_to_proto a) ≡ ok a
unfolding audio_from_proto audio_to_proto
audio_round_trip a = rw (audio_backend_round_trip a.backend, audio_device_round_trip a.device) refl

pointer_mode_round_trip :
    (m : PointerMode) → pointer_mode_from_proto (pointer_mode_to_proto m) (is_tablet m) ≡ m
unfolding pointer_mode_from_proto pointer_mode_to_proto
pointer_mode_round_trip m = ground arith

pub input_round_trip : (i : InputConfig) → input_from_proto (input_to_proto i) ≡ i
unfolding input_from_proto input_to_proto
input_round_trip i = rw (pointer_mode_round_trip i.pointer_mode) refl

port_forward_round_trip :
    (f : PortForward) → port_forward_from_proto (port_forward_to_proto f) ≡ ok (carried_forward f)
unfolding port_forward_from_proto port_forward_to_proto
port_forward_round_trip f =
    rw (protocol_round_trip f.protocol, unless_empty-unwrap_or_default f.host_address) refl

pub network_round_trip :
    (n : NetworkConfig) → network_from_proto (network_to_proto n) ≡ ok (carried_network n)
unfolding network_from_proto network_to_proto network_mode_from_proto network_mode_to_proto ok_or
network_round_trip n =
    rw
      (
        network_kind_round_trip n.mode,
        nat_backend_round_trip n.nat_backend,
        collect-map _ _ carried_forward port_forward_round_trip n.port_forwards,
      )
      refl

pin_round_trip :
    (o : Option BaseImagePin) → Option.map pin_from_proto (Option.map pin_to_proto o) ≡ o
unfolding pin_from_proto pin_to_proto
pin_round_trip none = refl
pin_round_trip (some pin) = refl

pub profile_round_trip : (p : AndroidProfile) → profile_from_proto (profile_to_proto p) ≡ ok p
unfolding profile_from_proto profile_to_proto
profile_round_trip p =
    rw
      (
        android_version_round_trip p.android_version,
        boot_mode_round_trip p.boot_mode,
        arm_translator_round_trip p.arm_translator,
        pin_round_trip p.base_image_pin,
      )
      refl
