-- ===== src/Keypath/Rows.antt =====
-- core/andler-core/src/config/keypath.rs: the setters and getters that are more than a table.
use andler.Base.{
  ℕ, ◌&&◌, ◌||◌, Option, none, some, List, [], ◌∷◌, ◌++◌, map, Text, codes, text_eq, Result, ok,
  err, ltb, if◌then◌else◌,
}
use andler.Decimal.{to_text, parse_uint, u32_max}
use andler.Words.{trim, to_ascii_lowercase, strip_prefix, split_once}
use andler.Config.{
  Resolution, RenderBackend, NetworkMode, PortForward, PortForwardProtocol, InstanceKind, linux_vm,
  android_vm, ArmTranslator, AndroidBootMode, AndroidVersion, no_translator, libndk, libhoudini,
  android_boot, linux_boot, android11, android13, DiskFormat,
}
use andler.Keypath.Values.{KeyFault, not_a_resolution, not_a_backend, not_a_mode, parse_u32}

unfoldable pub snapshot_timeout_get : Option ℕ → Text
snapshot_timeout_get (some secs) = to_text secs
snapshot_timeout_get none = codes "none"

abbrev some_of : Result ℕ KeyFault → Result (Option ℕ) KeyFault
some_of (ok n) = ok (some n)
some_of (err e) = err e

unfoldable pub snapshot_timeout_read : Text → Result (Option ℕ) KeyFault
snapshot_timeout_read value =
    let word = to_ascii_lowercase (trim value) in
    if text_eq word (codes "none") || text_eq word (codes "off")
    then ok none
    else some_of (parse_u32 value)

unfoldable pub resolution_get : Resolution → Text
resolution_get res = to_text res.width ++ codes "x" ++ to_text res.height

abbrev sides : Option ℕ → Option ℕ → Result Resolution KeyFault
sides none height = err not_a_resolution
sides (some width) none = err not_a_resolution
sides (some width) (some height) =
    if ltb 0 width && ltb 0 height
    then ok (record { width = width; height = height })
    else err not_a_resolution

abbrev split_sides : Option (Text × Text) → Result Resolution KeyFault
split_sides none = err not_a_resolution
split_sides (some (w, h)) = sides (parse_uint u32_max w) (parse_uint u32_max h)

unfoldable pub resolution_read : Text → Result Resolution KeyFault
resolution_read value = split_sides (split_once b'x' value)

unfoldable pub render_backend_get : RenderBackend → Text
render_backend_get (RenderBackend.passthrough gpu_pci_id) = codes "passthrough:" ++ gpu_pci_id
render_backend_get RenderBackend.venus = codes "venus"
render_backend_get RenderBackend.virtio_gpu = codes "virtiogpu"
render_backend_get RenderBackend.virgl = codes "virgl"
render_backend_get RenderBackend.cpu = codes "cpu"

-- What follows a prefix, if anything does.
abbrev pub tail_of : Option Text → Option Text
tail_of none = none
tail_of (some []) = none
tail_of (some (c ∷ t)) = some (c ∷ t)

abbrev passthrough_of : Option Text → Result RenderBackend KeyFault
passthrough_of none = err not_a_backend
passthrough_of (some pci) = ok (RenderBackend.passthrough pci)

unfoldable pub render_backend_read : Text → Result RenderBackend KeyFault
render_backend_read value =
    let word = to_ascii_lowercase (trim value) in
    if text_eq word (codes "venus")
    then ok RenderBackend.venus
    else if text_eq word (codes "virtiogpu") || text_eq word (codes "virtio-gpu")
    then ok RenderBackend.virtio_gpu
    else if text_eq word (codes "virgl")
    then ok RenderBackend.virgl
    else if text_eq word (codes "cpu") || text_eq word (codes "software")
    then ok RenderBackend.cpu
    else passthrough_of (tail_of (strip_prefix (codes "passthrough:") (trim value)))

unfoldable pub network_mode_get : NetworkMode → Text
network_mode_get (NetworkMode.bridge interface) = codes "bridge:" ++ interface
network_mode_get NetworkMode.nat = codes "nat"
network_mode_get NetworkMode.isolated = codes "isolated"

abbrev bridge_of : Option Text → Result NetworkMode KeyFault
bridge_of none = err not_a_mode
bridge_of (some interface) = ok (NetworkMode.bridge interface)

unfoldable pub network_mode_read : Text → Result NetworkMode KeyFault
network_mode_read value =
    let word = to_ascii_lowercase (trim value) in
    if text_eq word (codes "nat")
    then ok NetworkMode.nat
    else if text_eq word (codes "isolated")
    then ok NetworkMode.isolated
    else bridge_of (tail_of (strip_prefix (codes "bridge:") (trim value)))

unfoldable pub join_commas : List Text → Text
join_commas [] = []
join_commas (t ∷ []) = t
join_commas (t ∷ u ∷ rest) = t ++ codes "," ++ join_commas (u ∷ rest)

unfoldable pub affinity_get : Option (List ℕ) → Text
unfolding join_commas
affinity_get (some affinity) = join_commas (map to_text affinity)
affinity_get none = codes "none"

abbrev forward_text : PortForwardProtocol → PortForward → Text
forward_text PortForwardProtocol.tcp f =
    codes "tcp:" ++ to_text f.host_port ++ codes "->" ++ to_text f.guest_port
forward_text PortForwardProtocol.udp f =
    codes "udp:" ++ to_text f.host_port ++ codes "->" ++ to_text f.guest_port

unfoldable pub port_forwards_get : List PortForward → Text
unfolding join_commas
port_forwards_get forwards = join_commas (map (λ f. forward_text f.protocol f) forwards)

unfoldable pub format_name : DiskFormat → Text
format_name DiskFormat.qcow2 = codes "qcow2"
format_name DiskFormat.raw = codes "raw"
format_name DiskFormat.vdi = codes "vdi"

unfoldable pub kind_get : InstanceKind → Text
kind_get (linux_vm iso_path cdrom_bus) = codes "linux"
kind_get (android_vm profile) = codes "android"

abbrev translator_name : ArmTranslator → Text
translator_name no_translator = codes "none"
translator_name libndk = codes "libndk"
translator_name libhoudini = codes "libhoudini"

unfoldable pub android_arm_translator_get : InstanceKind → Text
android_arm_translator_get (android_vm profile) = translator_name profile.arm_translator
android_arm_translator_get (linux_vm iso_path cdrom_bus) = []

abbrev boot_mode_name : AndroidBootMode → Text
boot_mode_name android_boot = codes "android"
boot_mode_name linux_boot = codes "linux"

unfoldable pub android_boot_mode_get : InstanceKind → Text
android_boot_mode_get (android_vm profile) = boot_mode_name profile.boot_mode
android_boot_mode_get (linux_vm iso_path cdrom_bus) = []

abbrev version_name : AndroidVersion → Text
version_name android11 = codes "android11"
version_name android13 = codes "android13"

unfoldable pub android_version_get : InstanceKind → Text
android_version_get (android_vm profile) = version_name profile.android_version
android_version_get (linux_vm iso_path cdrom_bus) = []

unfoldable pub counted : ℕ → Text → Text
counted n unit = to_text n ++ unit
