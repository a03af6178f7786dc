-- ===== src/Keypath/Values.antt =====
-- core/andler-core/src/config/keypath.rs: the texts of values. A setter's reason is a value of an
-- error type that names the failed reading. `to_ascii_lowercase` of a `Debug` name is written out.
use andler.Base.{
  ℕ, Bool, true, false, Option, none, some, List, [], ◌∷◌, Text, codes, text_eq, any, is_empty,
  Result, ok, err, ◌==◌, if◌then◌else◌,
}
use andler.Decimal.{parse_uint, u32_max}
use andler.Words.{trim, to_ascii_lowercase, remove_char}
use andler.Sizes.{SizeError, parse_size}
use andler.Config.{CpuPriority, DisplayEngine, NatBackend, AudioBackend, AudioDevice, PointerMode}

pub data KeyFault : Type 0 where
  not_a_number not_a_bool not_in_enum zero_size empty_text : KeyFault
  not_a_resolution not_a_backend not_a_mode : KeyFault
  bad_size : SizeError → KeyFault

abbrev pub or_fault {ℓ} : {A : Type ℓ} → KeyFault → Option A → Result A KeyFault
or_fault fault none = err fault
or_fault fault (some a) = ok a

unfoldable pub parse_u32 : Text → Result ℕ KeyFault
parse_u32 value = or_fault not_a_number (parse_uint u32_max value)

abbrev is_any : List Text → Text → Bool
is_any words t = any (text_eq t) words

unfoldable pub parse_bool : Text → Result Bool KeyFault
parse_bool value =
    let word = to_ascii_lowercase (trim value) in
    if is_any (codes "true" ∷ codes "yes" ∷ codes "on" ∷ codes "1" ∷ []) word
    then ok true
    else if is_any (codes "false" ∷ codes "no" ∷ codes "off" ∷ codes "0" ∷ []) word
    then ok false
    else err not_a_bool

unfoldable pub find_name {ℓ} : {A : Type ℓ} → Text → List (Text × A) → Option A
find_name needle [] = none
find_name needle ((name, variant) ∷ table) =
    let later = find_name needle table in if text_eq name needle then some variant else later

unfoldable pub parse_enum {ℓ} : {A : Type ℓ} → List (Text × A) → Text → Result A KeyFault
unfolding find_name
parse_enum table value =
    let needle = remove_char b'_' (remove_char b'-' (to_ascii_lowercase (trim value))) in
    or_fault not_in_enum (find_name needle table)

abbrev checked_size : Result ℕ SizeError → Result ℕ KeyFault
checked_size (err e) = err (bad_size e)
checked_size (ok bytes) = if bytes == 0 then err zero_size else ok bytes

unfoldable pub parse_size_above_zero : Text → Result ℕ KeyFault
parse_size_above_zero value = checked_size (parse_size value)

unfoldable pub parse_name : Text → Result Text KeyFault
parse_name value = let name = trim value in if is_empty name then err empty_text else ok name

unfoldable pub bool_str : Bool → Text
bool_str true = codes "true"
bool_str false = codes "false"

abbrev pub priority_table : List (Text × CpuPriority)
priority_table =
    (codes "low", CpuPriority.low)
    ∷ (codes "normal", CpuPriority.normal)
    ∷ (codes "high", CpuPriority.high)
    ∷ []

unfoldable pub priority_name : CpuPriority → Text
priority_name CpuPriority.low = codes "low"
priority_name CpuPriority.normal = codes "normal"
priority_name CpuPriority.high = codes "high"

abbrev pub engine_table : List (Text × DisplayEngine)
engine_table =
    (codes "sdl", DisplayEngine.sdl)
    ∷ (codes "gtk", DisplayEngine.gtk)
    ∷ (codes "spice", DisplayEngine.spice)
    ∷ (codes "dbus", DisplayEngine.dbus)
    ∷ (codes "none", DisplayEngine.no_display)
    ∷ []

unfoldable pub engine_name : DisplayEngine → Text
engine_name DisplayEngine.sdl = codes "sdl"
engine_name DisplayEngine.gtk = codes "gtk"
engine_name DisplayEngine.spice = codes "spice"
engine_name DisplayEngine.dbus = codes "dbus"
engine_name DisplayEngine.no_display = codes "none"

abbrev pub nat_table : List (Text × NatBackend)
nat_table = (codes "slirp", NatBackend.slirp) ∷ (codes "passt", NatBackend.passt) ∷ []

unfoldable pub nat_name : NatBackend → Text
nat_name NatBackend.slirp = codes "slirp"
nat_name NatBackend.passt = codes "passt"

abbrev pub audio_table : List (Text × AudioBackend)
audio_table =
    (codes "pipewire", AudioBackend.pipewire)
    ∷ (codes "pulseaudio", AudioBackend.pulseaudio)
    ∷ (codes "none", AudioBackend.no_audio)
    ∷ []

unfoldable pub audio_name : AudioBackend → Text
audio_name AudioBackend.pipewire = codes "pipewire"
audio_name AudioBackend.pulseaudio = codes "pulseaudio"
audio_name AudioBackend.no_audio = codes "none"

abbrev pub device_table : List (Text × AudioDevice)
device_table =
    (codes "virtiosound", AudioDevice.virtio_sound) ∷ (codes "ich9hda", AudioDevice.ich9_hda) ∷ []

unfoldable pub device_name : AudioDevice → Text
device_name AudioDevice.virtio_sound = codes "virtiosound"
device_name AudioDevice.ich9_hda = codes "ich9hda"

abbrev pub pointer_table : List (Text × PointerMode)
pointer_table = (codes "tablet", PointerMode.tablet) ∷ (codes "mouse", PointerMode.mouse) ∷ []

unfoldable pub pointer_name : PointerMode → Text
pointer_name PointerMode.tablet = codes "tablet"
pointer_name PointerMode.mouse = codes "mouse"
