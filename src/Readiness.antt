-- ===== src/Readiness.antt =====
-- core/andler-core/src/events.rs: the guest readiness ladder of a run.
pub mod Ladder
use andler.Base.{
  ℕ, suc, ◌+◌, Bool, true, false, not, ◌&&◌, ◌||◌, Option, none, some, List, [], ◌∷◌, ltb, ◌==◌,
  any, drop, if◌then◌else◌,
}
use andler.Config.{InstanceKind, linux_vm, android_vm, AndroidBootMode, linux_boot, android_boot}

pub data GuestReadinessLevel : Type 0 where
  serial_up qga_up display_applied guest_os_up waydroid_ready : GuestReadinessLevel

pub data ReadinessProfile : Type 0 where
  linux_guest android_linux_mode android_waydroid : ReadinessProfile

pub data ProbeOutcome : Type 0 where
  ready not_ready unobservable : ProbeOutcome

-- The derived order of the enum: the place of the variant.
abbrev pub discriminant : GuestReadinessLevel → ℕ
discriminant serial_up = 0
discriminant qga_up = 1
discriminant display_applied = 2
discriminant guest_os_up = 3
discriminant waydroid_ready = 4

abbrev pub level_eq : GuestReadinessLevel → GuestReadinessLevel → Bool
level_eq a b = discriminant a == discriminant b

abbrev profile_of_mode : AndroidBootMode → ReadinessProfile
profile_of_mode linux_boot = android_linux_mode
profile_of_mode android_boot = android_waydroid

unfoldable pub profile_of : InstanceKind → ReadinessProfile
profile_of (linux_vm iso_path cdrom_bus) = linux_guest
profile_of (android_vm profile) = profile_of_mode profile.boot_mode

unfoldable pub levels : ReadinessProfile → List GuestReadinessLevel
levels android_waydroid = serial_up ∷ qga_up ∷ display_applied ∷ guest_os_up ∷ waydroid_ready ∷ []
levels _ = serial_up ∷ qga_up ∷ display_applied ∷ guest_os_up ∷ []

unfoldable pub accepts : ReadinessProfile → GuestReadinessLevel → Bool
unfolding levels
accepts profile level = any (level_eq level) (levels profile)

unfoldable pub terminal_level : ReadinessProfile → GuestReadinessLevel
terminal_level android_waydroid = waydroid_ready
terminal_level _ = guest_os_up

-- `ReadinessLadder` and `ReadinessSnapshot` have the same two fields; `snapshot` copies them.
pub record ReadinessLadder : Type 0 where
  pub profile : ReadinessProfile
  pub current : Option GuestReadinessLevel

unfoldable pub ladder_new : ReadinessProfile → ReadinessLadder
ladder_new profile = record { profile = profile; current = none }

abbrev succ_slot : Option ℕ → Option ℕ
succ_slot none = none
succ_slot (some slot) = some (suc slot)

-- `levels().iter().position(|candidate| *candidate == level)`
unfoldable pub position : GuestReadinessLevel → List GuestReadinessLevel → Option ℕ
position level [] = none
position level (candidate ∷ rest) =
    if level_eq candidate level then some 0 else succ_slot (position level rest)

abbrev position_of : Option GuestReadinessLevel → List GuestReadinessLevel → Option ℕ
unfolding position
position_of none candidates = none
position_of (some level) candidates = position level candidates

unfoldable pub reached_slot : ReadinessLadder → Option ℕ
unfolding position levels
reached_slot ladder = position_of ladder.current (levels ladder.profile)

-- `>` of `Option<usize>`: `None` is below every `Some`.
abbrev pub slot_gt : Option ℕ → Option ℕ → Bool
slot_gt none b = false
slot_gt (some a) none = true
slot_gt (some a) (some b) = ltb b a

abbrev is_ready : ProbeOutcome → Bool
is_ready ready = true
is_ready _ = false

unfoldable pub observe :
    ReadinessLadder
    → GuestReadinessLevel
    → ProbeOutcome
    → ReadinessLadder × Option GuestReadinessLevel
unfolding accepts reached_slot
observe ladder level outcome =
    if not (is_ready outcome) || not (accepts ladder.profile level)
    then (ladder, none)
    else if slot_gt (position level (levels ladder.profile)) (reached_slot ladder)
    then (record ladder { current = some level }, some level)
    else (ladder, none)

abbrev level_opt_eq : Option GuestReadinessLevel → GuestReadinessLevel → Bool
level_opt_eq none level = false
level_opt_eq (some a) level = level_eq a level

pub at_terminal : ReadinessLadder → Bool
unfolding terminal_level
at_terminal snapshot = level_opt_eq snapshot.current (terminal_level snapshot.profile)

-- `map_or(0, |slot| slot + 1)`
abbrev skipped : Option ℕ → ℕ
skipped none = 0
skipped (some slot) = suc slot

pub pending : ReadinessLadder → List GuestReadinessLevel
unfolding reached_slot
pending snapshot = drop (skipped (reached_slot snapshot)) (levels snapshot.profile)
