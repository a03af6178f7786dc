-- ===== src/Readiness/Ladder.antt =====
-- The readiness ladder moves only upwards, to the strongest level that a probe has confirmed.
use andler.Base.{
  ℕ, suc, ◌+◌, ◌≤◌, ◌≡◌, refl, ap, ◌↔◌, Bool, true, Option, none, some, List, [], ◌∷◌, arith,
  length, leb, retain, if◌then◌else◌,
}
use andler.Readiness.{
  GuestReadinessLevel, ReadinessProfile, linux_guest, android_linux_mode, android_waydroid,
  ProbeOutcome, ready, discriminant, levels, accepts, ReadinessLadder, ladder_new, observe,
  at_terminal, pending,
}
use Prim.Native.Nat.{max}

-- How far up a position stands: 0 before the first level.
abbrev pub height : Option GuestReadinessLevel → ℕ
height none = 0
height (some level) = suc (discriminant level)

unfoldable pub on_ladder : ReadinessProfile → Option GuestReadinessLevel → Bool
on_ladder profile none = true
on_ladder profile (some level) = accepts profile level

-- A level of the profile, or none: what every ladder holds from its creation on.
abbrev pub IsOnLadder : ReadinessLadder → Type 0
IsOnLadder ladder = on_ladder ladder.profile ladder.current ≡ true

abbrev pub Probe : Type 0
Probe = GuestReadinessLevel × ProbeOutcome

-- The height that one probe is worth under a profile, on its own.
pub worth : ReadinessProfile → Probe → ℕ
worth profile (level, ready) = if accepts profile level then suc (discriminant level) else 0
worth profile (level, _) = 0

pub strongest : ReadinessProfile → List Probe → ℕ
strongest profile [] = 0
strongest profile (probe ∷ probes) = max (worth profile probe) (strongest profile probes)

pub observe_all : ReadinessLadder → List Probe → ReadinessLadder
observe_all ladder [] = ladder
observe_all ladder ((level, outcome) ∷ probes) = observe_all (observe ladder level outcome).0 probes

observe_step :
    (profile : ReadinessProfile) (current : Option GuestReadinessLevel)
    (level : GuestReadinessLevel) (outcome : ProbeOutcome)
    → on_ladder profile current ≡ true
    → let after = (observe (record { profile = profile; current = current }) level outcome).0 in
      (height after.current ≡ max (height current) (worth profile (level, outcome)))
      × (after.profile ≡ profile)
      × (on_ladder after.profile after.current ≡ true)
unfolding observe worth on_ladder
observe_step linux_guest current level outcome h = ground arith
observe_step android_linux_mode current level outcome h = ground arith
observe_step android_waydroid current level outcome h = ground arith

observe_all-max :
    (ladder : ReadinessLadder) (probes : List Probe)
    → IsOnLadder ladder
    → (height (observe_all ladder probes).current
        ≡ max (height ladder.current) (strongest ladder.profile probes))
      × IsOnLadder (observe_all ladder probes)
unfolding observe_all strongest
observe_all-max ladder [] h = (omega arith, h)
observe_all-max ladder ((level, outcome) ∷ probes) h =
    let (step, same, on) = observe_step ladder.profile ladder.current level outcome h in
    let after = (observe ladder level outcome).0 in
    let (rest, kept) = observe_all-max after probes on in
    (omega (arith, step, rest, ap (λ p. strongest p probes) same), kept)

-- Whatever probes answer in whatever order, a fresh ladder ends at the strongest level that the
-- profile reaches and that some probe found ready, and at no level if there is none; it never
-- leaves the levels of its profile.
pub ladder_is_strongest :
    (profile : ReadinessProfile) (probes : List Probe)
    → (height (observe_all (ladder_new profile) probes).current ≡ strongest profile probes)
      × IsOnLadder (observe_all (ladder_new profile) probes)
unfolding ladder_new on_ladder
ladder_is_strongest profile probes =
    let (top, on) = observe_all-max (ladder_new profile) probes refl in (omega (arith, top), on)

-- A ladder on a level of its profile is never moved down by further probes.
pub observe_all_monotone :
    (ladder : ReadinessLadder) (probes : List Probe)
    → IsOnLadder ladder
    → height ladder.current ≤ height (observe_all ladder probes).current
observe_all_monotone ladder probes h = omega (arith, (observe_all-max ladder probes h).0)

-- The pending levels are the levels of the profile that are above the reached one, in the ladder's order.
-- With the reached height they make up the whole ladder, and nothing is pending exactly at the terminal
-- level.
pub pending_cases :
    (profile : ReadinessProfile) (current : Option GuestReadinessLevel)
    → on_ladder profile current ≡ true
    → let ladder : ReadinessLadder = record { profile = profile; current = current } in
      (pending ladder
        ≡ retain (λ level. leb (height current) (discriminant level)) (levels profile))
      × (length (pending ladder) + height current ≡ length (levels profile))
      × ((pending ladder ≡ []) ↔ (at_terminal ladder ≡ true))
unfolding pending at_terminal on_ladder accepts
pending_cases linux_guest current h = ground arith
pending_cases android_linux_mode current h = ground arith
pending_cases android_waydroid current h = ground arith
