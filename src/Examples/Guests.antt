-- ===== src/Examples/Guests.antt =====
-- A guest's life and its readiness.
use andler.Base.{◌+◌, ◌≡◌, ◌↔◌, ◌⊎◌, refl, true, some, List, [], ◌∷◌, Text, length}
use mathlib.Core.List.{Memᴰ}
use andler.Fsm.{
  InstanceEvent, created, stopping, stopped, error, start, start_completed, stop, stop_completed,
  fail, apply, is_disk_idle,
}
use andler.Fsm.Lifecycle.{run_events, busy_needs_start, idle_from_busy}
use andler.Readiness.{
  android_waydroid, linux_guest, serial_up, guest_os_up, waydroid_ready, ready, not_ready,
  ladder_new, ReadinessLadder, pending, at_terminal, levels, accepts,
}
use andler.Readiness.Ladder.{
  Probe, observe_all, strongest, height, on_ladder, IsOnLadder, ladder_is_strongest, pending_cases,
}

abbrev boot : List InstanceEvent
boot = stop ∷ start ∷ start_completed ∷ []

busy_needs_start_example : Memᴰ start boot
unfolding run_events apply is_disk_idle
busy_needs_start_example = busy_needs_start created boot refl refl

idle_from_busy_example :
    ((stopping ≡ stopping) × (stop_completed ≡ stop_completed) × (stopped ≡ stopped))
    ⊎ ((message : Text) × (stop_completed ≡ fail message) × (stopped ≡ error message))
unfolding apply is_disk_idle
idle_from_busy_example = idle_from_busy stopping stop_completed stopped refl refl refl

abbrev probes : List Probe
probes =
    (serial_up, ready)
    ∷ (waydroid_ready, not_ready)
    ∷ (guest_os_up, ready)
    ∷ (serial_up, ready)
    ∷ []

ladder_is_strongest_example :
    (height (observe_all (ladder_new linux_guest) probes).current ≡ strongest linux_guest probes)
    × IsOnLadder (observe_all (ladder_new linux_guest) probes)
ladder_is_strongest_example = ladder_is_strongest linux_guest probes

pending_cases_example :
    let ladder : ReadinessLadder = record {
      profile = android_waydroid;
      current = some guest_os_up;
    } in
    (pending ladder ≡ waydroid_ready ∷ [])
    × (length (pending ladder) + height (some guest_os_up) ≡ length (levels android_waydroid))
    × ((pending ladder ≡ []) ↔ (at_terminal ladder ≡ true))
unfolding on_ladder accepts levels
pending_cases_example = pending_cases android_waydroid (some guest_os_up) refl
