-- ===== src/Fsm/Lifecycle.antt =====
-- What the lifecycle allows: which events end a run, which begin one, and what must have come
-- before.
use andler.Base.{
  ◌≡◌, sym, ◌⊎◌, inl, inr, ◌↔◌, Bool, true, false, List, [], ◌∷◌, arith, Text, Result, ok, err,
}
use mathlib.Core.List.{Memᴰ}
use andler.Fsm.{
  InstanceState, starting, running, paused, stopping, stopped, error, InstanceEvent, start,
  start_completed, stop_completed, fail, FsmError, apply, is_terminal, is_disk_idle,
}

-- `Start` is taken exactly where the disk is idle, and leads to `Starting`; a failure is taken
-- exactly outside the terminal states, and leads to `Error` with its message.
pub start_and_fail_iff :
    (s t : InstanceState) (message : Text)
    → ((apply s start ≡ ok t) ↔ ((is_disk_idle s ≡ true) × (t ≡ starting)))
      × ((apply s (fail message) ≡ ok t) ↔ ((is_terminal s ≡ false) × (t ≡ error message)))
unfolding apply is_terminal is_disk_idle
start_and_fail_iff s t message =
    ((λ h. ground arith, λ h. ground arith), (λ h. ground arith, λ h. ground arith))

-- A terminal state takes no event but `Start`.
pub terminal_takes_start :
    (s : InstanceState) (e : InstanceEvent) (t : InstanceState)
    → is_terminal s ≡ true
    → apply s e ≡ ok t
    → e ≡ start
unfolding apply is_terminal
terminal_takes_start s e t terminal taken = ground arith

-- Events that are refused leave the state as it was, as in `apply_transition`.
abbrev settle : InstanceState → Result InstanceState FsmError → InstanceState
settle s (ok t) = t
settle s (err e) = s

unfoldable pub run_events : InstanceState → List InstanceEvent → InstanceState
run_events s [] = s
run_events s (e ∷ es) = run_events (settle s (apply s e)) es

-- The states in which the guest has come up: `Running` and `Paused`.
abbrev pub is_up : InstanceState → Bool
is_up running = true
is_up paused = true
is_up _ = false

idle_step :
    (s : InstanceState) (e : InstanceEvent)
    → is_disk_idle s ≡ true
    → (e ≡ start) ⊎ (is_disk_idle (settle s (apply s e)) ≡ true)
unfolding apply is_disk_idle
idle_step s e h = ground arith

up_step :
    (s : InstanceState) (e : InstanceEvent)
    → is_up s ≡ false
    → (e ≡ start_completed) ⊎ (is_up (settle s (apply s e)) ≡ false)
unfolding apply
up_step s e h = ground arith

-- An instance whose disk is idle keeps it idle, whatever events arrive, until a `Start` does.
pub busy_needs_start :
    (s : InstanceState) (es : List InstanceEvent)
    → is_disk_idle s ≡ true
    → is_disk_idle (run_events s es) ≡ false
    → Memᴰ start es
unfolding run_events
busy_needs_start s [] h busy = cc
busy_needs_start s (e ∷ es) h busy = elim (idle_step s e h) [
  | inl this ↦ Memᴰ.head (sym this)
  | inr idle ↦ Memᴰ.tail (busy_needs_start (settle s (apply s e)) es idle busy)
]

-- No guest is running or paused unless a `StartCompleted` arrived.
pub up_needs_start_completed :
    (s : InstanceState) (es : List InstanceEvent)
    → is_up s ≡ false
    → is_up (run_events s es) ≡ true
    → Memᴰ start_completed es
unfolding run_events
up_needs_start_completed s [] h up = cc
up_needs_start_completed s (e ∷ es) h up = elim (up_step s e h) [
  | inl this ↦ Memᴰ.head (sym this)
  | inr down ↦ Memᴰ.tail (up_needs_start_completed (settle s (apply s e)) es down up)
]

-- The disk of a stopped guest is released only by way of `Stopping`, or by a failure: the last
-- event that made a busy disk idle was `StopCompleted` in `Stopping`, or `Fail`.
pub idle_from_busy :
    (s : InstanceState) (e : InstanceEvent) (t : InstanceState)
    → is_disk_idle s ≡ false
    → apply s e ≡ ok t
    → is_disk_idle t ≡ true
    → ((s ≡ stopping) × (e ≡ stop_completed) × (t ≡ stopped))
      ⊎ ((message : Text) × (e ≡ fail message) × (t ≡ error message))
unfolding apply is_disk_idle
idle_from_busy s e t busy step idle = ground arith
