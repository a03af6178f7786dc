-- ===== src/Fsm.antt =====
-- core/andler-core/src/fsm.rs: the lifecycle of a VM instance.
pub mod Lifecycle
use andler.Base.{Bool, true, false, Text, Result, ok, err}

pub data InstanceState : Type 0 where
  created starting running paused stopping stopped : InstanceState
  error : Text → InstanceState

pub data InstanceEvent : Type 0 where
  start start_completed pause resume stop stop_completed : InstanceEvent
  fail : Text → InstanceEvent

pub data FsmError : Type 0 where
  invalid_transition : InstanceState → InstanceEvent → FsmError

-- The `match` of `apply`, one clause per arm; the last clause is `_`.
unfoldable pub apply : InstanceState → InstanceEvent → Result InstanceState FsmError
apply created start = ok starting
apply starting start_completed = ok running
apply running pause = ok paused
apply paused resume = ok running
apply running stop = ok stopping
apply paused stop = ok stopping
apply starting stop = ok stopping
apply stopping stop_completed = ok stopped
apply stopped start = ok starting
apply (error m) start = ok starting
apply created (fail message) = ok (error message)
apply starting (fail message) = ok (error message)
apply running (fail message) = ok (error message)
apply paused (fail message) = ok (error message)
apply stopping (fail message) = ok (error message)
apply from event = err (invalid_transition from event)

unfoldable pub is_terminal : InstanceState → Bool
is_terminal stopped = true
is_terminal (error m) = true
is_terminal _ = false

unfoldable pub is_disk_idle : InstanceState → Bool
is_disk_idle created = true
is_disk_idle stopped = true
is_disk_idle (error m) = true
is_disk_idle _ = false
