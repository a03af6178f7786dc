-- ===== src/Qmp/Monitor.antt =====
-- backends/andler-qemu/src/qmp.rs: commands, replies and errors of the QEMU monitor, and what the
-- client needs of the monitor's socket and the clock. QEMU is not part of the program: it is the
-- parameter `Monitor`. The JSON text of a message is not modelled, only what the client reads in it.
use andler.Base.{ℕ, ◌+◌, ◌≤◌, Bool, Option, List, Text}
use andler.Qmp.Effects.{Io}

-- The commands with their arguments; constant arguments are left out.
pub data QmpCommand : Type 0 where
  qmp_capabilities stop cont query_jobs : QmpCommand
  blockdev_add : Text → Text → Text → QmpCommand
  device_add_block : Text → Text → Text → QmpCommand
  device_add_net : Text → Text → Text → Text → QmpCommand
  device_del blockdev_del netdev_add_user netdev_add_passt netdev_del job_dismiss :
      Text → QmpCommand
  netdev_add_tap : Text → Text → QmpCommand

pub record QmpErrorPayload : Type 0 where
  pub class : Text
  pub desc : Text

-- The kinds of an I/O error that the client tells apart.
pub data IoErrorKind : Type 0 where
  not_found connection_refused other_kind : IoErrorKind

pub data QmpError : Type 0 where
  connect_failed : IoErrorKind → QmpError
  io connection_closed parse_error : QmpError
  command_failed : QmpErrorPayload → QmpError
  guest_unplug_timeout : Text → QmpError

module _ (V : Type 0) where
  pub record QmpReply : Type 0 where
    pub return_value : Option V
    pub error : Option QmpErrorPayload

  -- A line of the monitor: an event, a reply, or no message at all.
  pub data Message : Type 0 where
    event : Text → Message
    reply : QmpReply → Message
    malformed : Message

-- `exchange` writes a request; its value is the lines that arrive until the reply or the end of the
-- connection. `greet` connects the socket and reads the greeting. The clock counts milliseconds.
pub record Monitor (V S : Type 0) : Type 0 where
  pub exchange : QmpCommand → Io S QmpError (List (Message V))
  pub greet : Io S QmpError (Unit {0})
  pub is_alive : S → Bool
  pub now : S → ℕ
  pub sleep : ℕ → S → S

-- Time passes while QEMU answers, and a sleep is at least as long as it is asked to be.
pub record IsClock {V S : Type 0} (qmp : Monitor V S) : Type 0 where
  pub exchanged : (c : QmpCommand) (s : S) → qmp.now s ≤ qmp.now (qmp.exchange c s).0
  pub slept : (ms : ℕ) (s : S) → qmp.now s + ms ≤ qmp.now (qmp.sleep ms s)
