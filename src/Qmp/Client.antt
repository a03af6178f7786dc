-- ===== src/Qmp/Client.antt =====
-- backends/andler-qemu/src/qmp.rs: `QmpClient`.
use andler.Base.{
  ℕ, suc, ◌+◌, ◌/◌, ◌%◌, Bool, true, false, ◌||◌, Option, none, some, List, [], ◌∷◌, ◌++◌, Text,
  codes, text_eq, Result, ok, err, ltb, if◌then◌else◌, is_empty, find?,
}
use andler.Decimal.{to_text}
use andler.Words.{to_ascii_lowercase, strip_prefix}
use andler.Qmp.Effects.{Io, pure, lift, ◌>>=◌}
use andler.Qmp.Monitor.{
  QmpCommand, QmpErrorPayload, QmpError, connection_closed, parse_error, command_failed,
  guest_unplug_timeout, QmpReply, Message, event, reply, malformed, Monitor, qmp_capabilities,
  query_jobs, device_add_block, device_add_net, device_del, blockdev_del, netdev_del, job_dismiss,
}
use andler.Qmp.Polling.{poll}

module _ {V : Type 0} where
  -- The `match` at the end of `execute_raw`.
  abbrev pub value_of : Option V → Option QmpErrorPayload → Result V QmpError
  value_of (some value) e = ok value
  value_of none (some e) = err (command_failed e)
  value_of none none = err parse_error

  unfoldable pub reply_value : QmpReply V → Result V QmpError
  reply_value r = value_of r.return_value r.error

  -- Over the lines that arrive; the connection is closed after the last.
  unfoldable pub read_reply_skipping_events : List (Message V) → Result (QmpReply V) QmpError
  read_reply_skipping_events [] = err connection_closed
  read_reply_skipping_events (event name ∷ rest) = read_reply_skipping_events rest
  read_reply_skipping_events (malformed ∷ rest) = err parse_error
  read_reply_skipping_events (reply r ∷ rest) = ok r

-- `str::contains`.
abbrev is_some : {A : Type 0} → Option A → Bool
is_some none = false
is_some (some x) = true

unfoldable pub contains : Text → Text → Bool
contains needle [] = is_empty needle
contains needle (c ∷ t) = is_some (strip_prefix needle (c ∷ t)) || contains needle t

unfoldable pub is_device_in_use_error : QmpError → Bool
is_device_in_use_error (command_failed e) =
    text_eq e.class (codes "DeviceInUse") || contains (codes "in use") (to_ascii_lowercase e.desc)
is_device_in_use_error other = false

-- `start.elapsed()` is compared with a timeout, and `Instant::now()` with a deadline.
abbrev pub is_before : ℕ → ℕ → Bool
is_before now deadline = ltb now deadline

pub record QueryJobInfo : Type 0 where
  pub id : Text
  pub status : Option Text
  pub error : Option Text

abbrev pub is_concluded : Option Text → Bool
is_concluded none = false
is_concluded (some status) = text_eq status (codes "concluded")

abbrev pub generic_error : Text → QmpError
generic_error desc = command_failed (record { class = codes "GenericError"; desc = desc })

-- The text of the source names the job and the timeout.
abbrev pub timeout_error : QmpError
timeout_error =
    command_failed
      (record { class = codes "Timeout"; desc = codes "the job did not reach status concluded" })

module _ {V S : Type 0} (qmp : Monitor V S) where
  -- The command monitor has no read timeout.
  unfoldable pub execute_raw : QmpCommand → Io S QmpError V
  execute_raw command = do
    lines ← qmp.exchange command
    r ← lift (read_reply_skipping_events lines)
    lift (reply_value r)

  unfoldable pub connect : Io S QmpError (Unit {0})
  connect = do _ ← qmp.greet; _ ← execute_raw qmp_capabilities; pure tt

  -- A command whose value is not used.
  unfoldable pub run_command : QmpCommand → Io S QmpError (Unit {0})
  run_command command = do _ ← execute_raw command; pure tt

  unfoldable pub device_add_block_at : Text → Text → ℕ → Io S QmpError (Unit {0})
  device_add_block_at id drive index =
      run_command (device_add_block id drive (codes "root-port-" ++ to_text (index % 8)))

  unfoldable pub device_add_net_at : Text → Text → Text → ℕ → Io S QmpError (Unit {0})
  device_add_net_at id netdev model index =
      run_command (device_add_net id netdev model (codes "root-port-" ++ to_text (8 + index % 8)))

  -- The arms of the `match` in the loop: the answer, or that the device is still in use.
  unfoldable pub judge_unplug :
      Text → ℕ → S × Result (Unit {0}) QmpError → S × Option (Result (Unit {0}) QmpError)
  judge_unplug device_id deadline (s, ok done) = (s, some (ok tt))
  judge_unplug device_id deadline (s, err e) =
      if is_device_in_use_error e
      then if is_before (qmp.now s) deadline
        then (s, none)
        else (s, some (err (guest_unplug_timeout device_id)))
      else (s, some (err e))

  -- `blockdev_del` or `netdev_del` until it is let; 250 ms between two tries.
  unfoldable pub unplug_loop : Text → QmpCommand → ℕ → ℕ → Io S QmpError (Unit {0})
  unplug_loop device_id release deadline fuel =
      poll (qmp.sleep 250) (λ t. judge_unplug device_id deadline (run_command release t))
        (err (guest_unplug_timeout device_id)) fuel

  unfoldable pub detach_device : Text → QmpCommand → ℕ → Io S QmpError (Unit {0})
  detach_device device_id release timeout = do
    _ ← run_command (device_del device_id)
    λ s. unplug_loop device_id release (qmp.now s + timeout) (suc (timeout / 250 + 1)) s

  unfoldable pub detach_block_device : Text → Text → ℕ → Io S QmpError (Unit {0})
  detach_block_device device_id node_name timeout =
      detach_device device_id (blockdev_del node_name) timeout

  unfoldable pub detach_net_device : Text → Text → ℕ → Io S QmpError (Unit {0})
  detach_net_device device_id netdev_id timeout =
      detach_device device_id (netdev_del netdev_id) timeout

  -- What a round of `wait_job_completion` knows from a list of jobs. `jobs` is what serde reads in a
  -- reply to `query-jobs`.
  module _ (jobs : V → Option (List QueryJobInfo)) (job_id : Text) where
    abbrev pub job_answer : Option Text → Result (Unit {0}) QmpError
    job_answer none = ok tt
    job_answer (some e) = err (generic_error e)

    abbrev pub dismissed :
        Option Text → S × Result (Unit {0}) QmpError → S × Option (Result (Unit {0}) QmpError)
    dismissed error (s, ok done) = (s, some (job_answer error))
    dismissed error (s, err e) = (s, some (err e))

    -- `start.elapsed() > timeout`.
    abbrev pub unless_late : ℕ → ℕ → S → S × Option (Result (Unit {0}) QmpError)
    unless_late start timeout s =
        if ltb (start + timeout) (qmp.now s) then (s, some (err timeout_error)) else (s, none)

    abbrev pub found_job : ℕ → ℕ → Option QueryJobInfo → S → S × Option (Result (Unit {0}) QmpError)
    found_job start timeout none s = unless_late start timeout s
    found_job start timeout (some job) s =
        if is_concluded job.status
        then dismissed job.error (run_command (job_dismiss job_id) s)
        else unless_late start timeout s

    abbrev pub parsed_jobs :
        ℕ → ℕ → Option (List QueryJobInfo) → S → S × Option (Result (Unit {0}) QmpError)
    parsed_jobs start timeout none s = (s, some (err parse_error))
    parsed_jobs start timeout (some list) s =
        found_job start timeout (find? (λ (j : QueryJobInfo). text_eq j.id job_id) list) s

    unfoldable pub judge_jobs :
        ℕ → ℕ → S × Result V QmpError → S × Option (Result (Unit {0}) QmpError)
    judge_jobs start timeout (s, ok value) = parsed_jobs start timeout (jobs value) s
    judge_jobs start timeout (s, err e) = (s, some (err e))

    unfoldable pub job_loop : ℕ → ℕ → ℕ → Io S QmpError (Unit {0})
    job_loop start timeout fuel =
        poll (qmp.sleep 50) (λ t. judge_jobs start timeout (execute_raw query_jobs t))
          (err timeout_error) fuel

    unfoldable pub wait_job_completion : ℕ → Io S QmpError (Unit {0})
    wait_job_completion timeout s = job_loop (qmp.now s) timeout (suc (timeout / 50 + 2)) s
