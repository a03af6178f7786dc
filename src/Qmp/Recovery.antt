-- ===== src/Qmp/Recovery.antt =====
-- backends/andler-qemu/src/backend.rs: what `run_qmp_operation` makes of a guest that keeps a device.
use andler.Base.{ℕ, ◌+◌, ◌≡◌, refl, true, false, Result, ok, err}
use andler.Cmdline.Drives.{extra_disk_drive_id, extra_disk_device_id}
use andler.Qmp.Effects.{Io, caught, fail}
use andler.Qmp.Monitor.{QmpError, guest_unplug_timeout, Monitor}
use andler.Qmp.Client.{connect, detach_block_device}
use andler.Qmp.Backend.{
  RunningInstance, replace_machine, QemuError, qmp_failed, after_attempt, connect_loop,
  ensure_qmp_connected, diagnose_and_reset_qmp, is_command_level, run_qmp_operation, detach_disk_at,
  unplug_timeout,
}

abbrev reset : {S : Type 0} → RunningInstance S → S → RunningInstance S
reset instance s = record instance {
  machine = s;
  qmp_client = true;
  qmp_reconnects = instance.qmp_reconnects + 1;
}

module _ {S A : Type 0} where
  -- The end of a second run, in the instance that has connected again.
  abbrev pub second_run :
      RunningInstance S → S × Result A QmpError → RunningInstance S × Result A QemuError
  second_run instance (s, ok a) = (reset instance s, ok a)
  second_run instance (s, err e) = (reset instance s, err (qmp_failed e))

  answered :
      (instance : RunningInstance S) (t : S) (p : S × Result A QmpError)
      → caught (λ e. fail (qmp_failed e)) (replace_machine (reset instance t) p)
        ≡ second_run instance p
  answered instance t (s, ok a) = refl
  answered instance t (s, err e) = refl

module _ {V S A : Type 0} (qmp : Monitor V S) (op : Io S QmpError A) where
  run_qmp_operation-again :
      (instance : RunningInstance S) (s t : S) (e : QmpError)
      → instance.qmp_client ≡ true
      → op instance.machine ≡ (s, err e)
      → is_command_level e ≡ false
      → qmp.is_alive s ≡ true
      → connect qmp s ≡ (t, ok tt)
      → run_qmp_operation qmp op instance ≡ second_run instance (op t)
  unfolding run_qmp_operation ensure_qmp_connected diagnose_and_reset_qmp connect_loop after_attempt
  run_qmp_operation-again instance s t e connected first connection alive again =
      rw connected (rw first (rw connection (rw alive (rw again (answered instance t (op t))))))

module _ {V S : Type 0} (qmp : Monitor V S) where
  -- Detaching a disk from a guest that does not release it in time, while QEMU is alive: the connection
  -- is opened anew and the whole detach, `device_del` and wait, is run once more. What comes of the
  -- second run is the answer.
  pub timed_out_detach_repeats :
      (index : ℕ) (instance : RunningInstance S) (s t : S)
      → instance.qmp_client ≡ true
      → detach_block_device qmp
          (extra_disk_device_id index)
          (extra_disk_drive_id index)
          unplug_timeout
          instance.machine
        ≡ (s, err (guest_unplug_timeout (extra_disk_device_id index)))
      → qmp.is_alive s ≡ true
      → connect qmp s ≡ (t, ok tt)
      → detach_disk_at qmp index instance
        ≡ second_run instance (
            detach_block_device qmp
              (extra_disk_device_id index)
              (extra_disk_drive_id index)
              unplug_timeout
              t)
  unfolding detach_disk_at is_command_level
  timed_out_detach_repeats index instance s t connected first alive again =
      run_qmp_operation-again qmp _ instance s t _ connected first refl alive again
