-- ===== src/Qmp/Releases.antt =====
-- Detaching a disk from a guest that releases its devices at once.
use andler.Base.{◌≡◌, ◌≢◌, refl, true, Option, none, some, List, [], ◌∷◌, Text, ok, ℕ}
use andler.Cmdline.Drives.{extra_disk_drive_id, extra_disk_device_id}
use andler.Qmp.Effects.{Io}
use andler.Qmp.Monitor.{QmpCommand, QmpError, reply, Monitor, device_del, blockdev_del}
use andler.Qmp.Polling.{poll}
use andler.Qmp.Client.{
  read_reply_skipping_events, reply_value, execute_raw, run_command, judge_unplug, unplug_loop,
  detach_device, detach_block_device,
}
use andler.Qmp.Backend.{
  RunningInstance, ensure_qmp_connected, run_qmp_operation, detach_disk_at, unplug_timeout,
}

-- `HasDisk` says that QEMU has a device by an id, on a block node. QEMU takes `device_del` for a device
-- that it has; once the guest has let it go, its block node can be deleted; neither touches another disk.
-- Nothing is said of any other command. `log` is what QEMU was told, newest first.
pub record Releases {V S : Type 0} (qmp : Monitor V S) : Type 1 where
  pub HasDisk : Text → Text → S → Type 0
  pub log : S → List QmpCommand
  pub after : QmpCommand → S → S
  pub value : QmpCommand → S → V
  pub device_released :
      (device node : Text) (s : S)
      → HasDisk device node s
      → qmp.exchange (device_del device) s ≡ (
        after (device_del device) s,
        ok (
            reply (record { return_value = some (value (device_del device) s); error = none })
            ∷ []),
      )
  pub node_freed :
      (device node : Text) (s : S)
      → HasDisk device node s
      → let gone = after (device_del device) s in
        qmp.exchange (blockdev_del node) gone ≡ (
          after (blockdev_del node) gone,
          ok (
              reply (record { return_value = some (value (blockdev_del node) gone); error = none })
              ∷ []),
        )
  pub others_kept :
      (device node device' node' : Text) (s : S)
      → HasDisk device node s
      → HasDisk device' node' s
      → device ≢ device'
      → node ≢ node'
      → HasDisk device' node' (after (blockdev_del node) (after (device_del device) s))
  pub logged : (c : QmpCommand) (s : S) → log (after c s) ≡ c ∷ log s

module _ {V S : Type 0} (qmp : Monitor V S) where
  run_command-answered :
      (c : QmpCommand) (s : S) {s' : S} {v : V}
      → qmp.exchange c s ≡ (s', ok (reply (record { return_value = some v; error = none }) ∷ []))
      → run_command qmp c s ≡ (s', ok tt)
  unfolding run_command execute_raw read_reply_skipping_events reply_value
  run_command-answered c s e = rw e refl

module _ {V S : Type 0} (qmp : Monitor V S) (releases : Releases qmp) where
  detach_block_device-released :
      (device node : Text) (timeout : ℕ) (s : S)
      → releases.HasDisk device node s
      → detach_block_device qmp device node timeout s
        ≡ (releases.after (blockdev_del node) (releases.after (device_del device) s), ok tt)
  unfolding detach_block_device detach_device unplug_loop poll judge_unplug
  detach_block_device-released device node timeout s has =
      rw
        (run_command-answered qmp (device_del device) s
          (releases.device_released device node s has))
        (rw
          (run_command-answered qmp (blockdev_del node) (releases.after (device_del device) s)
            (releases.node_freed device node s has))
          refl)

module _ {V S A : Type 0} (qmp : Monitor V S) where
  run_qmp_operation-ok :
      (op : Io S QmpError A) (instance : RunningInstance S) {s : S} {a : A}
      → instance.qmp_client ≡ true
      → op instance.machine ≡ (s, ok a)
      → run_qmp_operation qmp op instance ≡ (record instance { machine = s }, ok a)
  unfolding run_qmp_operation ensure_qmp_connected
  run_qmp_operation-ok op instance connected runs = rw connected (rw runs refl)

module _ {V S : Type 0} (qmp : Monitor V S) (releases : Releases qmp) where
  -- The disk of an index, and the machine after it was detached.
  abbrev pub HasExtraDisk : ℕ → S → Type 0
  HasExtraDisk index s = releases.HasDisk (extra_disk_device_id index) (extra_disk_drive_id index) s

  abbrev pub detached : ℕ → S → S
  detached index s =
      releases.after (blockdev_del (extra_disk_drive_id index))
        (releases.after (device_del (extra_disk_device_id index)) s)

  pub detach_disk_at-released :
      (index : ℕ) (instance : RunningInstance S)
      → instance.qmp_client ≡ true
      → HasExtraDisk index instance.machine
      → detach_disk_at qmp index instance
        ≡ (record instance { machine = detached index instance.machine }, ok tt)
  unfolding detach_disk_at
  detach_disk_at-released index instance connected has =
      run_qmp_operation-ok qmp _ instance connected
        (detach_block_device-released qmp releases _ _ unplug_timeout instance.machine has)

  pub log-detached :
      (index : ℕ) (s : S)
      → releases.log (detached index s)
        ≡ blockdev_del (extra_disk_drive_id index)
          ∷ device_del (extra_disk_device_id index)
          ∷ releases.log s
  log-detached index s = rw (releases.logged _ _) (rw (releases.logged _ _) refl)

  -- What QEMU was told by way of the backend's entry.
  abbrev pub log_of : Option (RunningInstance S) → List QmpCommand
  log_of none = []
  log_of (some instance) = releases.log instance.machine

  -- The device of an index is there, by way of the backend's entry.
  abbrev pub StillHas : ℕ → Option (RunningInstance S) → Type 0
  StillHas index none = ⊥
  StillHas index (some instance) = HasExtraDisk index instance.machine
