-- ===== src/Hotplug/Detach.antt =====
-- Detaching a disk from a guest that releases it: what QEMU is told and what becomes of the
-- configuration.
use andler.Base.{ℕ, ◌≡◌, refl, ap, ◌∙◌, some, Text, ok}
use andler.Supervisor.{Toml}
use andler.Qmp.Effects.{Io, ◌>>=◌}
use andler.Qmp.Monitor.{Monitor}
use andler.Qmp.Backend.{RunningInstance, detach_disk_at}
use andler.Qmp.Releases.{Releases, HasExtraDisk, detached, detach_disk_at-released}
use andler.Hotplug.Host.{HotplugError, Host, hotplug_target}
use andler.Hotplug.Operations.{
  configured, disk_position, found_disk, on_backend, update_config, drop_disk, detach_disk,
}
use andler.Hotplug.Running.{
  IsUp, hotplug_target-ok, configured-IsUp, update_config-answered, >>=-eq, on_backend-ok,
}

module _ {V S D : Type 0} (qmp : Monitor V S) (releases : Releases qmp) (toml : Toml) where
  -- The host once QEMU has let the device go, before the configuration follows.
  abbrev unplugged : (host : Host S D) → IsUp host → ℕ → Host S D
  unplugged host u index = record host {
    running = some (record u.instance { machine = detached qmp releases index u.instance.machine });
  }

  unplugged-IsUp : (host : Host S D) (u : IsUp host) (index : ℕ) → IsUp (unplugged host u index)
  unplugged-IsUp host u index = record {
    agrees = u.agrees;
    up = u.up;
    handle = u.handle;
    has_handle = u.has_handle;
    instance = record u.instance { machine = detached qmp releases index u.instance.machine };
    entry = refl;
    connected = u.connected;
    answers = u.answers;
  }

  abbrev look_up : Text → Io (Host S D) HotplugError ℕ
  look_up path host = (host, found_disk path (disk_position path host.sup.config_tx.extra_disks))

  abbrev release : ℕ → Io (Host S D) HotplugError (Unit {0})
  release index =
      on_backend (detach_disk_at qmp index) >>= λ _. update_config toml (drop_disk index)

  detach_disk-eq :
      (path : Text) (host : Host S D) (u : IsUp host) (index : ℕ)
      → disk_position path host.sup.config_tx.extra_disks ≡ some index
      → HasExtraDisk qmp releases index u.instance.machine
      → detach_disk qmp toml path host
        ≡ (configured toml (drop_disk index) (unplugged host u index), ok tt)
  unfolding detach_disk
  detach_disk-eq path host u index found has =
      >>=-eq hotplug_target (λ _. look_up path >>= release) host (hotplug_target-ok host u)
      ∙ >>=-eq (look_up path) release host (ap (λ o. (host, found_disk path o)) found)
      ∙ >>=-eq (on_backend (detach_disk_at qmp index)) (λ _. update_config toml (drop_disk index))
          host
          (on_backend-ok (detach_disk_at qmp index) host u
            (detach_disk_at-released qmp releases index u.instance u.connected has))
      ∙ update_config-answered toml (drop_disk index) (unplugged host u index) u.answers

  -- Detaching the disk that the list has at `index`, if QEMU has the device of that index, tells QEMU to
  -- take device `extra<index>` away and then its block node, and takes the disk off the list.
  pub detach_disk-run :
      (path : Text) (host : Host S D) (u : IsUp host) (index : ℕ)
      → disk_position path host.sup.config_tx.extra_disks ≡ some index
      → HasExtraDisk qmp releases index u.instance.machine
      → let (host', r) = detach_disk qmp toml path host in
        (up : IsUp host') × (up.instance.machine ≡ detached qmp releases index u.instance.machine)
        × (r ≡ ok tt)
        × (host'.sup.config_tx ≡ drop_disk index host.sup.config_tx)
  unfolding unplugged-IsUp
  detach_disk-run path host u index found has =
      let (up, same, config) =
        configured-IsUp toml (drop_disk index) (unplugged host u index)
          (unplugged-IsUp host u index) in
      rw (detach_disk-eq path host u index found has)
        (up, ap (λ (i : RunningInstance S). i.machine) same, refl, config)
