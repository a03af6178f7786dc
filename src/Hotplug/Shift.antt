-- ===== src/Hotplug/Shift.antt =====
-- After a disk is detached, the devices of the disks behind it are no longer those that their places in
-- the list stand for.
use andler.Base.{
  ℕ, zero, suc, ◌≤◌, ◌<◌, ◌≡◌, refl, sym, ap, ◌∙◌, false, some, List, [], ◌∷◌, Text, codes, ok,
  arith, text_eq, Bool-cases, inl, inr,
}
use andler.Config.{DiskConfig}
use andler.Decimal.{to_text}
use andler.Cmdline.Drives.{extra_disk_drive_id, extra_disk_device_id}
use andler.Cmdline.Taps.{append_cancel_left, to_text-Injective}
use andler.Supervisor.{Toml}
use andler.Qmp.Monitor.{Monitor, device_del, blockdev_del}
use andler.Qmp.Releases.{Releases, HasExtraDisk, StillHas, detached, log_of, log-detached}
use andler.Hotplug.Host.{Host}
use andler.Hotplug.Operations.{remove_at, disk_position, drop_disk, detach_disk}
use andler.Hotplug.Running.{IsUp}
use andler.Hotplug.Detach.{detach_disk-run}

position_behind :
    (c : Text) (disk : DiskConfig) (rest : List DiskConfig) (j : ℕ)
    → disk_position c (disk ∷ rest) ≡ some (suc j)
    → (text_eq disk.path c ≡ false) × (disk_position c rest ≡ some j)
unfolding disk_position
position_behind c disk rest j found = elim (Bool-cases (text_eq disk.path c)) [
  | inl same ↦ absurd cc
  | inr other ↦ (other, ground arith)
]

disk_position-remove_at :
    (a c : Text) (disks : List DiskConfig) (i j : ℕ)
    → disk_position a disks ≡ some i
    → disk_position c disks ≡ some (suc j)
    → i ≤ j
    → disk_position c (remove_at i disks) ≡ some j
unfolding disk_position remove_at
disk_position-remove_at a c [] i j found_a found_c le = absurd cc
disk_position-remove_at a c (disk ∷ rest) zero j found_a found_c le =
    (position_behind c disk rest j found_c).1
disk_position-remove_at a c (disk ∷ rest) (suc i) zero found_a found_c le = absurd (omega arith)
disk_position-remove_at a c (disk ∷ rest) (suc i) (suc j) found_a found_c le =
    let (other, there) = position_behind c disk rest (suc j) found_c in
    let behind =
      disk_position-remove_at a c rest i j (position_behind a disk rest i found_a).1 there
        (omega arith) in
    rw (other, behind) refl

-- Device ids are those of the indices.
extra_disk_device_id-Injective : (i j : ℕ) → extra_disk_device_id i ≡ extra_disk_device_id j → i ≡ j
unfolding extra_disk_device_id
extra_disk_device_id-Injective i j e =
    to_text-Injective i j (append_cancel_left (codes "extra") (to_text i) (to_text j) e)

extra_disk_drive_id-Injective : (i j : ℕ) → extra_disk_drive_id i ≡ extra_disk_drive_id j → i ≡ j
unfolding extra_disk_drive_id
extra_disk_drive_id-Injective i j e =
    to_text-Injective i j (append_cancel_left (codes "drive-extra") (to_text i) (to_text j) e)

module _ {V S : Type 0} (qmp : Monitor V S) (releases : Releases qmp) where
  -- Detaching one disk leaves the devices of the others.
  detached-HasExtraDisk :
      (i j : ℕ) (s : S)
      → i < j
      → HasExtraDisk qmp releases i s
      → HasExtraDisk qmp releases j s
      → HasExtraDisk qmp releases j (detached qmp releases i s)
  detached-HasExtraDisk i j s lt has has' =
      releases.others_kept _ _ _ _ s has has'
        (λ e. let same = extra_disk_device_id-Injective i j e in absurd (omega arith))
        (λ e. let same = extra_disk_drive_id-Injective i j e in absurd (omega arith))

module _ {V S D : Type 0} (qmp : Monitor V S) (releases : Releases qmp) (toml : Toml) where
  -- On an instance that is up, two disks are detached: `a`, first at place `i` of the list, then `c`,
  -- which was at place `suc j`, with a disk between them at least. QEMU has the devices of the places
  -- `i`, `j` and `suc j`, and the guest releases devices at once. Both detaches are answered as done and
  -- both disks leave the list, but for `c` QEMU is told to take device `extra<j>` away, and it still has
  -- device `extra<suc j>`.
  pub later_detach_misses :
      (a c : Text) (host : Host S D) (u : IsUp host) (i j : ℕ)
      → disk_position a host.sup.config_tx.extra_disks ≡ some i
      → disk_position c host.sup.config_tx.extra_disks ≡ some (suc j)
      → i < j
      → HasExtraDisk qmp releases i u.instance.machine
      → HasExtraDisk qmp releases j u.instance.machine
      → HasExtraDisk qmp releases (suc j) u.instance.machine
      → let (first, q) = detach_disk qmp toml a host in
        let (second, r) = detach_disk qmp toml c first in
        (q ≡ ok tt)
        × (r ≡ ok tt)
        × (second.sup.config_tx ≡ drop_disk j (drop_disk i host.sup.config_tx))
        × (log_of qmp releases second.running
            ≡ blockdev_del (extra_disk_drive_id j)
              ∷ device_del (extra_disk_device_id j)
              ∷ blockdev_del (extra_disk_drive_id i)
              ∷ device_del (extra_disk_device_id i)
              ∷ log_of qmp releases host.running)
        × StillHas qmp releases (suc j) second.running
  later_detach_misses a c host u i j found_a found_c lt has_i has_j has_c =
      let (up, machine, done, config) =
        detach_disk-run qmp releases toml a host u i found_a has_i in
      let moved =
        ap (λ cfg. disk_position c cfg.extra_disks) config
        ∙ disk_position-remove_at a c host.sup.config_tx.extra_disks i j found_a found_c
            (omega arith) in
      let before =
        ap
          (λ o.
            blockdev_del (extra_disk_drive_id i)
            ∷ device_del (extra_disk_device_id i)
            ∷ log_of qmp releases o)
          (sym u.entry) in
      let there : HasExtraDisk qmp releases j up.instance.machine =
        rw machine (detached-HasExtraDisk qmp releases i j u.instance.machine lt has_i has_j) in
      let own : HasExtraDisk qmp releases (suc j) up.instance.machine = rw machine (
        detached-HasExtraDisk qmp releases i (suc j) u.instance.machine (omega arith) has_i
          has_c) in
      let (up', machine', done', config') =
        detach_disk-run qmp releases toml c (detach_disk qmp toml a host).0 up j moved there in
      (
        done,
        done',
        config' ∙ ap (drop_disk j) config,
        ap (log_of qmp releases) up'.entry
            ∙ ap releases.log machine'
            ∙ log-detached qmp releases j up.instance.machine
            ∙ ap
                (λ l.
                  blockdev_del (extra_disk_drive_id j) ∷ device_del (extra_disk_device_id j) ∷ l)
                (ap releases.log machine ∙ log-detached qmp releases i u.instance.machine ∙ before),
        rw (up'.entry, machine')
            (detached-HasExtraDisk qmp releases j (suc j) up.instance.machine (omega arith) there
              own),
      )
