-- ===== src/Cmdline/Ports.antt =====
-- The root ports that hotplugged devices sit on, and the memory size that QEMU is given.
use andler.Base.{
  ℕ, zero, suc, ◌+◌, ◌-◌, ◌/◌, ◌%◌, ◌^◌, ◌≤◌, ◌<◌, ◌≡◌, ◌≢◌, ap, ◌∙◌, [], ◌∷◌, Text, codes, arith,
  Bool-cases, ◌==◌, inl, inr, ok,
}
use mathlib.Core.List.{Mem, Memᴰ}
use mathlib.Core.List.Memᴰ
use andler.Decimal.{to_text, u64_max}
use andler.Config.{CpuConfig}
use andler.Sizes.{parse_size, mib, gib}
use andler.Sizes.RoundTrip.{parse_short_mib, parse_short_gib}
use andler.Cmdline.Machine.{root_ports, machine_and_cpu_args, concat, qemu_size_suffix}
use andler.Cmdline.Drives.{extra_disk_slot}
use andler.Cmdline.Nics.{extra_net_slot}

-- The argument that makes the port of a slot.
abbrev port_arg : ℕ → Text
port_arg slot = concat (
    codes "pcie-root-port,id=root-port-"
    ∷ to_text slot
    ∷ codes ",chassis="
    ∷ to_text (slot + 1)
    ∷ codes ",slot="
    ∷ to_text slot
    ∷ [])

root_ports_have :
    (left first k : ℕ) → k < left → Memᴰ (port_arg (first + k)) (root_ports left first)
unfolding root_ports
root_ports_have zero first k h = absurd (omega arith)
root_ports_have (suc left) first zero h = Memᴰ.tail (Memᴰ.head (ap port_arg (omega arith)))
root_ports_have (suc left) first (suc k) h = Memᴰ.tail (
    Memᴰ.tail
      (Memᴰ.cast (ap port_arg (omega arith)) (root_ports_have left (first + 1) k (omega arith))))

abbrev pub HasPort : CpuConfig → ℕ → Type 0
HasPort cpu slot = Mem (port_arg slot) (machine_and_cpu_args cpu)

slot-HasPort : (cpu : CpuConfig) (slot : ℕ) → slot < 16 → HasPort cpu slot
unfolding machine_and_cpu_args
slot-HasPort cpu slot h =
    let port = Memᴰ.cast (ap port_arg (omega arith)) (root_ports_have 16 0 slot h) in
    ∣ Memᴰ.tail (Memᴰ.tail (Memᴰ.append_left _ port)) ∣₁

-- For two indices below 8, the extra disk and the extra interface sit on root ports that the
-- machine's arguments make, the two disks on different ones, the two interfaces on different ones,
-- and a disk and an interface on different ones, be their indices the same or not.
pub devices_have_ports :
    (cpu : CpuConfig) (i j : ℕ)
    → i < 8
    → j < 8
    → i ≢ j
    → HasPort cpu (extra_disk_slot i)
      × HasPort cpu (extra_net_slot i)
      × (extra_disk_slot i ≢ extra_disk_slot j)
      × (extra_net_slot i ≢ extra_net_slot j)
      × (extra_disk_slot i ≢ extra_net_slot j)
      × (extra_disk_slot i ≢ extra_net_slot i)
unfolding extra_disk_slot extra_net_slot
devices_have_ports cpu i j hi hj other = (
  slot-HasPort cpu (i % 8) (omega arith),
  slot-HasPort cpu (8 + i % 8) (omega arith),
  λ e. omega arith,
  λ e. omega arith,
  λ e. omega arith,
  λ e. omega arith,
)

-- The size that QEMU is given, read as `parse_size` reads it, is the configured `u64` rounded down
-- to a MiB.
pub qemu_size-rounds :
    (bytes : ℕ) → bytes ≤ u64_max → parse_size (qemu_size_suffix bytes) ≡ ok (bytes - bytes % mib)
unfolding qemu_size_suffix
qemu_size-rounds bytes small = elim (Bool-cases (bytes % 2 ^ 30 == 0)) [
  | inl whole ↦ rw whole (parse_short_gib (bytes / gib) (omega arith) ∙ ap ok (ground arith))
  | inr part ↦ rw part (parse_short_mib (bytes / mib) (omega arith) ∙ ap ok (omega arith))
]
