-- ===== src/Config/Validity.antt =====
-- What `InstanceConfig::validate` accepts, and what `migrate_schema` lets through.
use andler.Base.{
  ◌/◌, ◌≤◌, ◌<◌, ◌≡◌, refl, ◌⊎◌, inl, inr, ◌↔◌, List, [], ◌∷◌, ok, err, arith, All, Text,
}
use andler.Config.Hardware.{RenderBackend, DiskConfig, mib}
use andler.Config.Network.{NetworkMode, PortForward, check_forwards, check_mode, validate_network}
use andler.Config.Android.{AndroidProfile}
use andler.Config.Instance.{
  InstanceId, InstanceConfig, check_extra_disks, validate, newer, unsupported, migrate_schema,
  resolve,
}

-- Both ports of a forward are in 1..=65535 (a `u16` is at most 65535).
abbrev pub HasPorts : PortForward → Type 0
HasPorts fwd = (0 < fwd.host_port) × (0 < fwd.guest_port)

-- The rules of the checks, without their order. There is none on the extra interfaces: of port forwards,
-- only those of the primary interface are looked at.
pub record IsValid (cfg : InstanceConfig) : Type 0 where
  pub cores : 0 < cfg.cpu.cores
  pub memory : 0 < cfg.memory.size_bytes
  pub disk : 0 < cfg.disk.size_bytes
  pub hostmem :
      (cfg.gpu.render_backend ≡ RenderBackend.cpu)
      ⊎ ((256 ≤ cfg.gpu.hostmem_bytes / mib) × (cfg.gpu.hostmem_bytes / mib ≤ 16384))
  pub width : 0 < cfg.display.resolution.width
  pub height : 0 < cfg.display.resolution.height
  pub extra_disks : All (λ (d : DiskConfig). 0 < d.size_bytes) cfg.extra_disks
  pub forwards : All HasPorts cfg.network.port_forwards
  pub forwards_nat : (cfg.network.port_forwards ≡ []) ⊎ (cfg.network.mode ≡ NetworkMode.nat)

check_forwards_iff : (fwds : List PortForward) → (check_forwards fwds ≡ ok tt) ↔ All HasPorts fwds
unfolding check_forwards
check_forwards_iff [] = (λ _. tt, λ _. refl)
check_forwards_iff (fwd ∷ rest) = (
  λ h. ground (arith, (check_forwards_iff rest).0),
  λ h. ground (arith, (check_forwards_iff rest).1 h.1),
)

check_mode_iff :
    (fwds : List PortForward) (mode : NetworkMode)
    → (check_mode fwds mode ≡ ok tt) ↔ ((fwds ≡ []) ⊎ (mode ≡ NetworkMode.nat))
unfolding check_mode
check_mode_iff [] mode = (λ _. inl refl, λ _. refl)
check_mode_iff (fwd ∷ rest) mode = (λ h. ground arith, λ h. ground arith)

check_extra_disks_iff :
    (disks : List DiskConfig)
    → (check_extra_disks disks ≡ ok tt) ↔ All (λ (d : DiskConfig). 0 < d.size_bytes) disks
unfolding check_extra_disks
check_extra_disks_iff [] = (λ _. tt, λ _. refl)
check_extra_disks_iff (disk ∷ rest) = (
  λ h. ground (arith, (check_extra_disks_iff rest).0),
  λ h. ground (arith, (check_extra_disks_iff rest).1 h.1),
)

-- `validate` succeeds exactly on the configurations that satisfy the rules of `IsValid`, whatever the
-- order in which it checks. No extra interface makes a configuration invalid.
pub validate_iff : (cfg : InstanceConfig) → (validate cfg ≡ ok tt) ↔ IsValid cfg
unfolding validate validate_network
validate_iff cfg = (
  λ h. ground (
    arith,
    (check_forwards_iff cfg.network.port_forwards).0,
    (check_mode_iff cfg.network.port_forwards cfg.network.mode).0,
    (check_extra_disks_iff cfg.extra_disks).0,
  ),
  λ h. ground (
    arith,
    (check_forwards_iff cfg.network.port_forwards).1,
    (check_mode_iff cfg.network.port_forwards cfg.network.mode).1,
    (check_extra_disks_iff cfg.extra_disks).1,
  ),
)

-- An Android instance made from defaults is valid as soon as its disk has a size.
pub resolve-validate :
    (profile : AndroidProfile) (new_id : InstanceId) (name : Text) (disk : DiskConfig)
    (ovmf_vars : Text)
    → 0 < disk.size_bytes
    → validate (resolve profile new_id name disk ovmf_vars) ≡ ok tt
unfolding resolve
resolve-validate profile new_id name disk ovmf_vars h =
    (validate_iff (resolve profile new_id name disk ovmf_vars)).1 (record {
      cores = omega arith;
      memory = omega arith;
      disk = h;
      hostmem = inr (omega arith, omega arith);
      width = omega arith;
      height = omega arith;
      extra_disks = tt;
      forwards = tt;
      forwards_nat = inl refl;
    })

-- A configuration is loaded exactly at the current schema version, unchanged; an older and a newer
-- version are refused with the version that was found.
pub migrate_schema_cases :
    (cfg : InstanceConfig)
    → ((cfg.schema_version ≡ 1) × (migrate_schema cfg ≡ ok cfg))
      ⊎ ((cfg.schema_version ≡ 0) × (migrate_schema cfg ≡ err (unsupported 0)))
      ⊎ ((1 < cfg.schema_version) × (migrate_schema cfg ≡ err (newer cfg.schema_version)))
unfolding migrate_schema
migrate_schema_cases cfg = ground arith
