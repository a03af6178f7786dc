-- ===== src/Draft/Valid.antt =====
-- Which drafts end in a valid configuration.
use andler.Base.{
  ◌*◌, ◌/◌, ◌≤◌, ◌<◌, ◌≡◌, refl, sym, ap, ◌∙◌, ◌↔◌, ◌⊎◌, inl, inr, Bool, false, Option, none, some,
  [], ok, ◌>>=◌, arith, All, Result-cases,
}
use andler.Config.{
  InstanceId, InstanceConfig, CpuConfig, MemoryConfig, DisplayConfig, GpuConfig, NetworkConfig,
  RenderBackend, NetworkMode, validate, mib, gib, FirmwareConfig, cpu_default, memory_default,
  display_default, gpu_default, network_default,
}
use andler.Config.Validity.{HasPorts, IsValid, validate_iff}
use andler.Decimal.{u64_max}
use andler.Draft.{
  HostFirmware, DraftKind, linux, android, ConfigDraft, drafted_disk, unwrap_or, gib_of,
  reject_unsupported_android_inputs, base_config, finish, resolve_draft, resolve_firmware,
}
use andler.Draft.Accepted.{Allowed, disk_of-size, resolve_disk_cases, resolve_draft_iff}

module _ {A : Type 0} where
  -- A section that is set has to satisfy `P`.
  abbrev pub Chosen : (A → Type 0) → Option A → Type 0
  Chosen P none = Unit
  Chosen P (some x) = P x

  unwrap_or-Chosen : (P : A → Type 0) (o : Option A) (d : A) → P d → P (unwrap_or o d) ↔ Chosen P o
  unwrap_or-Chosen P none d p = (λ h. tt, λ h. p)
  unwrap_or-Chosen P (some x) d p = (λ h. h, λ h. h)

abbrev pub HasCores : CpuConfig → Type 0
HasCores c = 0 < c.cores

abbrev pub HasMemory : MemoryConfig → Type 0
HasMemory m = 0 < m.size_bytes

abbrev pub HasSize : DisplayConfig → Type 0
HasSize d = (0 < d.resolution.width) × (0 < d.resolution.height)

abbrev pub HasHostmem : GpuConfig → Type 0
HasHostmem g =
    (g.render_backend ≡ RenderBackend.cpu)
    ⊎ ((256 ≤ g.hostmem_bytes / mib) × (g.hostmem_bytes / mib ≤ 16384))

abbrev pub HasForwards : NetworkConfig → Type 0
HasForwards n = All HasPorts n.port_forwards × ((n.port_forwards ≡ []) ⊎ (n.mode ≡ NetworkMode.nat))

-- What a draft sets is in order; what it leaves unset is not looked at.
pub record IsSound (draft : ConfigDraft) : Type 0 where
  pub disk : 0 < gib_of draft.disk
  pub cpu : Chosen HasCores draft.cpu
  pub memory : Chosen HasMemory draft.memory
  pub display : Chosen HasSize draft.display
  pub gpu : Chosen HasHostmem draft.gpu
  pub network : Chosen HasForwards draft.network

module _ (new_id : InstanceId) (draft : ConfigDraft) (firmware : FirmwareConfig) where
  -- What `finish` gives, up to `autostart`.
  abbrev drafted : Bool → InstanceConfig
  drafted autostart = record (base_config new_id draft (drafted_disk draft.disk) firmware) {
    autostart = autostart;
  }

  base-IsValid : (autostart : Bool) → IsValid (drafted autostart) ↔ IsSound draft
  base-IsValid autostart =
      let size = disk_of-size draft.disk.source draft.disk.path (gib_of draft.disk * gib) in
      let cpu_iff = unwrap_or-Chosen HasCores draft.cpu cpu_default (omega arith) in
      let memory_iff = unwrap_or-Chosen HasMemory draft.memory memory_default (omega arith) in
      let display_iff =
        unwrap_or-Chosen HasSize draft.display display_default (omega arith, omega arith) in
      let gpu_iff =
        unwrap_or-Chosen HasHostmem draft.gpu gpu_default (inr (omega arith, omega arith)) in
      let network_iff = unwrap_or-Chosen HasForwards draft.network network_default (tt, inl refl) in
      (
        λ v. record {
          disk = omega (arith, size, v.disk);
          cpu = cpu_iff.0 v.cores;
          memory = memory_iff.0 v.memory;
          display = display_iff.0 (v.width, v.height);
          gpu = gpu_iff.0 v.hostmem;
          network = network_iff.0 (v.forwards, v.forwards_nat);
        },
        λ s.
            let screen = display_iff.1 s.display in
            let net = network_iff.1 s.network in
            record {
              cores = cpu_iff.1 s.cpu;
              memory = memory_iff.1 s.memory;
              disk = omega (arith, size, s.disk);
              hostmem = gpu_iff.1 s.gpu;
              width = screen.0;
              height = screen.1;
              extra_disks = tt;
              forwards = net.0;
              forwards_nat = net.1;
            },
      )

  finish-drafted :
      (kind : DraftKind) (cfg : InstanceConfig)
      → finish kind draft (drafted draft.autostart) ≡ ok cfg
      → (autostart : Bool) × (drafted autostart ≡ cfg)
  finish-drafted (linux iso_path cdrom_bus) cfg e = (draft.autostart, cc)
  finish-drafted (android profile) cfg e =
      elim (Result-cases (reject_unsupported_android_inputs draft)) [
        | inl (done, r) ↦ let given = ap (λ x. x >>= λ _. ok (drafted false)) r in (false, cc)
        | inr (reason, r) ↦ let refusal = ap (λ x. x >>= λ _. ok (drafted false)) r in absurd cc
      ]

resolve_draft-drafted :
    (new_id : InstanceId) (draft : ConfigDraft) (host : HostFirmware) (cfg : InstanceConfig)
    → resolve_draft new_id draft host ≡ ok cfg
    → (autostart : Bool) × (drafted new_id draft (resolve_firmware draft.firmware host) autostart
        ≡ cfg)
unfolding resolve_draft
resolve_draft-drafted new_id draft host cfg e =
    let firmware = resolve_firmware draft.firmware host in
    elim (resolve_disk_cases draft.disk) [
      | inl (le, r) ↦
          let given =
            ap (λ x. x >>= λ disk. finish draft.kind draft (base_config new_id draft disk firmware))
              r in
          finish-drafted new_id draft firmware draft.kind cfg (sym given ∙ e)
      | inr (lt, r) ↦
          let refusal =
            ap (λ x. x >>= λ disk. finish draft.kind draft (base_config new_id draft disk firmware))
              r in
          absurd cc
    ]

-- A draft ends in a valid configuration exactly when its disk is not empty and fits in 64 bits, every
-- section that it sets is in order, and, for an Android guest, no section and no autostart is set. The
-- defaults of the sections that it does not set are always in order.
pub draft_valid_iff :
    (new_id : InstanceId) (draft : ConfigDraft) (host : HostFirmware)
    → ((cfg : InstanceConfig) × (resolve_draft new_id draft host ≡ ok cfg) × (validate cfg ≡ ok tt))
      ↔ ((gib_of draft.disk * gib ≤ u64_max) × Allowed draft.kind draft × IsSound draft)
draft_valid_iff new_id draft host =
    let firmware = resolve_firmware draft.firmware host in
    let sound = base-IsValid new_id draft firmware in
    (
      λ (cfg, e, v).
          let (autostart, same) = resolve_draft-drafted new_id draft host cfg e in
          let (fits, allowed) = (resolve_draft_iff new_id draft host).0 (cfg, e) in
          let valid =
            (validate_iff (drafted new_id draft firmware autostart)).0 (ap validate same ∙ v) in
          (fits, allowed, (sound autostart).0 valid),
      λ (fits, allowed, s).
          let (cfg, e) = (resolve_draft_iff new_id draft host).1 (fits, allowed) in
          let (autostart, same) = resolve_draft-drafted new_id draft host cfg e in
          (
            cfg,
            e,
            sym (ap validate same)
                ∙ (validate_iff (drafted new_id draft firmware autostart)).1
                    ((sound autostart).1 s),
          ),
    )
