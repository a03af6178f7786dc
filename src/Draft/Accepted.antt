-- ===== src/Draft/Accepted.antt =====
-- Which drafts resolve.
use andler.Base.{
  ℕ, ◌*◌, ◌≤◌, ◌<◌, ◌≡◌, refl, ◌↔◌, ◌⊎◌, inl, inr, true, false, Option, none, some, ok, err, arith,
  Text, Result-cases, Bool-cases, ltb, ltb→lt, lt→ltb,
}
use andler.Config.{InstanceId, InstanceConfig, gib}
use andler.Decimal.{u64_max}
use andler.Draft.{
  HostFirmware, DraftKind, linux, android, ConfigDraft, DiskDraft, DiskSource, fresh, base_image,
  disk_of, drafted_disk, too_large, is_some, gib_of, resolve_disk,
  reject_unsupported_android_inputs, base_config, finish, resolve_draft, resolve_firmware,
}

-- Nothing that an Android guest cannot have.
abbrev pub IsBare : ConfigDraft → Type 0
IsBare draft =
    (draft.cpu ≡ none)
    × (draft.memory ≡ none)
    × (draft.display ≡ none)
    × (draft.gpu ≡ none)
    × (draft.network ≡ none)
    × (draft.audio ≡ none)
    × (draft.input ≡ none)
    × (draft.autostart ≡ false)

abbrev pub Allowed : DraftKind → ConfigDraft → Type 0
Allowed (linux iso_path cdrom_bus) draft = Unit
Allowed (android profile) draft = IsBare draft

is_some_iff : {A : Type 0} (o : Option A) → (is_some o ≡ false) ↔ (o ≡ none)
is_some_iff none = (λ h. refl, λ h. refl)
is_some_iff (some x) = (λ h. absurd cc, λ h. absurd cc)

pub reject-IsBare :
    (draft : ConfigDraft) → (reject_unsupported_android_inputs draft ≡ ok tt) ↔ IsBare draft
unfolding reject_unsupported_android_inputs
reject-IsBare draft = (
  λ h. ground (
    arith,
    (is_some_iff draft.cpu).0,
    (is_some_iff draft.memory).0,
    (is_some_iff draft.display).0,
    (is_some_iff draft.gpu).0,
    (is_some_iff draft.network).0,
    (is_some_iff draft.audio).0,
    (is_some_iff draft.input).0,
  ),
  λ h. rw (h.0, h.1, h.2, h.3, h.4, h.5, h.6, h.7) refl,
)

-- The disk has the size that was asked for, whatever its source.
pub disk_of-size :
    (source : DiskSource) (path : Text) (size : ℕ) → (disk_of source path size).size_bytes ≡ size
disk_of-size fresh path size = refl
disk_of-size (base_image base true) path size = refl
disk_of-size (base_image base false) path size = refl

pub resolve_disk_cases :
    (draft : DiskDraft)
    → ((gib_of draft * gib ≤ u64_max) × (resolve_disk draft ≡ ok (drafted_disk draft)))
      ⊎ ((u64_max < gib_of draft * gib) × (resolve_disk draft ≡ err (too_large (gib_of draft))))
unfolding resolve_disk
resolve_disk_cases draft = elim (Bool-cases (ltb u64_max (gib_of draft * gib))) [
  | inl large ↦ inr (ltb→lt u64_max (gib_of draft * gib) large, rw large refl)
  | inr fits ↦ inl (ground (arith, lt→ltb u64_max (gib_of draft * gib)), rw fits refl)
]

finish-Allowed :
    (kind : DraftKind) (draft : ConfigDraft) (base : InstanceConfig)
    → ((cfg : InstanceConfig) × (finish kind draft base ≡ ok cfg)) ↔ Allowed kind draft
finish-Allowed (linux iso_path cdrom_bus) draft base = (λ h. tt, λ h. (base, refl))
finish-Allowed (android profile) draft base = (
  λ (cfg, e). elim (Result-cases (reject_unsupported_android_inputs draft)) [
    | inl (done, r) ↦ (reject-IsBare draft).0 r
    | inr (reason, r) ↦ absurd cc
  ],
  λ h. (record base { autostart = false }, rw ((reject-IsBare draft).1 h) refl),
)

-- A draft resolves exactly when its disk fits in 64 bits and, for an Android guest, no section and no
-- autostart is asked for.
pub resolve_draft_iff :
    (new_id : InstanceId) (draft : ConfigDraft) (host : HostFirmware)
    → ((cfg : InstanceConfig) × (resolve_draft new_id draft host ≡ ok cfg))
      ↔ ((gib_of draft.disk * gib ≤ u64_max) × Allowed draft.kind draft)
unfolding resolve_draft
resolve_draft_iff new_id draft host =
    let firmware = resolve_firmware draft.firmware host in
    elim (resolve_disk_cases draft.disk) [
      | inl (le, e) ↦
          let allowed =
            finish-Allowed draft.kind draft
              (base_config new_id draft (drafted_disk draft.disk) firmware) in
          rw e (λ h. (le, allowed.0 h), λ h. allowed.1 h.1)
      | inr (lt, e) ↦ rw e (λ h. absurd cc, λ h. absurd (omega arith))
    ]
