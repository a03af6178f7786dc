-- ===== src/Examples/Configs.antt =====
-- Configurations, sizes and ids.
use andler.Base.{
  ℕ, suc, ◌+◌, ◌*◌, ◌/◌, ◌%◌, ◌^◌, ◌<◌, ◌≡◌, ◌↔◌, inl, refl, true, false, none, some, [], ◌∷◌, ◌++◌,
  ◌≤◌, Text, codes, length, ok, err, All, arith,
}
use andler.Decimal.{to_text, u64_max}
use andler.Config.{validate, InstanceConfig, CdromBus, cpu_default, gib}
use andler.Config.Validity.{IsValid, validate_iff}
use andler.Sizes.{parse_size, format_size, decimal_size}
use andler.Sizes.RoundTrip.{parse_size-format_size}
use andler.Sizes.Fractions.{HasOneDecimal, format_size_not_typed}
use andler.InstanceId.{fmt, from_str, instance_id_hex_len}
use andler.InstanceId.RoundTrip.{from_str-fmt}
use andler.Draft.{ConfigDraft, HostFirmware, linux, base_image, resolve_draft}
use andler.Draft.Accepted.{Allowed}
use andler.Draft.Valid.{IsSound, draft_valid_iff}
use andler.Examples.Data.{vm, vm_id, id_bytes}

validate_iff_example : (validate vm ≡ ok tt) ↔ IsValid vm
validate_iff_example = validate_iff vm

-- A quotient's integer part and its tenths.
abbrev pub tenths : ℕ → ℕ → Text
tenths a b = to_text (a * 10 / b / 10) ++ b'.' ∷ (a * 10 / b % 10 + b'0') ∷ []

tenths-HasOneDecimal : HasOneDecimal tenths
tenths-HasOneDecimal a b pos = (a * 10 / b / 10, a * 10 / b % 10, omega arith, refl)

parse_size-format_size_example : parse_size (format_size tenths (3 * 2 ^ 29)) ≡ ok (3 * 2 ^ 29)
parse_size-format_size_example = parse_size-format_size tenths (3 * 2 ^ 29) (omega arith) (inl refl)

format_size_not_typed_example : parse_size (format_size tenths 2000000000) ≡ err decimal_size
format_size_not_typed_example =
    format_size_not_typed tenths 2000000000 tenths-HasOneDecimal (omega arith) (omega arith)

id_bytes_small : (n : ℕ) → All (λ b. b < 256) (id_bytes n)
id_bytes_small ℕ.zero = tt
id_bytes_small (suc n) = (omega arith, id_bytes_small n)

from_str-fmt_example :
    (from_str (fmt vm_id) ≡ some vm_id) × (length (fmt vm_id) ≡ instance_id_hex_len)
from_str-fmt_example = from_str-fmt vm_id (record { bytes = id_bytes_small 32; count = refl })

-- Only the number of cores is asked for.
abbrev draft : ConfigDraft
draft = record {
  name = codes "a";
  kind = linux (codes "/iso/linux.iso") CdromBus.ide;
  disk = record {
    path = codes "/d";
    source = base_image (codes "/base") true;
    size_gib = none;
    compact_on_shutdown = false;
    snapshot_timeout_secs = none;
  };
  firmware = record { enable_uefi = none; ovmf_vars_template = some [] };
  autostart = true;
  cpu = some (record cpu_default { cores = 2 });
  memory = none;
  display = none;
  gpu = none;
  network = none;
  audio = none;
  input = none;
}

abbrev host_firmware : HostFirmware
host_firmware = record { ovmf_code_path = none; ovmf_vars_template = none }

draft_valid_iff_example :
    ((cfg : InstanceConfig) × (resolve_draft vm_id draft host_firmware ≡ ok cfg)
      × (validate cfg ≡ ok tt))
    ↔ ((128 * gib ≤ u64_max) × Allowed draft.kind draft × IsSound draft)
draft_valid_iff_example = draft_valid_iff vm_id draft host_firmware
