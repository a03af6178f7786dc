-- ===== src/Examples/Keys.antt =====
-- Configuration keys.
use andler.Base.{◌≡◌, ◌↔◌, refl, [], codes, map, All, text_eq}
use andler.Config.{InstanceConfig}
use andler.Decimal.{parse_uint, parse_digits}
use andler.Keypath.Values.{parse_u32}
use andler.Keypath.Table.{config_keys, instance_keys, machine_keys}
use andler.Keypath.Lookup.{Drift, find_row, set_key, diff_configs}
use andler.Keypath.Fixed.{fixed}
use andler.Keypath.Setting.{set_key-fixed}
use andler.Keypath.Drift.{SameRow, IsDrift, differing, diff_configs_cases}
use andler.Examples.Data.{vm, edited}
use andler.Examples.Configs.{tenths}

abbrev eight_cores : InstanceConfig
eight_cores = record vm { cpu = record (vm.cpu) { cores = 8 } }

set_key-fixed_example : fixed eight_cores ≡ fixed vm
unfolding set_key find_row config_keys instance_keys machine_keys parse_u32 parse_uint parse_digits
    text_eq
set_key-fixed_example = set_key-fixed tenths vm eight_cores (codes "cpu.cores") (codes "8") refl

diff_configs_cases_example :
    ((diff_configs tenths vm edited ≡ []) ↔ All (SameRow vm edited) (config_keys tenths))
    × All (IsDrift (config_keys tenths) vm edited) (diff_configs tenths vm edited)
    × (map (λ (drift : Drift). drift.0) (diff_configs tenths vm edited)
        ≡ differing (config_keys tenths) vm edited)
diff_configs_cases_example = diff_configs_cases tenths vm edited
