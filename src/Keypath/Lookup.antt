-- ===== src/Keypath/Lookup.antt =====
-- core/andler-core/src/config/keypath.rs: `get_key`, `set_key`, `diff_configs` and `is_live_key`.
use andler.Base.{
  Bool, false, Option, none, some, List, [], ◌∷◌, Text, codes, text_eq, Result, ok, err,
  if◌then◌else◌, ℕ,
}
use andler.Config.{InstanceConfig}
use andler.Keypath.Values.{KeyFault}
use andler.Keypath.Table.{ConfigKey, Setter, config_keys}

pub data ConfigKeyError : Type 0 where
  unknown : Text → ConfigKeyError
  immutable : Text → Text → ConfigKeyError
  invalid_value : Text → Text → KeyFault → ConfigKeyError

-- `iter().find(|row| row.key == key)`
unfoldable pub find_row : Text → List ConfigKey → Option ConfigKey
find_row key [] = none
find_row key (row ∷ rows) =
    let later = find_row key rows in if text_eq row.key key then some row else later

abbrev shown : InstanceConfig → Option ConfigKey → Option Text
shown cfg none = none
shown cfg (some row) = some (row.get cfg)

abbrev reason_or_default : Option Text → Text
reason_or_default none = codes "read-only key"
reason_or_default (some reason) = reason

abbrev pub checked :
    Text → Text → Result InstanceConfig KeyFault → Result InstanceConfig ConfigKeyError
checked key value (ok cfg) = ok cfg
checked key value (err fault) = err (invalid_value key value fault)

abbrev pub apply_setter :
    InstanceConfig → Text → Text → ConfigKey → Option Setter → Result InstanceConfig ConfigKeyError
apply_setter cfg key value row none = err (immutable key (reason_or_default row.immutable_reason))
apply_setter cfg key value row (some set) = checked key value (set cfg value)

abbrev pub set_row :
    InstanceConfig → Text → Text → Option ConfigKey → Result InstanceConfig ConfigKeyError
set_row cfg key value none = err (unknown key)
set_row cfg key value (some row) = apply_setter cfg key value row row.set

-- A key and its values in two configurations.
abbrev pub Drift : Type 0
Drift = Text × Text × Text

unfoldable pub diff_rows : List ConfigKey → InstanceConfig → InstanceConfig → List Drift
diff_rows [] from to = []
diff_rows (row ∷ rows) from to =
    let rest = diff_rows rows from to in
    if text_eq (row.get from) (row.get to) then rest else (row.key, row.get from, row.get to) ∷ rest

abbrev live_row : Option ConfigKey → Bool
live_row none = false
live_row (some row) = row.live

module _ (one_decimal : ℕ → ℕ → Text) where
  unfoldable pub get_key : InstanceConfig → Text → Option Text
  unfolding find_row
  get_key cfg key = shown cfg (find_row key (config_keys one_decimal))

  unfoldable pub set_key : InstanceConfig → Text → Text → Result InstanceConfig ConfigKeyError
  unfolding find_row
  set_key cfg key value = set_row cfg key value (find_row key (config_keys one_decimal))

  unfoldable pub diff_configs : InstanceConfig → InstanceConfig → List Drift
  unfolding diff_rows
  diff_configs from to = diff_rows (config_keys one_decimal) from to

  unfoldable pub is_live_key : Text → Bool
  unfolding find_row
  is_live_key key = live_row (find_row key (config_keys one_decimal))
