-- ===== src/Keypath/Setting.antt =====
-- What a successful `set_key` leaves alone.
use andler.Base.{
  ℕ, ◌≡◌, Option, none, some, List, [], ◌∷◌, Text, Result, ok, err, All, Bool-cases, Option-cases,
  inl, inr, text_eq, arith,
}
use mathlib.Core.Path.{subst}
use andler.Config.{InstanceConfig}
use andler.Keypath.Values.{KeyFault}
use andler.Keypath.Table.{ConfigKey, Setter, config_keys}
use andler.Keypath.Lookup.{checked, find_row, apply_setter, set_row, set_key}
use andler.Keypath.Fixed.{fixed, Keeps, RowKeeps, config_keys-RowKeeps}

found-RowKeeps :
    (key : Text) (rows : List ConfigKey) (row : ConfigKey)
    → All RowKeeps rows
    → find_row key rows ≡ some row
    → RowKeeps row
unfolding find_row
found-RowKeeps key [] row keeps found = absurd cc
found-RowKeeps key (r ∷ rows) row keeps found = elim (Bool-cases (text_eq r.key key)) [
  | inl here ↦ subst RowKeeps (some_Injective r row (rw here at found)) keeps.0
  | inr later ↦ found-RowKeeps key rows row keeps.1 (rw later at found)
]
  where
    some_Injective : (a b : ConfigKey) → ◌≡◌ {A = Option ConfigKey} (some a) (some b) → a ≡ b
    some_Injective a b e = ground (arith, e)

checked-ok :
    (key value : Text) (r : Result InstanceConfig KeyFault) (after : InstanceConfig)
    → checked key value r ≡ ok after
    → r ≡ ok after
checked-ok key value (err fault) after h = cc
checked-ok key value (ok cfg) after h = ground (arith, h)

apply_setter-fixed :
    (cfg : InstanceConfig) (key value : Text) (row : ConfigKey) (set : Option Setter)
    (after : InstanceConfig)
    → Keeps set
    → apply_setter cfg key value row set ≡ ok after
    → fixed after ≡ fixed cfg
apply_setter-fixed cfg key value row none after keeps h = absurd cc
apply_setter-fixed cfg key value row (some set) after keeps h =
    keeps cfg value after (checked-ok key value (set cfg value) after h)

set_row-fixed :
    (cfg : InstanceConfig) (key value : Text) (rows : List ConfigKey) (after : InstanceConfig)
    → All RowKeeps rows
    → set_row cfg key value (find_row key rows) ≡ ok after
    → fixed after ≡ fixed cfg
set_row-fixed cfg key value rows after keeps h = elim (Option-cases (find_row key rows)) [
  | inl nothing ↦ absurd (let e = rw nothing at h in cc)
  | inr (row, found) ↦
      apply_setter-fixed cfg key value row row.set after (found-RowKeeps key rows row keeps found)
        (rw found at h)
]

-- Whatever key is set to whatever value, a setting that succeeds leaves the immutable parts of the
-- configuration as they were.
pub set_key-fixed :
    (one_decimal : ℕ → ℕ → Text) (cfg after : InstanceConfig) (key value : Text)
    → set_key one_decimal cfg key value ≡ ok after
    → fixed after ≡ fixed cfg
unfolding set_key
set_key-fixed one_decimal cfg after key value h =
    set_row-fixed cfg key value (config_keys one_decimal) after (config_keys-RowKeeps one_decimal) h
