-- ===== src/Keypath/Drift.antt =====
-- What `diff_configs` reports.
use andler.Base.{
  ℕ, ◌≡◌, ◌≢◌, refl, ◌↔◌, List, [], ◌∷◌, Text, text_eq, text_eq_iff, All, All-map, Bool-cases, inl,
  inr, ap, not, retain,
}
use mathlib.Core.List.{map}
use mathlib.Core.List.{Memᴰ}
use andler.Config.{InstanceConfig}
use andler.Keypath.Table.{ConfigKey, config_keys}
use andler.Keypath.Lookup.{Drift, diff_rows, diff_configs}

abbrev pub SameRow : InstanceConfig → InstanceConfig → ConfigKey → Type 0
SameRow from to row = row.get from ≡ row.get to

-- A reported triple is a row's key with its two values, which differ.
abbrev pub IsDrift : List ConfigKey → InstanceConfig → InstanceConfig → Drift → Type 0
IsDrift rows from to drift =
    (row : ConfigKey) × Memᴰ row rows
    × (drift ≡ (row.key, row.get from, row.get to))
    × (row.get from ≢ row.get to)

diff_rows_empty_iff :
    (rows : List ConfigKey) (from to : InstanceConfig)
    → (diff_rows rows from to ≡ []) ↔ All (SameRow from to) rows
unfolding diff_rows
diff_rows_empty_iff [] from to = (λ _. tt, λ _. refl)
diff_rows_empty_iff (row ∷ rows) from to =
    let rest = diff_rows_empty_iff rows from to in
    let same = text_eq_iff (row.get from) (row.get to) in
    elim (Bool-cases (text_eq (row.get from) (row.get to))) [
      | inl equal ↦ rw equal (λ h. (same.0 equal, rest.0 h), λ h. rest.1 h.1)
      | inr differ ↦ rw differ (λ h. absurd cc, λ h. absurd (let e = same.1 h.0 in cc))
    ]

widen :
    (row : ConfigKey) (rows : List ConfigKey) (from to : InstanceConfig) (drift : Drift)
    → IsDrift rows from to drift
    → IsDrift (row ∷ rows) from to drift
widen row rows from to drift (r, there, is, differs) = (r, Memᴰ.tail there, is, differs)

diff_rows-IsDrift :
    (rows : List ConfigKey) (from to : InstanceConfig)
    → All (IsDrift rows from to) (diff_rows rows from to)
unfolding diff_rows
diff_rows-IsDrift [] from to = tt
diff_rows-IsDrift (row ∷ rows) from to =
    let rest =
      All-map (diff_rows rows from to) (widen row rows from to) (diff_rows-IsDrift rows from to) in
    elim (Bool-cases (text_eq (row.get from) (row.get to))) [
      | inl equal ↦ rw equal rest
      | inr differ ↦ rw differ (
        (
          row,
          Memᴰ.head refl,
          refl,
          λ e. let t = (text_eq_iff (row.get from) (row.get to)).1 e in cc,
        ),
        rest,
      )
    ]

-- The keys of the rows on which two configurations differ, in the order of the rows.
abbrev pub differing : List ConfigKey → InstanceConfig → InstanceConfig → List Text
differing rows from to =
    map (λ (row : ConfigKey). row.key)
      (retain (λ (row : ConfigKey). not (text_eq (row.get from) (row.get to))) rows)

diff_rows-differing :
    (rows : List ConfigKey) (from to : InstanceConfig)
    → map (λ (drift : Drift). drift.0) (diff_rows rows from to) ≡ differing rows from to
unfolding diff_rows
diff_rows-differing [] from to = refl
diff_rows-differing (row ∷ rows) from to =
    let rest = diff_rows-differing rows from to in
    elim (Bool-cases (text_eq (row.get from) (row.get to))) [
      | inl equal ↦ rw equal rest
      | inr differ ↦ rw differ (ap (λ keys. row.key ∷ keys) rest)
    ]

-- The keys that `diff_configs` reports are those of the rows on which the two configurations differ, all
-- of them and in the order of the table; each comes with its two values, which differ, and there is none
-- exactly if the configurations agree on every row.
pub diff_configs_cases :
    (one_decimal : ℕ → ℕ → Text) (from to : InstanceConfig)
    → ((diff_configs one_decimal from to ≡ []) ↔ All (SameRow from to) (config_keys one_decimal))
      × All (IsDrift (config_keys one_decimal) from to) (diff_configs one_decimal from to)
      × (map (λ (drift : Drift). drift.0) (diff_configs one_decimal from to)
          ≡ differing (config_keys one_decimal) from to)
unfolding diff_configs
diff_configs_cases one_decimal from to = (
  diff_rows_empty_iff (config_keys one_decimal) from to,
  diff_rows-IsDrift (config_keys one_decimal) from to,
  diff_rows-differing (config_keys one_decimal) from to,
)
