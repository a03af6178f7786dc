-- ===== src/Sizes/RoundTrip.antt =====
-- What `format_size` writes, `parse_size` reads back, where the size is whole in its unit.
use andler.Base.{
  ℕ, ◌*◌, ◌/◌, ◌%◌, ◌≤◌, ◌<◌, ◌≡◌, refl, ap, ◌∙◌, false, some, [], ◌∷◌, ◌++◌, Text, codes, ok, leb,
  ltb, if◌then◌else◌, ◌&&◌, text_eq, arith, is_empty, ◌⊎◌, inl, inr, Bool-cases,
}
use native.Mathlib.Nat.{le_trans, div-le_self}
use andler.Decimal.{to_text, parse_uint, u64_max}
use andler.Decimal.RoundTrip.{
  AreDigits, StartsWithDigit, to_text-AreDigits, to_text-StartsWithDigit, parse_uint-to_text,
}
use andler.Words.{
  trim_end, to_uppercase, remove_char, digits_of, after_digits, upper, is_whitespace,
}
use andler.Words.Trimming.{clean_number, split_number}
use andler.Sizes.{
  kib, mib, gib, tib, unit_scale, parse_parts, parse_clean, parse_size, format_size,
  starts_with_dot, is_multiple_of,
}

-- A unit as it is written after a number, and as it is matched.
record IsUnit (written matched : Text) (scale : ℕ) : Type 0 where
  not_blank : is_empty (trim_end written) ≡ false
  cleaned : remove_char 32 (to_uppercase (trim_end written)) ≡ matched
  no_digits : digits_of matched ≡ []
  whole : after_digits matched ≡ matched
  no_dot : starts_with_dot matched ≡ false
  scaled_by : unit_scale matched ≡ some scale

pub parse_clean_split :
    (s m : Text)
    → StartsWithDigit s
    → AreDigits s
    → digits_of m ≡ []
    → after_digits m ≡ m
    → parse_clean (s ++ m) ≡ parse_parts (s ++ m) s m
unfolding parse_clean
parse_clean_split [] m start digits none_left whole = absurd start
parse_clean_split (c ∷ s) m start digits none_left whole =
    let (front, back) = split_number (c ∷ s) m digits none_left in rw (front, back ∙ whole)

parse_parts_fits :
    (input s m : Text) (n scale : ℕ)
    → StartsWithDigit s
    → starts_with_dot m ≡ false
    → parse_uint u64_max s ≡ some n
    → unit_scale m ≡ some scale
    → n * scale ≤ u64_max
    → parse_parts input s m ≡ ok (n * scale)
unfolding parse_parts
parse_parts_fits input [] m n scale start no_dot number unit fits = absurd start
parse_parts_fits input (c ∷ s) m n scale start no_dot number unit fits =
    rw (no_dot, number, unit) (ground arith)

-- A number and its unit.
parse_written :
    (n : ℕ) (written matched : Text) (scale : ℕ)
    → IsUnit written matched scale
    → n ≤ u64_max
    → n * scale ≤ u64_max
    → parse_size (to_text n ++ written) ≡ ok (n * scale)
unfolding parse_size
parse_written n written matched scale u small fits =
    let digits = to_text-AreDigits n in
    let start = to_text-StartsWithDigit n in
    rw (clean_number (to_text n) written digits start u.not_blank) (
      rw (u.cleaned) (
        parse_clean_split (to_text n) matched start digits u.no_digits u.whole
        ∙ parse_parts_fits (to_text n ++ matched) (to_text n) matched n scale start u.no_dot
            (parse_uint-to_text u64_max n small) u.scaled_by fits))

bytes-IsUnit : IsUnit (codes " B") (codes "B") 1
unfolding trim_end to_uppercase digits_of after_digits unit_scale is_whitespace upper text_eq
bytes-IsUnit = record {
  not_blank = refl;
  cleaned = refl;
  no_digits = refl;
  whole = refl;
  no_dot = refl;
  scaled_by = refl;
}

mib-IsUnit : IsUnit (codes " MiB") (codes "MIB") mib
unfolding trim_end to_uppercase digits_of after_digits unit_scale is_whitespace upper text_eq
mib-IsUnit = record {
  not_blank = refl;
  cleaned = refl;
  no_digits = refl;
  whole = refl;
  no_dot = refl;
  scaled_by = refl;
}

gib-IsUnit : IsUnit (codes " GiB") (codes "GIB") gib
unfolding trim_end to_uppercase digits_of after_digits unit_scale is_whitespace upper text_eq
gib-IsUnit = record {
  not_blank = refl;
  cleaned = refl;
  no_digits = refl;
  whole = refl;
  no_dot = refl;
  scaled_by = refl;
}

tib-IsUnit : IsUnit (codes " TiB") (codes "TIB") tib
unfolding trim_end to_uppercase digits_of after_digits unit_scale is_whitespace upper text_eq
tib-IsUnit = record {
  not_blank = refl;
  cleaned = refl;
  no_digits = refl;
  whole = refl;
  no_dot = refl;
  scaled_by = refl;
}

mib_short-IsUnit : IsUnit (codes "M") (codes "M") mib
unfolding trim_end to_uppercase digits_of after_digits unit_scale is_whitespace upper text_eq
mib_short-IsUnit = record {
  not_blank = refl;
  cleaned = refl;
  no_digits = refl;
  whole = refl;
  no_dot = refl;
  scaled_by = refl;
}

gib_short-IsUnit : IsUnit (codes "G") (codes "G") gib
unfolding trim_end to_uppercase digits_of after_digits unit_scale is_whitespace upper text_eq
gib_short-IsUnit = record {
  not_blank = refl;
  cleaned = refl;
  no_digits = refl;
  whole = refl;
  no_dot = refl;
  scaled_by = refl;
}

-- A number of MiB or GiB in the short spelling.
pub parse_short_mib :
    (n : ℕ) → n * mib ≤ u64_max → parse_size (to_text n ++ codes "M") ≡ ok (n * mib)
parse_short_mib n fits =
    parse_written n (codes "M") (codes "M") mib mib_short-IsUnit (omega arith) fits

pub parse_short_gib :
    (n : ℕ) → n * gib ≤ u64_max → parse_size (to_text n ++ codes "G") ≡ ok (n * gib)
parse_short_gib n fits =
    parse_written n (codes "G") (codes "G") gib gib_short-IsUnit (omega arith) fits

whole_unit :
    (bytes unit : ℕ) (written matched : Text)
    → IsUnit written matched unit
    → bytes ≤ u64_max
    → bytes / unit * unit ≡ bytes
    → parse_size (to_text (bytes / unit) ++ written) ≡ ok bytes
whole_unit bytes unit written matched u small exact =
    parse_written (bytes / unit) written matched unit u (le_trans (div-le_self bytes unit) small)
      (rw exact small)
    ∙ ap ok exact

pub not_leb : (a b : ℕ) → a < b → leb b a ≡ false
not_leb a b h = ground arith

small_bytes :
    (one_decimal : ℕ → ℕ → Text) (bytes : ℕ)
    → bytes ≤ u64_max
    → bytes < kib
    → parse_size (
        if leb gib bytes
        then one_decimal bytes gib ++ codes " GiB"
        else if leb mib bytes
        then one_decimal bytes mib ++ codes " MiB"
        else if leb kib bytes
        then one_decimal bytes kib ++ codes " KiB"
        else to_text bytes ++ codes " B")
      ≡ ok bytes
small_bytes one_decimal bytes small below =
    rw (not_leb bytes gib (omega arith), not_leb bytes mib (omega arith), not_leb bytes kib below)
      (parse_written bytes (codes " B") (codes "B") 1 bytes-IsUnit small (omega arith)
        ∙ ap ok (omega arith))

-- A `u64` size that is a whole number of MiB, or less than a KiB, is read back from the text that it
-- is shown as.
pub parse_size-format_size :
    (one_decimal : ℕ → ℕ → Text) (bytes : ℕ)
    → bytes ≤ u64_max
    → (bytes % mib ≡ 0) ⊎ (bytes < kib)
    → parse_size (format_size one_decimal bytes) ≡ ok bytes
unfolding format_size
parse_size-format_size one_decimal bytes small readable =
    elim (Bool-cases (ltb 0 bytes && is_multiple_of bytes tib)) [
      | inl t ↦
          rw t (whole_unit bytes tib (codes " TiB") (codes "TIB") tib-IsUnit small (ground arith))
      | inr not_t ↦ rw not_t (elim (Bool-cases (ltb 0 bytes && is_multiple_of bytes gib)) [
        | inl g ↦
            rw g (whole_unit bytes gib (codes " GiB") (codes "GIB") gib-IsUnit small (ground arith))
        | inr not_g ↦ rw not_g (elim (Bool-cases (ltb 0 bytes && is_multiple_of bytes mib)) [
          | inl m ↦
              rw m
                (whole_unit bytes mib (codes " MiB") (codes "MIB") mib-IsUnit small (ground arith))
          | inr not_m ↦ rw not_m (small_bytes one_decimal bytes small (ground arith))
        ])
      ])
    ]
