-- ===== src/Sizes/Fractions.antt =====
-- A size that is shown with a decimal cannot be typed back.
use andler.Base.{
  ℕ, ◌+◌, ◌%◌, ◌≤◌, ◌<◌, ◌≡◌, ◌≢◌, refl, ◌∙◌, true, false, [], ◌∷◌, ◌++◌, Text, codes, err, leb,
  ltb, if◌then◌else◌, ◌&&◌, arith, is_empty, inl, inr, Bool-cases,
}
use mathlib.Core.List.{append_assoc}
use andler.Decimal.{to_text}
use andler.Decimal.RoundTrip.{StartsWithDigit, to_text-AreDigits, to_text-StartsWithDigit}
use andler.Words.{
  trim_end, to_uppercase, remove_char, digits_of, after_digits, upper, is_whitespace,
}
use andler.Words.Trimming.{clean_number}
use andler.Sizes.{
  decimal_size, kib, mib, gib, tib, parse_parts, parse_size, format_size, is_multiple_of,
}
use andler.Sizes.RoundTrip.{parse_clean_split}

-- What `{:.1}` writes of a quotient: an integer, a point, a digit.
abbrev pub HasOneDecimal : (ℕ → ℕ → Text) → Type 0
HasOneDecimal one_decimal =
    (a b : ℕ)
    → 0 < b
    → (q d : ℕ) × (d < 10) × (one_decimal a b ≡ to_text q ++ b'.' ∷ (d + b'0') ∷ [])

parse_parts_dot :
    (input s m : Text) → StartsWithDigit s → parse_parts input s (b'.' ∷ m) ≡ err decimal_size
unfolding parse_parts
parse_parts_dot input [] m start = absurd start
parse_parts_dot input (c ∷ s) m start = refl

-- The part after the integer, with a unit of one capital letter and `iB`.
tail_cleaned :
    (d letter : ℕ)
    → d < 10
    → b'A' ≤ letter
    → letter ≤ b'Z'
    → let tail = b'.' ∷ (d + b'0') ∷ b' ' ∷ letter ∷ b'i' ∷ b'B' ∷ [] in
      (is_empty (trim_end tail) ≡ false)
      × (remove_char 32 (to_uppercase (trim_end tail))
          ≡ b'.' ∷ (d + b'0') ∷ letter ∷ b'I' ∷ b'B' ∷ [])
unfolding trim_end to_uppercase is_whitespace upper
tail_cleaned d letter digit lo hi = (ground arith, ground arith)

decimal_rejected :
    (q d letter : ℕ)
    → d < 10
    → b'A' ≤ letter
    → letter ≤ b'Z'
    → parse_size (to_text q ++ b'.' ∷ (d + b'0') ∷ b' ' ∷ letter ∷ b'i' ∷ b'B' ∷ [])
      ≡ err decimal_size
unfolding parse_size digits_of after_digits
decimal_rejected q d letter digit lo hi =
    let digits = to_text-AreDigits q in
    let start = to_text-StartsWithDigit q in
    let (rest, cleaned) = tail_cleaned d letter digit lo hi in
    let tail : Text = b'.' ∷ (d + b'0') ∷ b' ' ∷ letter ∷ b'i' ∷ b'B' ∷ [] in
    rw (clean_number (to_text q) tail digits start rest) (
      rw cleaned (
        parse_clean_split (to_text q) (b'.' ∷ (d + b'0') ∷ letter ∷ b'I' ∷ b'B' ∷ []) start digits
          refl refl
        ∙ parse_parts_dot (to_text q ++ b'.' ∷ (d + b'0') ∷ letter ∷ b'I' ∷ b'B' ∷ []) (to_text q)
            ((d + b'0') ∷ letter ∷ b'I' ∷ b'B' ∷ []) start))

shown_rejected :
    (one_decimal : ℕ → ℕ → Text) (bytes unit letter : ℕ)
    → HasOneDecimal one_decimal
    → 0 < unit
    → b'A' ≤ letter
    → letter ≤ b'Z'
    → parse_size (one_decimal bytes unit ++ b' ' ∷ letter ∷ b'i' ∷ b'B' ∷ []) ≡ err decimal_size
shown_rejected one_decimal bytes unit letter law pos lo hi =
    let (q, d, digit, shown) = law bytes unit pos in
    rw (shown, append_assoc) (decimal_rejected q d letter digit lo hi)

is_leb : (a b : ℕ) → a ≤ b → leb a b ≡ true
is_leb a b h = ground arith

-- The branches of `format_size` past the whole units.
fraction_branch :
    (one_decimal : ℕ → ℕ → Text) (bytes : ℕ) (last : Text)
    → HasOneDecimal one_decimal
    → kib ≤ bytes
    → parse_size (
        if leb gib bytes
        then one_decimal bytes gib ++ codes " GiB"
        else if leb mib bytes
        then one_decimal bytes mib ++ codes " MiB"
        else if leb kib bytes
        then one_decimal bytes kib ++ codes " KiB"
        else last)
      ≡ err decimal_size
fraction_branch one_decimal bytes last law large = elim (Bool-cases (leb gib bytes)) [
  | inl g ↦
      rw g (shown_rejected one_decimal bytes gib b'G' law (omega arith) (omega arith) (omega arith))
  | inr not_g ↦ rw not_g (elim (Bool-cases (leb mib bytes)) [
    | inl m ↦
        rw m
          (shown_rejected one_decimal bytes mib b'M' law (omega arith) (omega arith) (omega arith))
    | inr not_m ↦ rw not_m (
        rw (is_leb kib bytes large)
          (shown_rejected one_decimal bytes kib b'K' law (omega arith) (omega arith) (omega arith)))
  ])
]

no_tib : (bytes : ℕ) → bytes % mib ≢ 0 → (ltb 0 bytes && is_multiple_of bytes tib) ≡ false
no_tib bytes odd = ground arith

no_gib : (bytes : ℕ) → bytes % mib ≢ 0 → (ltb 0 bytes && is_multiple_of bytes gib) ≡ false
no_gib bytes odd = ground arith

no_mib : (bytes : ℕ) → bytes % mib ≢ 0 → (ltb 0 bytes && is_multiple_of bytes mib) ≡ false
no_mib bytes odd = ground arith

-- A size of at least a KiB that is not a whole number of MiB is shown with one decimal, and that
-- text is refused as a size: what is shown cannot be typed.
pub format_size_not_typed :
    (one_decimal : ℕ → ℕ → Text) (bytes : ℕ)
    → HasOneDecimal one_decimal
    → kib ≤ bytes
    → bytes % mib ≢ 0
    → parse_size (format_size one_decimal bytes) ≡ err decimal_size
unfolding format_size
format_size_not_typed one_decimal bytes law large odd =
    rw (no_tib bytes odd, no_gib bytes odd, no_mib bytes odd)
      (fraction_branch one_decimal bytes _ law large)
