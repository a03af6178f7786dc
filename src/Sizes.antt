-- ===== src/Sizes.antt =====
-- core/andler-core/src/sizes.rs: byte sizes as people write them.
--
-- `{:.1}` of a quotient of floats is the argument `one_decimal`: the text of a / b with one decimal.
pub mod RoundTrip
pub mod Fractions
use andler.Base.{
  ℕ, zero, suc, ◌+◌, ◌-◌, ◌*◌, ◌/◌, ◌%◌, ◌^◌, Bool, true, false, ◌&&◌, ◌||◌, Option, none, some,
  List, [], ◌∷◌, ◌++◌, Text, codes, Result, ok, err, leb, ltb, ◌==◌, if◌then◌else◌, text_eq, ◌>>=◌,
}
use andler.Decimal.{to_text, parse_uint, u64_max}
use andler.Words.{trim, to_uppercase, remove_char, digits_of, after_digits}

pub data SizeError : Type 0 where
  empty_size : SizeError
  missing_number : Text → SizeError
  decimal_size : SizeError
  invalid_number : Text → SizeError
  size_too_large : Text → SizeError
  unknown_unit : Text → SizeError

abbrev pub kib : ℕ
kib = 2 ^ 10

abbrev pub mib : ℕ
mib = 2 ^ 20

abbrev pub gib : ℕ
gib = 2 ^ 30

abbrev pub tib : ℕ
tib = 2 ^ 40

abbrev is_one_of : Text → Text → Text → Text → Bool
unfolding text_eq
is_one_of t a b c = text_eq t a || text_eq t b || text_eq t c

-- The arms of `match unit_part`.
unfoldable pub unit_scale : Text → Option ℕ
unfolding is_one_of
unit_scale unit =
    if text_eq unit [] || text_eq unit (codes "B")
    then some 1
    else if is_one_of unit (codes "KB") (codes "KIB") (codes "K")
    then some kib
    else if is_one_of unit (codes "MB") (codes "MIB") (codes "M")
    then some mib
    else if is_one_of unit (codes "GB") (codes "GIB") (codes "G")
    then some gib
    else if is_one_of unit (codes "TB") (codes "TIB") (codes "T")
    then some tib
    else none

abbrev pub starts_with_dot : Text → Bool
starts_with_dot [] = false
starts_with_dot (c ∷ t) = c == b'.'

abbrev pub is_none : Text → Bool
is_none [] = true
is_none (c ∷ t) = false

abbrev pub number_or : Text → Option ℕ → Result ℕ SizeError
number_or text none = err (invalid_number text)
number_or text (some n) = ok n

-- `checked_mul`; a scale of 1 cannot overflow.
abbrev pub scaled : Text → Text → ℕ → Option ℕ → Result ℕ SizeError
scaled input unit number none = err (unknown_unit unit)
scaled input unit number (some scale) =
    if leb (number * scale) u64_max then ok (number * scale) else err (size_too_large input)

-- From the two parts of the input on.
unfoldable pub parse_parts : Text → Text → Text → Result ℕ SizeError
unfolding unit_scale parse_uint
parse_parts input number_part unit_part =
    if is_none number_part
    then err (missing_number unit_part)
    else if starts_with_dot unit_part
    then err decimal_size
    else (number_or number_part (parse_uint u64_max number_part) >>= λ number.
        scaled input unit_part number (unit_scale unit_part))

unfoldable pub parse_clean : Text → Result ℕ SizeError
unfolding parse_parts digits_of after_digits
parse_clean input =
    if is_none input
    then err empty_size
    else parse_parts input (digits_of input) (after_digits input)

unfoldable pub parse_size : Text → Result ℕ SizeError
unfolding parse_clean trim to_uppercase
parse_size input = parse_clean (remove_char 32 (to_uppercase (trim input)))

abbrev pub is_multiple_of : ℕ → ℕ → Bool
is_multiple_of n unit = n % unit == 0

module _ (one_decimal : ℕ → ℕ → Text) where
  unfoldable pub format_size : ℕ → Text
  unfolding to_text
  format_size bytes =
      if ltb 0 bytes && is_multiple_of bytes tib
      then to_text (bytes / tib) ++ codes " TiB"
      else if ltb 0 bytes && is_multiple_of bytes gib
      then to_text (bytes / gib) ++ codes " GiB"
      else if ltb 0 bytes && is_multiple_of bytes mib
      then to_text (bytes / mib) ++ codes " MiB"
      else if leb gib bytes
      then one_decimal bytes gib ++ codes " GiB"
      else if leb mib bytes
      then one_decimal bytes mib ++ codes " MiB"
      else if leb kib bytes
      then one_decimal bytes kib ++ codes " KiB"
      else to_text bytes ++ codes " B"
