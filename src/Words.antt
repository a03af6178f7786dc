-- ===== src/Words.antt =====
-- What the source uses of Rust's `str`: trimming, case and search, on texts of code points.
-- `to_uppercase` and `to_ascii_lowercase` are taken on ASCII letters; other code points stay.
pub mod Trimming
use andler.Base.{
  ℕ, ◌+◌, ◌-◌, Bool, true, false, not, ◌&&◌, ◌||◌, Option, none, some, List, [], ◌∷◌, map, Text,
  leb, ◌==◌, if◌then◌else◌, is_empty, retain,
}
use andler.Decimal.{is_digit}

-- `char::is_whitespace`.
unfoldable pub is_whitespace : ℕ → Bool
is_whitespace c =
    leb 9 c && leb c 13
    || c == 32
    || c == 0x85
    || c == 0xA0
    || c == 0x1680
    || leb 0x2000 c && leb c 0x200A
    || c == 0x2028
    || c == 0x2029
    || c == 0x202F
    || c == 0x205F
    || c == 0x3000

unfoldable pub trim_start : Text → Text
trim_start [] = []
trim_start (c ∷ t) = let rest = trim_start t in if is_whitespace c then rest else c ∷ t

unfoldable pub trim_end : Text → Text
trim_end [] = []
trim_end (c ∷ t) =
    let rest = trim_end t in if is_whitespace c && is_empty rest then [] else c ∷ rest

unfoldable pub trim : Text → Text
unfolding trim_start trim_end is_whitespace
trim t = trim_end (trim_start t)

unfoldable pub upper : ℕ → ℕ
upper c = if leb b'a' c && leb c b'z' then c - 32 else c

unfoldable pub lower : ℕ → ℕ
lower c = if leb b'A' c && leb c b'Z' then c + 32 else c

unfoldable pub to_uppercase : Text → Text
unfolding upper
to_uppercase t = map upper t

unfoldable pub to_ascii_lowercase : Text → Text
unfolding lower
to_ascii_lowercase t = map lower t

-- `replace(c, "")`
abbrev pub remove_char : ℕ → Text → Text
remove_char c t = retain (λ d. not (d == c)) t

unfoldable pub digits_of : Text → Text
digits_of [] = []
digits_of (c ∷ t) = let rest = digits_of t in if is_digit c then c ∷ rest else []

unfoldable pub after_digits : Text → Text
after_digits [] = []
after_digits (c ∷ t) = let rest = after_digits t in if is_digit c then rest else c ∷ t

unfoldable pub strip_prefix : Text → Text → Option Text
strip_prefix [] t = some t
strip_prefix (p ∷ ps) [] = none
strip_prefix (p ∷ ps) (c ∷ t) = let rest = strip_prefix ps t in if p == c then rest else none

abbrev push_left : ℕ → Option (Text × Text) → Option (Text × Text)
push_left c none = none
push_left c (some (s, t)) = some (c ∷ s, t)

-- `split_once`, at the first occurrence.
unfoldable pub split_once : ℕ → Text → Option (Text × Text)
split_once sep [] = none
split_once sep (c ∷ t) =
    let rest = push_left c (split_once sep t) in if c == sep then some ([], t) else rest
