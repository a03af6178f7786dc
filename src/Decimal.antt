-- ===== src/Decimal.antt =====
-- Rust's decimal `Display` and `FromStr` for unsigned integers, as texts of code points.
pub mod RoundTrip
use andler.Base.{
  ℕ, zero, suc, ◌+◌, ◌-◌, ◌*◌, ◌/◌, ◌%◌, Bool, true, false, ◌&&◌, Option, none, some, List, [], ◌∷◌,
  ◌++◌, Text, leb, ltb, ◌==◌, if◌then◌else◌,
}

abbrev pub is_digit : ℕ → Bool
is_digit c = leb b'0' c && leb c b'9'

-- The digits by division; the fuel is one more than the number, so it is never used up.
unfoldable pub to_text_fuel : ℕ → ℕ → Text
to_text_fuel zero n = []
to_text_fuel (suc fuel) n =
    let rest = to_text_fuel fuel (n / 10) ++ (n % 10 + b'0') ∷ [] in
    if ltb n 10 then (n + b'0') ∷ [] else rest

unfoldable pub to_text : ℕ → Text
unfolding to_text_fuel
to_text n = to_text_fuel (suc n) n

-- The digits read so far make `acc`; a step past `max` is an overflow.
unfoldable pub parse_digits : ℕ → ℕ → Text → Option ℕ
parse_digits max acc [] = some acc
parse_digits max acc (c ∷ rest) =
    let next = acc * 10 + (c - b'0') in
    let more = parse_digits max next rest in
    if is_digit c then (if leb next max then more else none) else none

-- `str::parse` at a type whose largest value is `max`: one leading `+` may stand before a digit.
unfoldable pub parse_uint : ℕ → Text → Option ℕ
unfolding parse_digits
parse_uint max [] = none
parse_uint max (c ∷ []) = parse_digits max 0 (c ∷ [])
parse_uint max (c ∷ d ∷ rest) =
    if c == b'+' then parse_digits max 0 (d ∷ rest) else parse_digits max 0 (c ∷ d ∷ rest)

abbrev pub u16_max : ℕ
u16_max = 65535

abbrev pub u32_max : ℕ
u32_max = 4294967295

abbrev pub u64_max : ℕ
u64_max = 18446744073709551615
