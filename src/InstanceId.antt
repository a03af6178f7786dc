-- ===== src/InstanceId.antt =====
-- core/andler-core/src/config/instance.rs: `InstanceId` as hex text, by `Display` and `FromStr`.
-- An id is the list of its 32 bytes.
pub mod RoundTrip
use andler.Base.{
  ℕ, ◌+◌, ◌-◌, ◌*◌, ◌/◌, ◌%◌, Bool, true, false, ◌&&◌, Option, none, some, List, [], ◌∷◌, ◌++◌,
  Text, leb, ltb, ◌==◌, if◌then◌else◌, length,
}
use andler.Config.{InstanceId}

abbrev pub instance_id_hex_len : ℕ
instance_id_hex_len = 64

-- A digit of `{:02x}`.
unfoldable pub hex_digit : ℕ → ℕ
hex_digit n = if ltb n 10 then n + b'0' else n - 10 + b'a'

unfoldable pub fmt : InstanceId → Text
unfolding hex_digit
fmt [] = []
fmt (b ∷ bytes) = hex_digit (b / 16) ∷ hex_digit (b % 16) ∷ fmt bytes

-- `char::to_digit(16)`, which takes both cases.
unfoldable pub to_digit : ℕ → Option ℕ
to_digit c =
    if leb b'0' c && leb c b'9'
    then some (c - b'0')
    else if leb b'a' c && leb c b'f'
    then some (c - b'a' + 10)
    else if leb b'A' c && leb c b'F'
    then some (c - b'A' + 10)
    else none

abbrev pair_byte : Option ℕ → Option ℕ → Option ℕ
pair_byte none lo = none
pair_byte (some hi) none = none
pair_byte (some hi) (some lo) = some (hi * 16 + lo)

abbrev push_byte : Option ℕ → Option (List ℕ) → Option (List ℕ)
push_byte none rest = none
push_byte (some b) none = none
push_byte (some b) (some bytes) = some (b ∷ bytes)

-- The loop over `chunks_exact(2)`; `(hi << 4) | lo` of two digits is hi * 16 + lo.
unfoldable pub parse_pairs : Text → Option (List ℕ)
unfolding to_digit
parse_pairs [] = some []
parse_pairs (c ∷ []) = some []
parse_pairs (hi ∷ lo ∷ rest) = push_byte (pair_byte (to_digit hi) (to_digit lo)) (parse_pairs rest)

-- `none` is `InvalidInstanceId`. The text is taken by its bytes.
unfoldable pub from_str : Text → Option InstanceId
unfolding parse_pairs
from_str s = if length s == instance_id_hex_len then parse_pairs s else none
