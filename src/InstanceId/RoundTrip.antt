-- ===== src/InstanceId/RoundTrip.antt =====
-- An instance id is read back from its hex text, and hex text is read as it is written.
use andler.Base.{ℕ, ◌*◌, ◌/◌, ◌%◌, ◌<◌, ◌≡◌, refl, ap, some, [], ◌∷◌, length, arith, All}
use andler.Config.{InstanceId}
use andler.InstanceId.{hex_digit, fmt, to_digit, parse_pairs, from_str, instance_id_hex_len}

-- An id that the program can hold: 32 bytes.
pub record IsId (id : InstanceId) : Type 0 where
  pub bytes : All (λ b. b < 256) id
  pub count : length id ≡ 32

to_digit-hex_digit : (n : ℕ) → n < 16 → to_digit (hex_digit n) ≡ some n
unfolding to_digit hex_digit
to_digit-hex_digit n h = ground arith

parse_pairs-fmt : (id : InstanceId) → All (λ b. b < 256) id → parse_pairs (fmt id) ≡ some id
unfolding parse_pairs fmt
parse_pairs-fmt [] h = refl
parse_pairs-fmt (b ∷ bytes) h =
    rw
      (
        to_digit-hex_digit (b / 16) (omega arith),
        to_digit-hex_digit (b % 16) (omega arith),
        parse_pairs-fmt bytes h.1,
      )
      (ap (λ x. some (x ∷ bytes)) (omega arith))

pub length-fmt : (id : InstanceId) → length (fmt id) ≡ 2 * length id
unfolding fmt
length-fmt [] = refl
length-fmt (b ∷ bytes) = omega (arith, length-fmt bytes)

-- Every id is read back from the text that it is shown as, which has 64 characters.
pub from_str-fmt :
    (id : InstanceId)
    → IsId id
    → (from_str (fmt id) ≡ some id) × (length (fmt id) ≡ instance_id_hex_len)
unfolding from_str
from_str-fmt id h =
    let n : length (fmt id) ≡ 64 = omega (arith, length-fmt id, h.count) in
    (rw n (parse_pairs-fmt id h.bytes), n)
