-- ===== src/Decimal/RoundTrip.antt =====
-- A number is read back from its decimal text.
use andler.Base.{
  ℕ, zero, suc, ◌+◌, ◌-◌, ◌*◌, ◌/◌, ◌%◌, ◌≤◌, ◌<◌, ◌≡◌, refl, ap, ◌∙◌, true, Option, none, some, [],
  ◌∷◌, ◌++◌, Text, ltb, Bool-cases, arith, inl, inr, All, All-append,
}
use andler.Decimal.{is_digit, to_text_fuel, to_text, parse_digits, parse_uint}

abbrev pub AreDigits : Text → Type 0
AreDigits = All (λ c. is_digit c ≡ true)

abbrev and_then : Option ℕ → (ℕ → Option ℕ) → Option ℕ
and_then none f = none
and_then (some n) f = f n

parse_digits-append :
    (max acc : ℕ) (s t : Text)
    → parse_digits max acc (s ++ t) ≡ and_then (parse_digits max acc s) (λ n. parse_digits max n t)
unfolding parse_digits
parse_digits-append max acc [] t = refl
parse_digits-append max acc (c ∷ s) t =
    ground (arith, parse_digits-append max (acc * 10 + (c - b'0')) s t)

to_text_fuel-AreDigits : (fuel n : ℕ) → AreDigits (to_text_fuel fuel n)
unfolding to_text_fuel
to_text_fuel-AreDigits zero n = tt
to_text_fuel-AreDigits (suc fuel) n = elim (Bool-cases (ltb n 10)) [
  | inl small ↦ rw small (ground arith, tt)
  | inr large ↦ rw large (
      All-append (λ c. is_digit c ≡ true) (to_text_fuel fuel (n / 10)) ((n % 10 + b'0') ∷ [])
        (to_text_fuel-AreDigits fuel (n / 10)) (ground arith, tt))
]

-- One more digit.
parse_digits_one :
    (max acc d : ℕ)
    → d < 10
    → acc * 10 + d ≤ max
    → parse_digits max acc ((d + b'0') ∷ []) ≡ some (acc * 10 + d)
unfolding parse_digits
parse_digits_one max acc d small fits =
    let e : d + b'0' - b'0' ≡ d = omega arith in rw e (ground arith)

parse-to_text_fuel :
    (max fuel n : ℕ) → n < fuel → n ≤ max → parse_digits max 0 (to_text_fuel fuel n) ≡ some n
unfolding to_text_fuel
parse-to_text_fuel max zero n h le = elim h [ ]
parse-to_text_fuel max (suc fuel) n h le = elim (Bool-cases (ltb n 10)) [
  | inl small ↦
      rw small (parse_digits_one max 0 n (ground arith) (omega arith) ∙ ap some (omega arith))
  | inr large ↦
      let ten : 10 ≤ n = ground arith in
      rw large (
        parse_digits-append max 0 (to_text_fuel fuel (n / 10)) ((n % 10 + b'0') ∷ [])
        ∙ rw (parse-to_text_fuel max fuel (n / 10) (omega arith) (omega arith)) (
            parse_digits_one max (n / 10) (n % 10) (omega arith) (omega arith)
            ∙ ap some (omega arith)))
]

-- Text that begins with a digit is parsed as digits.
abbrev pub StartsWithDigit : Text → Type 0
StartsWithDigit [] = ⊥
StartsWithDigit (c ∷ t) = is_digit c ≡ true

StartsWithDigit-append : (s t : Text) → StartsWithDigit s → StartsWithDigit (s ++ t)
StartsWithDigit-append [] t h = absurd h
StartsWithDigit-append (c ∷ s) t h = h

to_text_fuel-StartsWithDigit : (fuel n : ℕ) → n < fuel → StartsWithDigit (to_text_fuel fuel n)
unfolding to_text_fuel
to_text_fuel-StartsWithDigit zero n h = elim h [ ]
to_text_fuel-StartsWithDigit (suc fuel) n h = elim (Bool-cases (ltb n 10)) [
  | inl small ↦ rw small (ground arith)
  | inr large ↦
      let ten : 10 ≤ n = ground arith in
      rw large (
        StartsWithDigit-append (to_text_fuel fuel (n / 10)) ((n % 10 + b'0') ∷ [])
          (to_text_fuel-StartsWithDigit fuel (n / 10) (omega arith)))
]

pub to_text-StartsWithDigit : (n : ℕ) → StartsWithDigit (to_text n)
unfolding to_text
to_text-StartsWithDigit n = to_text_fuel-StartsWithDigit (suc n) n (omega arith)

pub to_text-AreDigits : (n : ℕ) → AreDigits (to_text n)
unfolding to_text
to_text-AreDigits n = to_text_fuel-AreDigits (suc n) n

pub parse_uint_digits :
    (max : ℕ) (t : Text) → StartsWithDigit t → parse_uint max t ≡ parse_digits max 0 t
unfolding parse_uint
parse_uint_digits max [] h = absurd h
parse_uint_digits max (c ∷ []) h = refl
parse_uint_digits max (c ∷ d ∷ rest) h = ground arith

-- Every number that the type holds is read back from its decimal text.
pub parse_uint-to_text : (max n : ℕ) → n ≤ max → parse_uint max (to_text n) ≡ some n
unfolding to_text
parse_uint-to_text max n le =
    parse_uint_digits max (to_text n) (to_text-StartsWithDigit n)
    ∙ parse-to_text_fuel max (suc n) n (omega arith) le
