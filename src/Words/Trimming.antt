-- ===== src/Words/Trimming.antt =====
-- What trimming leaves alone, and where a number ends.
use andler.Base.{ℕ, ◌≡◌, refl, ap, ◌∙◌, true, false, [], ◌∷◌, ◌++◌, map, Text, arith, is_empty}
use mathlib.Core.List.{append-nil}
use andler.Decimal.{is_digit}
use andler.Decimal.RoundTrip.{AreDigits, StartsWithDigit}
use andler.Words.{
  is_whitespace, trim_start, trim_end, trim, upper, to_uppercase, remove_char, digits_of,
  after_digits,
}

digit-not-whitespace : (c : ℕ) → is_digit c ≡ true → is_whitespace c ≡ false
unfolding is_whitespace
digit-not-whitespace c h = ground arith

trim_start-StartsWithDigit : (t : Text) → StartsWithDigit t → trim_start t ≡ t
unfolding trim_start
trim_start-StartsWithDigit [] h = absurd h
trim_start-StartsWithDigit (c ∷ t) h = rw (digit-not-whitespace c h)

is_empty-append : (s t : Text) → is_empty t ≡ false → is_empty (s ++ t) ≡ false
is_empty-append [] t h = h
is_empty-append (c ∷ s) t h = refl

-- Only whitespace at the very end is removed.
trim_end-append : (s t : Text) → is_empty (trim_end t) ≡ false → trim_end (s ++ t) ≡ s ++ trim_end t
unfolding trim_end
trim_end-append [] t h = refl
trim_end-append (c ∷ s) t h =
    rw (trim_end-append s t h) (ground (arith, is_empty-append s (trim_end t) h))

digits_of-append : (s t : Text) → AreDigits s → digits_of (s ++ t) ≡ s ++ digits_of t
unfolding digits_of
digits_of-append [] t h = refl
digits_of-append (c ∷ s) t h = rw (h.0, digits_of-append s t h.1)

after_digits-append : (s t : Text) → AreDigits s → after_digits (s ++ t) ≡ after_digits t
unfolding after_digits
after_digits-append [] t h = refl
after_digits-append (c ∷ s) t h = rw (h.0, after_digits-append s t h.1)

upper-digit : (c : ℕ) → is_digit c ≡ true → upper c ≡ c
unfolding upper
upper-digit c h = ground arith

clean-digits :
    (s t : Text)
    → AreDigits s
    → remove_char 32 (map upper (s ++ t)) ≡ s ++ remove_char 32 (map upper t)
clean-digits [] t h = refl
clean-digits (c ∷ s) t h = rw (upper-digit c h.0) (ground (arith, clean-digits s t h.1))

StartsWithDigit-append : (s t : Text) → StartsWithDigit s → StartsWithDigit (s ++ t)
StartsWithDigit-append [] t h = absurd h
StartsWithDigit-append (c ∷ s) t h = h

-- The cleaning of a number with something after it that is not all whitespace.
pub clean_number :
    (s t : Text)
    → AreDigits s
    → StartsWithDigit s
    → is_empty (trim_end t) ≡ false
    → remove_char 32 (to_uppercase (trim (s ++ t)))
      ≡ s ++ remove_char 32 (to_uppercase (trim_end t))
unfolding trim to_uppercase
clean_number s t digits start rest =
    rw
      (
        trim_start-StartsWithDigit (s ++ t) (StartsWithDigit-append s t start),
        trim_end-append s t rest,
      )
      (clean-digits s (trim_end t) digits)

-- A number before text that does not begin with a digit is split off exactly.
pub split_number :
    (s t : Text)
    → AreDigits s
    → digits_of t ≡ []
    → (digits_of (s ++ t) ≡ s) × (after_digits (s ++ t) ≡ after_digits t)
split_number s t digits none_left = (
  digits_of-append s t digits ∙ ap (λ r. s ++ r) none_left ∙ append-nil s,
  after_digits-append s t digits,
)
