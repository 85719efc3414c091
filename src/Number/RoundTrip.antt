-- ===== src/Number/RoundTrip.antt =====
-- Decimal numbers: what is printed, and read again.
use native.Mathlib.Decide.{dec_lt}
use rust_redis.Prelude.{
  lt→ltb, le→not_ltb, ℕ, zero, suc, ◌+◌, ◌-◌, ◌*◌, ◌/◌, ◌%◌, ◌<◌, ◌≤◌, ◌≡◌, refl, ap, ◌∙◌, true,
  some, [], ◌∷◌, ◌++◌, arith, Bytes, All, All-append,
}
use rust_redis.Prelude.Int.{ℤ, pos, negsuc}
use rust_redis.Number.{
  is_digit, print_digits, decimal, decimal_i64, digits_value, magnitude, parse_unsigned,
  parse_signed,
}

abbrev pub IsDigit : ℕ → Type 0
IsDigit c = is_digit c ≡ true

digits_value-append :
    (s : Bytes) (c acc n : ℕ)
    → digits_value s acc ≡ some n
    → IsDigit c
    → digits_value (s ++ c ∷ []) acc ≡ some (n * 10 + (c - b'0'))
unfolding digits_value
digits_value-append [] c acc n e d = ground arith
digits_value-append (x ∷ s) c acc n e d =
    ground (arith, digits_value-append s c (acc * 10 + (x - b'0')) n)

IsDigit-low : (n : ℕ) → n < 10 → IsDigit (b'0' + n)
IsDigit-low n h = ground arith

print_digits_last : (f n : ℕ) → n < 10 → print_digits (suc f) n ≡ (b'0' + n) ∷ []
unfolding print_digits
print_digits_last f n h = rw (lt→ltb n 10 h, print_digits)

print_digits_more :
    (f n : ℕ) → 10 ≤ n → print_digits (suc f) n ≡ print_digits f (n / 10) ++ (b'0' + n % 10) ∷ []
unfolding print_digits
print_digits_more f n h = rw (le→not_ltb n 10 h, print_digits)

magnitude-snoc : (s : Bytes) (c : ℕ) → magnitude (s ++ c ∷ []) ≡ digits_value (s ++ c ∷ []) 0
unfolding magnitude
magnitude-snoc [] c = refl
magnitude-snoc (x ∷ s) c = refl

magnitude-digits_value : (s : Bytes) (n : ℕ) → magnitude s ≡ some n → digits_value s 0 ≡ some n
unfolding magnitude
magnitude-digits_value [] n e = cc
magnitude-digits_value (c ∷ s) n e = e

magnitude-print_digits : (f n : ℕ) → n < f → magnitude (print_digits f n) ≡ some n
magnitude-print_digits zero n h = elim h [ ]
magnitude-print_digits (suc f) n h = elim (dec_lt n 10) [
  | yes small ↦ rw (print_digits_last f n small) (unfold magnitude in ground arith)
  | no big ↦ rw (print_digits_more f n (omega arith)) (
      magnitude-snoc (print_digits f (n / 10)) (b'0' + n % 10)
      ∙ digits_value-append (print_digits f (n / 10)) (b'0' + n % 10) 0 (n / 10)
          (magnitude-digits_value (print_digits f (n / 10)) (n / 10)
            (magnitude-print_digits f (n / 10) (omega arith)))
          (IsDigit-low (n % 10) (omega arith))
      ∙ ap some (omega arith))
]

All-print_digits : (f n : ℕ) → All IsDigit (print_digits f n)
All-print_digits zero n = unfold print_digits in tt
All-print_digits (suc f) n = elim (dec_lt n 10) [
  | yes small ↦ rw (print_digits_last f n small) (IsDigit-low n small, tt)
  | no big ↦ rw (print_digits_more f n (omega arith)) (
      All-append IsDigit (print_digits f (n / 10)) ((b'0' + n % 10) ∷ [])
        (All-print_digits f (n / 10)) (IsDigit-low (n % 10) (omega arith), tt))
]

-- Only digits are printed.
pub All-decimal : (n : ℕ) → All IsDigit (decimal n)
unfolding decimal
All-decimal n = All-print_digits (suc n) n

-- And they stand for the number.
pub magnitude-decimal : (n : ℕ) → magnitude (decimal n) ≡ some n
unfolding decimal
magnitude-decimal n = magnitude-print_digits (suc n) n (omega arith)

parse_unsigned-digits :
    (bound : ℕ) (s : Bytes) (n : ℕ)
    → All IsDigit s
    → magnitude s ≡ some n
    → n < bound
    → parse_unsigned bound s ≡ some n
unfolding parse_unsigned
parse_unsigned-digits bound [] n d e h = cc
parse_unsigned-digits bound (c ∷ s) n d e h = ground arith

-- Every number of the type reads back.
pub parse_unsigned-decimal : (bound n : ℕ) → n < bound → parse_unsigned bound (decimal n) ≡ some n
parse_unsigned-decimal bound n h =
    parse_unsigned-digits bound (decimal n) n (All-decimal n) (magnitude-decimal n) h

parse_signed-digits :
    (half : ℕ) (s : Bytes) (n : ℕ)
    → All IsDigit s
    → magnitude s ≡ some n
    → n < half
    → parse_signed half s ≡ some (pos n)
unfolding parse_signed
parse_signed-digits half [] n d e h = cc
parse_signed-digits half (c ∷ s) n d e h = ground arith

-- The values of a signed type whose magnitudes go up to `half`.
abbrev pub InRange : ℕ → ℤ → Type 0
InRange half (pos n) = n < half
InRange half (negsuc n) = n < half

pub parse_signed-decimal_i64 :
    (half : ℕ) (i : ℤ) → InRange half i → parse_signed half (decimal_i64 i) ≡ some i
parse_signed-decimal_i64 half (pos n) h =
    unfold decimal_i64 in
    parse_signed-digits half (decimal n) n (All-decimal n) (magnitude-decimal n) h
parse_signed-decimal_i64 half (negsuc n) h =
    unfold decimal_i64 parse_signed in ground (arith, magnitude-decimal (suc n))
