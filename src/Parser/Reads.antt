-- ===== src/Parser/Reads.antt =====
-- What the parsers of src/parser.rs read off an input that begins with a given text.
use rust_redis.Prelude
use rust_redis.Prelude.{
  ℕ, zero, suc, ◌+◌, ◌-◌, ◌<◌, ◌≤◌, ◌≡◌, ◌≢◌, refl, sym, ap, ◌∙◌, inl, inr, Bool, true, false,
  Option, none, some, List, [], ◌∷◌, ◌++◌, append_assoc, append-nil, arith, Bytes, crlf, ltb, leb,
  ◌==◌, if◌then◌else◌, le→not_ltb, ==-refl, ne→not_==, length, drop, All, length-append,
  take-length_append, drop-length_append, u64_mod, i64_half,
}
use rust_redis.Prelude.Int.{ℤ, pos, negsuc}
use rust_redis.Number.{is_digit, decimal, decimal_i64, parse_u64, parse_i64, magnitude}
use rust_redis.Number.RoundTrip.{
  IsDigit, All-decimal, magnitude-decimal, parse_unsigned-decimal, parse_signed-decimal_i64,
  InRange,
}
use rust_redis.Parser.{ok, err, Parser, no_tag}
use rust_redis.Parser.Slices.{
  starts_with, split_at, byte, tag, take as read_bytes, count_while, take_while, until_from,
  take_until,
}
use rust_redis.Parser.Combinators.{and2, opt, recognize}
use rust_redis.Parser.Numeric.{digits, sign, number, integer, integer_u64, integer_i64}

pub length_bytes : (xs ys : Bytes) → length (xs ++ ys) ≡ length xs + length ys
length_bytes = length-append

pub ruleset lengths = (arith, length_bytes)

split_at-append : (s t : Bytes) → split_at (length s) (s ++ t) ≡ (s, t)
split_at-append s t = λ i. (take-length_append s t i, drop-length_append s t i)

pub starts_with-append : (s t : Bytes) → starts_with s (s ++ t) ≡ true
unfolding starts_with
starts_with-append [] t = refl
starts_with-append (c ∷ s) t = rw (==-refl c) (starts_with-append s t)

pub tag-append : (s t : Bytes) → tag s (s ++ t) ≡ ok (s, t)
unfolding tag
tag-append s t = rw (starts_with-append s t) (ap ok (split_at-append s t))

pub tag-other : (s t : Bytes) → starts_with s t ≡ false → tag s t ≡ err (no_tag s)
unfolding tag
tag-other s t e = rw e

pub take-append : (s t : Bytes) → read_bytes (length s) (s ++ t) ≡ ok (s, t)
unfolding read_bytes
take-append s t =
    rw (le→not_ltb (length (s ++ t)) (length s) (omega lengths)) (ap ok (split_at-append s t))

-- No line break stands in the text.
abbrev pub IsLine : Bytes → Type 0
IsLine [] = Unit
IsLine (c ∷ s) = (starts_with crlf (c ∷ s) ≡ false) × IsLine s

starts_with-crlf_append :
    (c : ℕ) (s t : Bytes)
    → starts_with crlf (c ∷ s) ≡ false
    → starts_with crlf (c ∷ (s ++ (crlf ++ t))) ≡ false
unfolding starts_with
starts_with-crlf_append c [] t e = ground arith
starts_with-crlf_append c (d ∷ s) t e = e

until_from-found :
    (rounds : ℕ) (d : Bytes) (i : ℕ) (input : Bytes)
    → starts_with d (drop i input) ≡ true
    → until_from (suc rounds) d i input ≡ ok (split_at i input)
unfolding until_from
until_from-found rounds d i input e = rw (e, until_from)

until_from-next :
    (rounds : ℕ) (d : Bytes) (i : ℕ) (input : Bytes)
    → starts_with d (drop i input) ≡ false
    → until_from (suc rounds) d i input ≡ until_from rounds d (i + 1) input
unfolding until_from
until_from-next rounds d i input e = rw (e, until_from)

length-snoc : (s : Bytes) (c : ℕ) → length (s ++ c ∷ []) ≡ length s + 1
length-snoc s c = omega lengths

until_from-line :
    (rounds : ℕ) (pre s t : Bytes)
    → length s < rounds
    → IsLine s
    → until_from rounds crlf (length pre) (pre ++ (s ++ (crlf ++ t))) ≡ ok (pre ++ s, crlf ++ t)
until_from-line zero pre s t h l = elim h [ ]
until_from-line (suc rounds) pre [] t h l =
    until_from-found rounds crlf (length pre) (pre ++ (crlf ++ t))
      (rw (drop-length_append pre (crlf ++ t)) (starts_with-append crlf t))
    ∙ ap ok (split_at-append pre (crlf ++ t))
    ∙ ap (λ (x : Bytes). ok (x, crlf ++ t)) (sym (append-nil pre))
until_from-line (suc rounds) pre (c ∷ s) t h l =
    until_from-next rounds crlf (length pre) (pre ++ (c ∷ (s ++ (crlf ++ t))))
      (rw (drop-length_append pre (c ∷ (s ++ (crlf ++ t)))) (starts_with-crlf_append c s t l.0))
    ∙ (rw
        (
          length-snoc pre c,
          append_assoc pre (c ∷ []) (s ++ (crlf ++ t)),
          append_assoc pre (c ∷ []) s,
        )
        at (until_from-line rounds (pre ++ c ∷ []) s t (omega arith) l.1))

-- A line is read up to its end.
pub take_until-line :
    (s t : Bytes) → IsLine s → take_until crlf (s ++ (crlf ++ t)) ≡ ok (s, crlf ++ t)
unfolding take_until
take_until-line s t l =
    rw (le→not_ltb (length (s ++ (crlf ++ t))) 2 (omega lengths))
      (until_from-line (length (s ++ (crlf ++ t)) - 2 + 1) [] s t (omega lengths) l)

-- The input does not go on with a digit.
abbrev pub EndsNumber : Bytes → Type 0
EndsNumber [] = Unit
EndsNumber (c ∷ t) = is_digit c ≡ false

count_while-digits :
    (s t : Bytes) → All IsDigit s → EndsNumber t → count_while is_digit (s ++ t) ≡ length s
unfolding count_while
count_while-digits [] [] a e = refl
count_while-digits [] (c ∷ t) a e = rw e
count_while-digits (d ∷ s) t a e = rw a.0 (ap suc (count_while-digits s t a.1 e))

recognize-append {ℓ} :
    {A : Type ℓ} (p : Parser A) (s t : Bytes) (a : A)
    → p (s ++ t) ≡ ok (a, t)
    → recognize p (s ++ t) ≡ ok (s, t)
unfolding recognize
recognize-append p s t a e =
    rw (e, length_bytes s t)
      (ap (λ (x : Bytes). ok (x, t))
        (rw (let k : length s + length t - length t ≡ length s = omega arith in k)
          (take-length_append s t)))

take_while-digits :
    (s t : Bytes) → s ≢ [] → All IsDigit s → EndsNumber t → take_while is_digit (s ++ t) ≡ ok (s, t)
unfolding take_while
take_while-digits [] t n a e = absurd (n refl)
take_while-digits (c ∷ s) t n a e =
    rw (count_while-digits (c ∷ s) t a e, ne→not_== (suc (length s)) 0 (omega arith))
      (ap ok (split_at-append (c ∷ s) t))

digits-append : (s t : Bytes) → s ≢ [] → All IsDigit s → EndsNumber t → digits (s ++ t) ≡ ok (s, t)
unfolding digits
digits-append s t n a e = recognize-append (take_while is_digit) s t s (take_while-digits s t n a e)

opt-sign-digit : (c : ℕ) (s : Bytes) → IsDigit c → opt sign (c ∷ s) ≡ ok (none, c ∷ s)
unfolding opt sign
opt-sign-digit c s d =
    rw (ne→not_== c b'-' (λ e. cc (ap is_digit e)), ne→not_== c b'+' (λ e. cc (ap is_digit e)))

pub byte-same : (c : ℕ) (s : Bytes) → byte c (c ∷ s) ≡ ok (c, s)
unfolding byte
byte-same c s = rw (==-refl c)

suc-sub_self : (n : ℕ) → suc n - n ≡ 1
suc-sub_self n = omega arith

opt-sign-minus : (s : Bytes) → opt sign (b'-' ∷ s) ≡ ok (some (b'-' ∷ []), s)
unfolding opt sign
opt-sign-minus s = rw (suc-sub_self (length s))

number-unsigned :
    (s t : Bytes) → s ≢ [] → All IsDigit s → EndsNumber t → number (s ++ t) ≡ ok (s, t)
unfolding number
number-unsigned [] t n a e = absurd (n refl)
number-unsigned (c ∷ s) t n a e =
    recognize-append (and2 (opt sign) digits) (c ∷ s) t (none, c ∷ s)
      (rw (opt-sign-digit c (s ++ t) a.0, digits-append (c ∷ s) t n a e))

minus_digits :
    (s t : Bytes)
    → s ≢ []
    → All IsDigit s
    → EndsNumber t
    → and2 (opt sign) digits (b'-' ∷ (s ++ t)) ≡ ok ((some (b'-' ∷ []), s), t)
minus_digits s t n a e = rw (opt-sign-minus (s ++ t), digits-append s t n a e)

number-negative :
    (s t : Bytes)
    → s ≢ []
    → All IsDigit s
    → EndsNumber t
    → number (b'-' ∷ (s ++ t)) ≡ ok (b'-' ∷ s, t)
unfolding number
number-negative s t n a e =
    recognize-append (and2 (opt sign) digits) (b'-' ∷ s) t (some (b'-' ∷ []), s)
      (minus_digits s t n a e)

integer-number {ℓ} :
    {T : Type ℓ} (from_str : Bytes → Option T) (input s t : Bytes) (v : T)
    → number input ≡ ok (s, t)
    → from_str s ≡ some v
    → integer from_str input ≡ ok (v, t)
unfolding integer
integer-number from_str input s t v e f = rw (e, f)

pub decimal-ne-nil : (n : ℕ) → decimal n ≢ []
decimal-ne-nil n e =
    let none_read : none ≡ some n =
      unfold magnitude in (ap magnitude (sym e) ∙ magnitude-decimal n) in
    cc

-- A printed number is read back where the input does not go on with a digit.
pub integer_u64-decimal :
    (n : ℕ) (t : Bytes) → n < u64_mod → EndsNumber t → integer_u64 (decimal n ++ t) ≡ ok (n, t)
integer_u64-decimal n t h e =
    integer-number parse_u64 (decimal n ++ t) (decimal n) t n
      (number-unsigned (decimal n) t (decimal-ne-nil n) (All-decimal n) e)
      (parse_unsigned-decimal u64_mod n h)

number-decimal_i64 :
    (i : ℤ) (t : Bytes) → EndsNumber t → number (decimal_i64 i ++ t) ≡ ok (decimal_i64 i, t)
unfolding decimal_i64
number-decimal_i64 (pos n) t e = number-unsigned (decimal n) t (decimal-ne-nil n) (All-decimal n) e
number-decimal_i64 (negsuc n) t e =
    number-negative (decimal (suc n)) t (decimal-ne-nil (suc n)) (All-decimal (suc n)) e

pub integer_i64-decimal_i64 :
    (i : ℤ) (t : Bytes)
    → InRange i64_half i
    → EndsNumber t
    → integer_i64 (decimal_i64 i ++ t) ≡ ok (i, t)
integer_i64-decimal_i64 i t h e =
    integer-number parse_i64 (decimal_i64 i ++ t) (decimal_i64 i) t i (number-decimal_i64 i t e)
      (parse_signed-decimal_i64 i64_half i h)
