-- ===== src/Number.antt =====
-- Decimal numbers as the standard library prints them (`to_string`) and reads them
-- (`str::parse`, the trait `FromStr`), on bytes. src/parser.rs and src/resp.rs go through these.
pub mod RoundTrip
use rust_redis.Prelude.{
  ℕ, zero, suc, ◌+◌, ◌-◌, ◌*◌, ◌/◌, ◌%◌, ◌≡◌, refl, Bool, true, false, ◌&&◌, Option, none, some,
  List, [], ◌∷◌, ◌++◌, Bytes, codes, ltb, leb, ◌==◌, if◌then◌else◌, u64_mod, i64_half,
}
use rust_redis.Prelude.Int.{ℤ, pos, negsuc}

-- `u8::is_ascii_digit`
abbrev pub is_digit : ℕ → Bool
is_digit c = leb b'0' c && leb c b'9'

-- Printing with fuel: `n` needs at most `n + 1` digits, and a call is made for each digit only.
unfoldable pub print_digits : ℕ → ℕ → Bytes
print_digits zero n = []
print_digits (suc f) n = elim (ltb n 10) [
  | true ↦ (b'0' + n) ∷ []
  | false ↦ print_digits f (n / 10) ++ (b'0' + n % 10) ∷ []
]

-- `n.to_string().as_bytes()` of an unsigned number
unfoldable pub decimal : ℕ → Bytes
unfolding print_digits
decimal n = print_digits (suc n) n

-- `i.to_string().as_bytes()` of an `i64`
unfoldable pub decimal_i64 : ℤ → Bytes
unfolding decimal
decimal_i64 (pos n) = decimal n
decimal_i64 (negsuc n) = b'-' ∷ decimal (suc n)

unfoldable pub digits_value : Bytes → ℕ → Option ℕ
digits_value [] acc = some acc
digits_value (c ∷ s) acc =
    let rest = digits_value s (acc * 10 + (c - b'0')) in if is_digit c then rest else none

-- At least one digit, and nothing else.
unfoldable pub magnitude : Bytes → Option ℕ
unfolding digits_value
magnitude [] = none
magnitude (c ∷ s) = digits_value (c ∷ s) 0

abbrev below : ℕ → Option ℕ → Option ℕ
below bound none = none
below bound (some n) = if ltb n bound then some n else none

abbrev map_int : (ℕ → ℤ) → Option ℕ → Option ℤ
map_int f none = none
map_int f (some n) = some (f n)

abbrev negated : ℕ → ℤ
negated zero = pos 0
negated (suc n) = negsuc n

-- `s.parse::<u64>()`, also `usize`; other widths by their own bound. A leading `+` is accepted, a
-- leading `-` is not a digit.
unfoldable pub parse_unsigned : ℕ → Bytes → Option ℕ
unfolding magnitude
parse_unsigned bound [] = none
parse_unsigned bound (c ∷ s) =
    if c == b'+' then below bound (magnitude s) else below bound (magnitude (c ∷ s))

abbrev pub parse_u64 : Bytes → Option ℕ
parse_u64 = parse_unsigned u64_mod

-- A signed number whose type holds the values from `- half` to `half - 1`.
unfoldable pub parse_signed : ℕ → Bytes → Option ℤ
unfolding magnitude
parse_signed half [] = none
parse_signed half (c ∷ s) =
    if c == b'-'
    then map_int negated (below (half + 1) (magnitude s))
    else if c == b'+'
    then map_int pos (below half (magnitude s))
    else map_int pos (below half (magnitude (c ∷ s)))

abbrev pub parse_i64 : Bytes → Option ℤ
parse_i64 = parse_signed i64_half

decimal_runs : decimal 18446744073709551615 ≡ codes "18446744073709551615"
unfolding decimal
decimal_runs = refl

overflow : parse_u64 (codes "18446744073709551616") ≡ none
unfolding parse_unsigned
overflow = refl

lowest : parse_i64 (codes "-9223372036854775808") ≡ some (negsuc 9223372036854775807)
unfolding parse_signed
lowest = refl
