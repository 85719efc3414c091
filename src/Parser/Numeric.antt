-- ===== src/Parser/Numeric.antt =====
-- src/parser.rs: `integer`, generic in the number that `FromStr` reads. The bytes recognised are
-- ASCII, so `from_utf8(bytes).unwrap()` returns.
use rust_redis.Prelude.{ℕ, Option, none, some, Bytes}
use rust_redis.Prelude.Int.{ℤ}
use rust_redis.Number.{is_digit, parse_u64, parse_i64}
use rust_redis.Parser.{Outcome, ok, err, Parser, not_a_number, ◌>>=◌}
use rust_redis.Parser.Slices.{byte, take_while}
use rust_redis.Parser.Combinators.{and2, or2, opt, recognize}

unfoldable pub digits : Parser Bytes
unfolding take_while recognize
digits = recognize (take_while is_digit)

unfoldable pub sign : Parser Bytes
unfolding byte recognize
sign = recognize (or2 (byte b'-') (byte b'+'))

unfoldable pub number : Parser Bytes
unfolding opt digits sign
number = recognize (and2 (opt sign) digits)

abbrev pub parsed {ℓ} : {T : Type ℓ} → Bytes → Option T → Outcome T
parsed string (some v) = ok v
parsed string none = err (not_a_number string)

unfoldable pub integer {ℓ} : {T : Type ℓ} → (Bytes → Option T) → Parser T
unfolding number
integer from_str input = do
  (bytes, rest) ← number input
  n ← parsed bytes (from_str bytes)
  ok (n, rest)

abbrev pub integer_u64 : Parser ℕ
integer_u64 = integer parse_u64

abbrev pub integer_i64 : Parser ℤ
integer_i64 = integer parse_i64
