-- ===== src/Parser/LengthEncoded.antt =====
-- src/parser.rs: the length-encoded numbers and strings of the RDB format. On a byte `first`,
-- `(first & 0b1100_0000) >> 6` is `first / 64` and `first & 0b0011_1111` is `first % 64`; the
-- operands of `|` have no bit in common, so it is `+`.
use rust_redis.Prelude
use rust_redis.Prelude.{
  ℕ, ◌+◌, ◌*◌, ◌/◌, ◌%◌, ◌^◌, Bool, List, [], ◌∷◌, Bytes, leb, ◌==◌, if◌then◌else◌, length, drop,
}
use rust_redis.Utf8.{is_utf8}
use rust_redis.Parser.{Outcome, ok, err, panic, Parser, unknown_prefix, ◌>>=◌}

unfoldable pub le_integer2 : ℕ → Parser ℕ
le_integer2 first [] = panic
le_integer2 first (b ∷ rest) = ok (first % 64 * 256 + b, rest)

unfoldable pub le_integer4 : Parser ℕ
le_integer4 (a ∷ b ∷ c ∷ d ∷ rest) = ok (a * 2 ^ 24 + b * 2 ^ 16 + c * 256 + d, rest)
le_integer4 _ = panic

unfoldable pub le_integer : Parser ℕ
unfolding le_integer2 le_integer4
le_integer [] = panic
le_integer (first ∷ rest) =
    if first / 64 == 0
    then ok (first % 64, rest)
    else if first / 64 == 1
    then le_integer2 first rest
    else if first / 64 == 2
    then le_integer4 rest
    else err (unknown_prefix first)

-- `assert!(input.len() >= end)`, then `input[start..end]` and `&input[end..]`; here `rest` is
-- `&input[start..]`.
unfoldable pub section : ℕ → Parser Bytes
section n rest = if leb n (length rest) then ok (Prelude.take n rest, drop n rest) else panic

-- `vec![input[2], input[1]]` and the like: an integer is returned as its bytes, the last one first.
unfoldable pub le_special1 : Parser Bytes
le_special1 (a ∷ rest) = ok (a ∷ [], rest)
le_special1 _ = panic

unfoldable pub le_special2 : Parser Bytes
le_special2 (a ∷ b ∷ rest) = ok (b ∷ a ∷ [], rest)
le_special2 _ = panic

unfoldable pub le_special4 : Parser Bytes
le_special4 (a ∷ b ∷ c ∷ d ∷ rest) = ok (d ∷ c ∷ b ∷ a ∷ [], rest)
le_special4 _ = panic

unfoldable pub le_special : ℕ → Parser Bytes
unfolding le_special1 le_special2 le_special4
le_special first rest =
    if first == 0xc0
    then le_special1 rest
    else if first == 0xc1
    then le_special2 rest
    else if first == 0xc2
    then le_special4 rest
    else err (unknown_prefix first)

unfoldable pub le_bytes : Parser Bytes
unfolding section le_integer2 le_integer4 le_special
le_bytes [] = panic
le_bytes (first ∷ rest) =
    if first / 64 == 0
    then section (first % 64) rest
    else if first / 64 == 1
    then (do (length, rest') ← le_integer2 first rest; section length rest')
    else if first / 64 == 2
    then (do (length, rest') ← le_integer4 rest; section length rest')
    else le_special first rest

-- `String::from_utf8(…).unwrap()`
abbrev utf8_or_panic : Bytes × Bytes → Outcome (Bytes × Bytes)
utf8_or_panic (s, rest) = if is_utf8 s then ok (s, rest) else panic

-- The source repeats the branches of `le_bytes`, each with the conversion at its end.
unfoldable pub le_string : Parser Bytes
unfolding le_bytes is_utf8
le_string input = le_bytes input >>= utf8_or_panic
