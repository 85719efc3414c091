-- ===== src/Parser/Slices.antt =====
-- src/parser.rs: the parsers that read bytes.
use rust_redis.Prelude
use rust_redis.Prelude.{
  ℕ, zero, suc, ◌+◌, ◌-◌, ◌≡◌, refl, Bool, true, false, ◌&&◌, List, [], ◌∷◌, Bytes, ltb, leb, ◌==◌,
  if◌then◌else◌, length, drop,
}
use rust_redis.Parser.{ok, err, panic, Parser, no_byte, no_tag, too_few, no_match, no_delimiter}

-- `[u8]::starts_with(expected)`, the expected bytes first.
unfoldable pub starts_with : Bytes → Bytes → Bool
starts_with [] input = true
starts_with (x ∷ xs) [] = false
starts_with (x ∷ xs) (c ∷ input) = c == x && starts_with xs input

-- `input.split_at(n)` within bounds.
abbrev pub split_at : ℕ → Bytes → Bytes × Bytes
split_at n input = (Prelude.take n input, drop n input)

unfoldable pub byte : ℕ → Parser ℕ
byte b [] = err (no_byte b)
byte b (c ∷ rest) = if c == b then ok (b, rest) else err (no_byte b)

unfoldable pub tag : Bytes → Parser Bytes
unfolding starts_with
tag expected input =
    if starts_with expected input
    then ok (split_at (length expected) input)
    else err (no_tag expected)

-- `u8::to_ascii_lowercase`
abbrev to_ascii_lowercase : ℕ → ℕ
to_ascii_lowercase c = if leb b'A' c && leb c b'Z' then c + 32 else c

-- `[u8]::eq_ignore_ascii_case`
unfoldable pub eq_ignore_ascii_case : Bytes → Bytes → Bool
eq_ignore_ascii_case [] [] = true
eq_ignore_ascii_case [] (d ∷ t) = false
eq_ignore_ascii_case (c ∷ s) [] = false
eq_ignore_ascii_case (c ∷ s) (d ∷ t) =
    to_ascii_lowercase c == to_ascii_lowercase d && eq_ignore_ascii_case s t

unfoldable pub tag_no_case : Bytes → Parser Bytes
unfolding eq_ignore_ascii_case
tag_no_case expected input =
    let n = length expected in
    if leb n (length input) && eq_ignore_ascii_case (Prelude.take n input) expected
    then ok (split_at n input)
    else err (no_tag expected)

unfoldable pub take : ℕ → Parser Bytes
take n input =
    if ltb (length input) n then err (too_few n (length input)) else ok (split_at n input)

-- `input.iter().take_while(pred).count()`
unfoldable pub count_while : (ℕ → Bool) → Bytes → ℕ
count_while pred [] = 0
count_while pred (c ∷ s) = if pred c then suc (count_while pred s) else 0

unfoldable pub take_while : (ℕ → Bool) → Parser Bytes
unfolding count_while
take_while pred input =
    let n = count_while pred input in if n == 0 then err no_match else ok (split_at n input)

-- The loop of `take_until` from index `i`, with the rounds that are left.
unfoldable pub until_from : ℕ → Bytes → ℕ → Parser Bytes
until_from zero delimiter i input = err (no_delimiter delimiter)
until_from (suc rounds) delimiter i input = elim (starts_with delimiter (drop i input)) [
  | true ↦ ok (split_at i input)
  | false ↦ until_from rounds delimiter (i + 1) input
]

-- `input.len() - delimiter.len()` underflows on a shorter input: a panic with overflow checks, and
-- without them one at the first index past the end.
unfoldable pub take_until : Bytes → Parser Bytes
unfolding until_from
take_until delimiter input =
    if ltb (length input) (length delimiter)
    then panic
    else until_from (length input - length delimiter + 1) delimiter 0 input
