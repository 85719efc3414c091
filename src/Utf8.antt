-- ===== src/Utf8.antt =====
-- `str::from_utf8` of the standard library: which byte strings are UTF-8 (the table of well-formed
-- sequences in the Unicode standard, which the library documents). Used by src/resp.rs (`get_str`),
-- src/parser.rs (`le_string`) and src/types.rs (`Key::to_str`).
use rust_redis.Prelude.{
  ℕ, zero, suc, ◌≡◌, refl, Bool, true, false, ◌&&◌, Option, none, some, [], ◌∷◌, Bytes, codes, leb,
  le→leb, All, ◌<◌, arith, ◌==◌, if◌then◌else◌,
}

-- How many continuation bytes a first byte announces; `none` for a byte that starts no sequence.
abbrev lead : ℕ → Option ℕ
lead c =
    if leb c 0x7f
    then some 0
    else if leb c 0xc1
    then none
    else if leb c 0xdf
    then some 1
    else if leb c 0xef
    then some 2
    else if leb c 0xf4
    then some 3
    else none

-- The range of the byte that follows a first byte.
abbrev second_low : ℕ → ℕ
second_low c = if c == 0xe0 then 0xa0 else if c == 0xf0 then 0x90 else 0x80

abbrev second_high : ℕ → ℕ
second_high c = if c == 0xed then 0x9f else if c == 0xf4 then 0x8f else 0xbf

-- `pending` bytes are still to come, the next one between `low` and `high`.
utf8_from : ℕ → ℕ → ℕ → Bytes → Bool
utf8_from zero low high [] = true
utf8_from (suc pending) low high [] = false
utf8_from zero low high (c ∷ s) = elim (lead c) [
  | none ↦ false
  | some n ↦ utf8_from n (second_low c) (second_high c) s
]
utf8_from (suc pending) low high (c ∷ s) = leb low c && leb c high && utf8_from pending 0x80 0xbf s

unfoldable pub is_utf8 : Bytes → Bool
unfolding utf8_from
is_utf8 s = utf8_from 0 0 0 s

-- `str::from_utf8(s).ok()`
unfoldable pub from_utf8 : Bytes → Option Bytes
unfolding is_utf8
from_utf8 s = if is_utf8 s then some s else none

utf8_from-ascii : (low high : ℕ) (s : Bytes) → All (λ c. c < 128) s → utf8_from 0 low high s ≡ true
unfolding utf8_from
utf8_from-ascii low high [] a = refl
utf8_from-ascii low high (c ∷ s) a =
    rw (le→leb c 0x7f (omega (arith, a.0)), utf8_from)
      (utf8_from-ascii (second_low c) (second_high c) s a.1)

-- ASCII text is UTF-8.
pub is_utf8-ascii : (s : Bytes) → All (λ c. c < 128) s → is_utf8 s ≡ true
unfolding is_utf8
is_utf8-ascii s a = utf8_from-ascii 0 0 s a

ascii : is_utf8 (codes "GET") ≡ true
unfolding is_utf8
ascii = refl

surrogate : is_utf8 (0xed ∷ 0xa0 ∷ 0x80 ∷ []) ≡ false
unfolding is_utf8
surrogate = refl

euro : is_utf8 (0xe2 ∷ 0x82 ∷ 0xac ∷ []) ≡ true
unfolding is_utf8
euro = refl
