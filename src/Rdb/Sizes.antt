-- ===== src/Rdb/Sizes.antt =====
-- src/rdb.rs and src/parser.rs: the sizes and strings that the one writes and the other reads.
use rust_redis.Prelude.{
  ℕ, zero, suc, ◌+◌, ◌*◌, ◌/◌, ◌%◌, ◌^◌, ◌<◌, ◌≤◌, ◌≡◌, refl, inl, inr, ◌⊎◌, true, [], ◌∷◌, ◌++◌,
  arith, Bytes, leb, length, take-length_append, drop-length_append,
}
use rust_redis.Utf8.{is_utf8}
use rust_redis.Parser.{ok}
use rust_redis.Parser.Reads.{length_bytes}
use rust_redis.Parser.LengthEncoded.{
  le_integer2, le_integer4, le_integer, section, le_bytes, le_string,
}
use rust_redis.Rdb.{to_be_bytes4, to_le_bytes, from_le_bytes, le_encode_size, le_encode_string}

small_size : (n : ℕ) → n ≤ 0x3f → (n / 64 ≡ 0) × (n % 64 ≡ n)
small_size n h = (omega arith, omega arith)

middle_size :
    (n : ℕ) → n ≤ 0x3fff → ((0x40 + n / 256) / 64 ≡ 1) × ((0x40 + n / 256) % 64 * 256 + n % 256 ≡ n)
middle_size n h = (omega arith, omega arith)

large_size :
    (n : ℕ)
    → n < 2 ^ 32
    → n / 2 ^ 24 % 256 * 2 ^ 24 + n / 2 ^ 16 % 256 * 2 ^ 16 + n / 256 % 256 * 256 + n % 256 ≡ n
large_size n h = omega arith

-- The three shapes of a size.
abbrev Shape : ℕ → Type 0
Shape n =
    ((n ≤ 0x3f) × (le_encode_size n ≡ n ∷ []))
    ⊎ (((n ≤ 0x3fff) × (le_encode_size n ≡ (0x40 + n / 256) ∷ n % 256 ∷ []))
        ⊎ (le_encode_size n ≡ 0x80 ∷ to_be_bytes4 n))

le_encode_size-Shape : (n : ℕ) → Shape n
unfolding le_encode_size
le_encode_size-Shape n = ground arith

-- A size is read back.
pub le_integer-size :
    (n : ℕ) (t : Bytes) → n < 2 ^ 32 → le_integer (le_encode_size n ++ t) ≡ ok (n, t)
unfolding le_integer le_integer2 le_integer4
le_integer-size n t h = elim (le_encode_size-Shape n) [
  | inl (small, e) ↦ let (q, r) = small_size n small in rw (e, q, r) refl
  | inr (inl (middle, e)) ↦ let (q, r) = middle_size n middle in rw (e, q, r) refl
  | inr (inr e) ↦ rw (e, large_size n h) refl
]

section-append : (s t : Bytes) → section (length s) (s ++ t) ≡ ok (s, t)
unfolding section
section-append s t =
    let enough : leb (length s) (length (s ++ t)) ≡ true = ground (arith, length_bytes s t) in
    rw (enough, take-length_append s t, drop-length_append s t) refl

-- A string is read back, whatever its bytes.
pub le_bytes-string :
    (s t : Bytes) → length s < 2 ^ 32 → le_bytes (le_encode_string s ++ t) ≡ ok (s, t)
unfolding le_encode_string le_bytes le_integer2 le_integer4
le_bytes-string s t h = elim (le_encode_size-Shape (length s)) [
  | inl (small, e) ↦ let (q, r) = small_size (length s) small in rw (e, q, r) (section-append s t)
  | inr (inl (middle, e)) ↦
      let (q, r) = middle_size (length s) middle in rw (e, q, r) (section-append s t)
  | inr (inr e) ↦ rw (e, large_size (length s) h) (section-append s t)
]

pub le_string-string :
    (s t : Bytes)
    → length s < 2 ^ 32
    → is_utf8 s ≡ true
    → le_string (le_encode_string s ++ t) ≡ ok (s, t)
unfolding le_string
le_string-string s t h u = rw (le_bytes-string s t h, u)

-- The little-endian bytes of a number of `k` bytes give it back.
pub from_le_bytes-to_le_bytes : (k n : ℕ) → n < 256 ^ k → from_le_bytes (to_le_bytes k n) ≡ n
unfolding from_le_bytes to_le_bytes
from_le_bytes-to_le_bytes zero n h = omega arith
from_le_bytes-to_le_bytes (suc k) n h =
    rw (from_le_bytes-to_le_bytes k (n / 256) (omega arith)) (omega arith)
