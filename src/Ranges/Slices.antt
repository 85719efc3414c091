-- ===== src/Ranges/Slices.antt =====
-- What the index arithmetic selects: a slice, by the rule of Redis for negative and large indices.
use Prim.Native.Nat.{min}
use rust_redis.Prelude.{
  ℕ, suc, ◌-◌, ◌<◌, ◌≡◌, refl, false, List, arith, ltb, leb, if◌then◌else◌, length, take, drop,
}
use rust_redis.Prelude.Int.{ℤ, pos, negsuc}
use rust_redis.Ranges.{as_i32, low, high, is_empty_range, within}

-- The length of a list that an `i32` can index.
abbrev pub i32_half : ℕ
i32_half = 0x80000000

-- The first index that is selected, and the one behind the last.
abbrev pub slice_start : ℤ → ℕ → ℕ
slice_start (pos n) len = n
slice_start (negsuc n) len = len - suc n

abbrev pub slice_end : ℤ → ℕ → ℕ
slice_end (pos n) len = min (suc n) len
slice_end (negsuc n) len = len - n

abbrev pub slice {ℓ} : {A : Type ℓ} → ℤ → ℤ → List A → List A
slice start stop xs =
    let len = length xs in
    take (slice_end stop len - slice_start start len) (drop (slice_start start len) xs)

pub as_i32-small : (n : ℕ) → n < i32_half → as_i32 n ≡ pos n
unfolding as_i32
as_i32-small n h = ground arith

pub low-slice_start :
    (start : ℤ) (len : ℕ) → len < i32_half → low start len ≡ pos (slice_start start len)
unfolding low
low-slice_start (pos n) len h = refl
low-slice_start (negsuc n) len h = ground arith

pub is_empty_range-slice :
    (start stop : ℤ) (len : ℕ)
    → len < i32_half
    → is_empty_range (low start len) (high stop len)
      ≡ leb (slice_end stop len) (slice_start start len)
unfolding is_empty_range high
is_empty_range-slice start (pos n) len h = rw (low-slice_start start len h) (ground arith)
is_empty_range-slice start (negsuc n) len h = rw (low-slice_start start len h) (ground arith)

pub high-slice_end :
    (stop : ℤ) (len : ℕ)
    → len < i32_half
    → 0 < slice_end stop len
    → high stop len ≡ pos (slice_end stop len - 1)
unfolding high
high-slice_end (pos n) len h k = ground arith
high-slice_end (negsuc n) len h k = ground arith

pub within-pos :
    (a b i : ℕ) → i < i32_half → within (pos a) (pos b) i ≡ (if ltb i a then false else leb i b)
unfolding within
within-pos a b i h = ground arith
