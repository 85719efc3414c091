-- ===== src/Ranges.antt =====
-- The index arithmetic that `Lrange` (src/main.rs) and `SortedSets::range` (src/sorted_sets.rs)
-- share, on `i32`: a negative index counts from the end.
pub mod Slices
use rust_redis.Prelude.{
  ℕ, zero, suc, ◌+◌, ◌-◌, ◌%◌, ◌<◌, ◌≤◌, ◌≡◌, Bool, true, false, ◌&&◌, arith, ltb, leb,
  if◌then◌else◌,
}
use rust_redis.Prelude.Int.{ℤ, pos, negsuc, sub_ℕ, ◌+ℤ◌}

-- `n as i32` of a `usize`
unfoldable pub as_i32 : ℕ → ℤ
as_i32 n = let w = n % 0x100000000 in if ltb w 0x80000000 then pos w else negsuc (0xffffffff - w)

-- `if start < 0 { start + len } else { start }`. The sum leaves `i32` only if the length does.
unfoldable pub from_end : ℤ → ℕ → ℤ
unfolding as_i32 ◌+ℤ◌
from_end (pos n) len = pos n
from_end (negsuc n) len = negsuc n +ℤ as_i32 len

-- `0.max(a)`
abbrev not_negative : ℤ → ℤ
not_negative (pos n) = pos n
not_negative (negsuc n) = pos 0

unfoldable pub less : ℤ → ℤ → Bool
less (pos a) (pos b) = ltb a b
less (pos a) (negsuc b) = false
less (negsuc a) (pos b) = true
less (negsuc a) (negsuc b) = ltb b a

-- `a.min(b)`
abbrev smaller : ℤ → ℤ → ℤ
unfolding less
smaller a b = if less b a then b else a

unfoldable pub low : ℤ → ℕ → ℤ
unfolding from_end
low start len = not_negative (from_end start len)

unfoldable pub high : ℤ → ℕ → ℤ
unfolding from_end less as_i32 ◌+ℤ◌
high stop len = smaller (as_i32 len +ℤ negsuc 0) (from_end stop len)

-- `if a > b`
unfoldable pub is_empty_range : ℤ → ℤ → Bool
unfolding less
is_empty_range a b = less b a

-- `a <= (i as i32) && (i as i32) <= b`
unfoldable pub within : ℤ → ℤ → ℕ → Bool
unfolding less as_i32
within a b i = if less (as_i32 i) a then false else if less b (as_i32 i) then false else true
