-- ===== src/Store/Lists/Slices.antt =====
-- LRANGE against the slice that its indices select.
use native.Mathlib.Decide.{dec_lt}
use rust_redis.Prelude.{
  ℕ, zero, suc, ◌+◌, ◌-◌, ◌<◌, ◌≤◌, ◌≡◌, refl, some, List, [], ◌∷◌, arith, Bytes, length, get_elem?,
  take, drop, le→leb, lt→not_leb,
}
use rust_redis.Prelude.Int.{ℤ, pos}
use rust_redis.Parser.{ok}
use rust_redis.Ranges.Slices.{
  i32_half, slice_start, slice_end, slice, low-slice_start, is_empty_range-slice, high-slice_end,
}
use rust_redis.Resp.{array, vec}
use rust_redis.Command.{Key}
use rust_redis.Store.{Store, done, list_at}
use rust_redis.Store.Lists.{bulks, lrange_loop, lrange_of, lrange}

record At (l : List Bytes) (i : ℕ) : Type 0 where
  elem : Bytes
  found : get_elem? l i ≡ some elem
  split : drop i l ≡ elem ∷ drop (suc i) l

at : (l : List Bytes) (i : ℕ) → i < length l → At l i
at [] i h = absurd (omega arith)
at (x ∷ l) zero h = record { elem = x; found = refl; split = refl }
at (x ∷ l) (suc i) h =
    let r = at l i (omega arith) in record { elem = r.elem; found = r.found; split = r.split }

lrange_loop-take :
    (rounds i : ℕ) (l : List Bytes)
    → i + rounds ≤ length l
    → lrange_loop rounds i l ≡ ok (bulks (take rounds (drop i l)))
unfolding lrange_loop
lrange_loop-take zero i l h = refl
lrange_loop-take (suc rounds) i l h =
    let r = at l i (omega arith) in
    let e : i + 1 ≡ suc i = omega arith in
    rw (r.found, r.split, lrange_loop-take rounds (i + 1) l (omega arith), e)

-- The loop indexes within the list, and collects the slice.
pub lrange_of-slice :
    (start stop : ℤ) (l : List Bytes)
    → length l < i32_half
    → lrange_of start stop l ≡ ok (bulks (slice start stop l))
unfolding lrange_of
lrange_of-slice start stop l h =
    let len = length l in
    let first = slice_start start len in
    let last = slice_end stop len in
    rw (is_empty_range-slice start stop len h) (elim (dec_lt first last) [
      | yes some_left ↦
          let e : last - 1 + 1 - first ≡ last - first = omega arith in
          rw
            (
              lt→not_leb last first some_left,
              low-slice_start start len h,
              high-slice_end stop len h (omega arith),
              e,
            )
            (lrange_loop-take (last - first) first l (end_le stop len first some_left))
      | no none_left ↦
          let e : last - first ≡ 0 = omega arith in rw (le→leb last first (omega arith), e)
    ])
  where
    end_le :
        (stop : ℤ) (len first : ℕ)
        → first < slice_end stop len
        → first + (slice_end stop len - first) ≤ len
    end_le (pos n) len first k = omega arith
    end_le _ len first k = omega arith

-- LRANGE does not panic on a key whose list is shorter than 2^31, whatever the indices: it replies
-- with the slice that they select, negative indices counting from the end, and changes nothing.
pub lrange-slice :
    (key : Key) (start stop : ℤ) (self : Store) (l : List Bytes)
    → list_at key self ≡ some l
    → length l < i32_half
    → lrange key start stop self ≡ ok (self, done (array (vec (bulks (slice start stop l)))))
unfolding lrange
lrange-slice key start stop self l e h = rw (e, lrange) (rw (lrange_of-slice start stop l h))
