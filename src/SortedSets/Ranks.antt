-- ===== src/SortedSets/Ranks.antt =====
-- ZRANK and ZRANGE: positions in the order of the scores.
use native.Mathlib.Decide.{dec_lt}
use rust_redis.Prelude.{
  sym, lt→ltb, le→not_ltb, le→leb, lt→not_leb, ℕ, zero, suc, ◌+◌, ◌-◌, ◌<◌, ◌≤◌, ◌≡◌, refl, ap,
  true, false, Option, none, some, List, [], ◌∷◌, arith, Bytes, if◌then◌else◌, length, take, drop,
  ◌∙◌,
}
use rust_redis.Prelude.Int.{ℤ, pos}
use rust_redis.Prelude.Keys.{bytes_eq_iff}
use rust_redis.Command.{F64}
use rust_redis.Order.{Entry, entry_ltb, entry_ltb_trans, entry_ltb_irrefl}
use rust_redis.Ranges.{within}
use rust_redis.Ranges.Slices.{
  i32_half, slice_start, slice_end, slice, low-slice_start, is_empty_range-slice, high-slice_end,
  within-pos,
}
use rust_redis.SortedSets.{
  SortedSets, find_score, set_at, rank_loop, rank, range_loop, range, score,
}
use rust_redis.SortedSets.Entries.{Above, IsRanked}
use rust_redis.SortedSets.Scores.{IsValid}

-- How many entries the order puts before `e`.
unfoldable pub count_before : Entry → List Entry → ℕ
count_before e [] = 0
count_before e (x ∷ xs) = let n = count_before e xs in if entry_ltb x e then suc n else n

Above-asym : (e x : Entry) → entry_ltb e x ≡ true → entry_ltb x e ≡ false
Above-asym e x h = ground (arith, entry_ltb_trans e x e, entry_ltb_irrefl e)

count_before-Above : (e : Entry) (xs : List Entry) → Above e xs → count_before e xs ≡ 0
unfolding count_before
count_before-Above e [] a = refl
count_before-Above e (x ∷ xs) a = ground (arith, Above-asym e x, count_before-Above e xs)

Above-found :
    (e : Entry) (sc : F64) (member : Bytes) (xs : List Entry)
    → Above e xs
    → find_score member xs ≡ some sc
    → entry_ltb e (sc, member) ≡ true
unfolding find_score
Above-found e sc member [] a found = cc
Above-found e sc member ((t, n) ∷ xs) a found =
    ground (arith, bytes_eq_iff n member, Above-found e sc member xs)

rank_loop-found :
    (sc : F64) (member : Bytes) (r : ℕ) (xs : List Entry)
    → IsRanked xs
    → find_score member xs ≡ some sc
    → rank_loop member r xs ≡ some (r + count_before (sc, member) xs)
unfolding find_score rank_loop count_before
rank_loop-found sc member r [] v found = cc
rank_loop-found sc member r ((t, n) ∷ xs) v found = ground (
  arith,
  bytes_eq_iff n member,
  entry_ltb_irrefl (t, n),
  count_before-Above (t, n) xs v.1,
  Above-found (t, n) sc member xs v.1,
  rank_loop-found sc member (r + 1) xs v.3,
)

rank_loop-absent :
    (member : Bytes) (r : ℕ) (xs : List Entry)
    → find_score member xs ≡ none
    → rank_loop member r xs ≡ none
unfolding find_score rank_loop
rank_loop-absent member r [] absent = refl
rank_loop-absent member r ((t, n) ∷ xs) absent = ground (arith, rank_loop-absent member (r + 1) xs)

abbrev pub rank_of : SortedSets → Bytes → Bytes → Option F64 → Option ℕ
rank_of self key member none = none
rank_of self key member (some sc) = some (count_before (sc, member) (set_at key self))

-- On valid sets ZRANK is the number of entries that come before the member's by score, and by member
-- where scores are equal; it is nothing exactly for a member without a score.
pub rank-count_before :
    (self : SortedSets) (key member : Bytes)
    → IsValid self
    → rank self key member ≡ rank_of self key member (score self key member)
unfolding rank score
rank-count_before self key member v = go (find_score member (set_at key self)) refl
  where
    go :
        (o : Option F64)
        → find_score member (set_at key self) ≡ o
        → rank_loop member 0 (set_at key self)
          ≡ rank_of self key member (find_score member (set_at key self))
    go none e = rw e (rank_loop-absent member 0 (set_at key self) e)
    go (some sc) e =
        rw e (rank_loop-found sc member 0 (set_at key self) (v key) e ∙ ap some (omega arith))

abbrev pub members : List Entry → List Bytes
members [] = []
members ((s, m) ∷ xs) = m ∷ members xs

members-take_nil : (n : ℕ) → members (take n []) ≡ []
members-take_nil zero = refl
members-take_nil (suc n) = refl

range_loop-next :
    (a b : ℤ) (i : ℕ) (s : F64) (m : Bytes) (xs : List Entry)
    → range_loop a b i ((s, m) ∷ xs)
      ≡ (if within a b i then m ∷ range_loop a b (i + 1) xs else range_loop a b (i + 1) xs)
unfolding range_loop
range_loop-next a b i s m xs = refl

-- Past the first index the loop takes what is left up to the last one.
range_loop-take :
    (a b i : ℕ) (xs : List Entry)
    → a ≤ i
    → i + length xs ≤ i32_half
    → range_loop (pos a) (pos b) i xs ≡ members (take (suc b - i) xs)
range_loop-take a b i [] k h = unfold range_loop in sym (members-take_nil (suc b - i))
range_loop-take a b i ((s, m) ∷ xs) k h =
    rw
      (
        range_loop-next (pos a) (pos b) i s m xs,
        within-pos a b i (omega arith),
        le→not_ltb i a k,
        range_loop-take a b (i + 1) xs (omega arith) (omega arith),
      )
      (elim (dec_lt i (suc b)) [
        | yes inside ↦
            let e : suc b - i ≡ suc (suc b - (i + 1)) = omega arith in
            rw (e, le→leb i b (omega arith))
        | no past ↦
            let e : suc b - i ≡ 0 = omega arith in
            let e' : suc b - (i + 1) ≡ 0 = omega arith in rw (e, e', lt→not_leb i b (omega arith))
      ])

range_loop-drop :
    (k b i : ℕ) (xs : List Entry)
    → i + length xs ≤ i32_half
    → range_loop (pos (i + k)) (pos b) i xs ≡ members (take (suc b - (i + k)) (drop k xs))
range_loop-drop k b i [] h = unfold range_loop in nothing k
  where
    nothing : (k : ℕ) → [] ≡ members (take (suc b - (i + k)) (drop {A = Entry} k []))
    nothing zero = sym (members-take_nil _)
    nothing (suc k) = sym (members-take_nil _)
range_loop-drop zero b i ((s, m) ∷ xs) h =
    let e : i + 0 ≡ i = omega arith in rw e (range_loop-take i b i ((s, m) ∷ xs) (omega arith) h)
range_loop-drop (suc k) b i ((s, m) ∷ xs) h =
    let e : i + suc k ≡ i + 1 + k = omega arith in
    rw
      (
        range_loop-next (pos (i + suc k)) (pos b) i s m xs,
        within-pos (i + suc k) b i (omega arith),
        lt→ltb i (i + suc k) (omega arith),
        e,
      )
      (range_loop-drop k b (i + 1) xs (omega arith))

range_loop-whole :
    (first last : ℕ) (xs : List Entry)
    → first < last
    → length xs ≤ i32_half
    → range_loop (pos first) (pos (last - 1)) 0 xs ≡ members (take (last - first) (drop first xs))
range_loop-whole first last xs h k =
    let e : 0 + first ≡ first = omega arith in
    let e' : suc (last - 1) ≡ last = omega arith in
    rw (e, e') at (range_loop-drop first (last - 1) 0 xs (omega arith))

-- ZRANGE returns the members of the slice that its two indices select, in the order of the set:
-- negative indices count from the end, an index past the end is the end, and a range whose start
-- lies behind its stop is empty. The set has to be shorter than 2^31.
pub range-slice :
    (self : SortedSets) (key : Bytes) (start stop : ℤ)
    → length (set_at key self) < i32_half
    → range self key start stop ≡ members (slice start stop (set_at key self))
unfolding range
range-slice self key start stop h =
    let set = set_at key self in
    let len = length set in
    let first = slice_start start len in
    let last = slice_end stop len in
    rw (is_empty_range-slice start stop len h) (elim (dec_lt first last) [
      | yes some_left ↦
          rw
            (
              lt→not_leb last first some_left,
              low-slice_start start len h,
              high-slice_end stop len h (omega arith),
            )
            (range_loop-whole first last set some_left (omega arith))
      | no none_left ↦
          let e : last - first ≡ 0 = omega arith in rw (le→leb last first (omega arith), e)
    ])
