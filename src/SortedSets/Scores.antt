-- ===== src/SortedSets/Scores.antt =====
-- ZADD, ZSCORE, ZREM and ZCARD: the sorted sets as a map from keys and members to scores.
use rust_redis.Prelude.{
  ◌+◌, ◌≡◌, refl, inl, inr, ◌&&◌, Option, none, some, List, arith, Bytes, if◌then◌else◌, Bool-cases,
  length,
}
use rust_redis.Prelude.Keys.{
  bytes_eq, bytes_eq_iff, bytes_keys, insert as dict_insert, lookup-insert,
}
use rust_redis.Command.{F64}
use rust_redis.Order.{Entry, IsF64}
use rust_redis.SortedSets.{
  SortedSets, removed, without_previous, inserted, set_insert, set_remove, find_score, set_at,
  insert, card, score, rem,
}
use rust_redis.SortedSets.Entries.{
  IsRanked, find_score-set_insert, set_insert-IsRanked, find_score-set_remove, length-set_remove,
  length-set_insert, set_remove-IsRanked,
}

-- Every set of the store keeps the invariant of a set.
abbrev pub IsValid : SortedSets → Type 0
IsValid self = (key : Bytes) → IsRanked (set_at key self)

set_at-insert :
    (key k : Bytes) (set : List Entry) (self : SortedSets)
    → set_at k (dict_insert key set self) ≡ (if bytes_eq key k then set else set_at k self)
unfolding set_at
set_at-insert key k set self = ground (arith, lookup-insert key k set self)

-- What `insert` makes of a set, given the score that the member had.
record Stored (sc : F64) (member : Bytes) (xs : List Entry) (prev : Option F64) : Type 0 where
  ranked : IsRanked (set_insert (sc, member) (without_previous prev member xs))
  scores :
      (m : Bytes)
      → find_score m (set_insert (sc, member) (without_previous prev member xs))
        ≡ (if bytes_eq member m then some sc else find_score m xs)
  size :
      length (set_insert (sc, member) (without_previous prev member xs)) ≡ length xs + inserted prev

absent_after_remove :
    (prev : F64) (member : Bytes) (xs : List Entry)
    → IsRanked xs
    → find_score member xs ≡ some prev
    → find_score member (set_remove (prev, member) xs) ≡ none
absent_after_remove prev member xs v found =
    ground (arith, find_score-set_remove prev member member xs v found, bytes_eq_iff member member)

stored :
    (sc : F64) (member : Bytes) (xs : List Entry) (prev : Option F64)
    → IsF64 sc
    → IsRanked xs
    → find_score member xs ≡ prev
    → Stored sc member xs prev
stored sc member xs none f v e = record {
  ranked = set_insert-IsRanked sc member xs f v e;
  scores = λ m. find_score-set_insert sc member m xs f v e;
  size = length-set_insert sc member xs f v e;
}
stored sc member xs (some prev) f v e =
    let old = set_remove (prev, member) xs in
    let w = set_remove-IsRanked prev member xs v e in
    let gone = absent_after_remove prev member xs v e in
    record {
      ranked = set_insert-IsRanked sc member old f w gone;
      scores = λ m. ground (
        arith,
        find_score-set_insert sc member m old f w gone,
        find_score-set_remove prev member m xs v e,
      );
      size =
          omega
            (arith, length-set_insert sc member old f w gone, length-set_remove prev member xs v e);
    }

module _ (self : SortedSets) (key : Bytes) (sc : F64) (member : Bytes) (f : IsF64 sc)
    (v : IsValid self) where
  at_key : Stored sc member (set_at key self) (find_score member (set_at key self))
  at_key = stored sc member (set_at key self) (find_score member (set_at key self)) f (v key) refl

  abbrev new_set : List Entry
  new_set =
      set_insert (sc, member)
        (without_previous (find_score member (set_at key self)) member (set_at key self))

  set_at-after :
      (k : Bytes)
      → set_at k (insert self key sc member).0 ≡ (if bytes_eq key k then new_set else set_at k self)
  unfolding insert
  set_at-after k = set_at-insert key k new_set self

  -- With the bits of an f64 as the score, ZADD keeps the invariant: every set stays sorted by score
  -- and member, without a member twice.
  pub insert-IsValid : IsValid (insert self key sc member).0
  insert-IsValid k = elim (Bool-cases (bytes_eq key k)) [
    | inl same ↦ rw (set_at-after k, same) at_key.ranked
    | inr other ↦ rw (set_at-after k, other) (v k)
  ]

  -- On valid sets, after ZADD the member has the new score, and every other member of every key
  -- the score it had, or none.
  pub score-insert :
      (k m : Bytes)
      → score (insert self key sc member).0 k m
        ≡ (if bytes_eq key k && bytes_eq member m then some sc else score self k m)
  unfolding score
  score-insert k m = rw (set_at-after k) (ground (arith, at_key.scores m, bytes_eq_iff key k))

  -- On valid sets ZADD returns by how many members the set of its key has grown. The other sets
  -- keep their sizes.
  pub card-insert :
      (k : Bytes)
      → card (insert self key sc member).0 k
        ≡ (if bytes_eq key k then card self k + (insert self key sc member).1 else card self k)
  unfolding card
  card-insert k =
      rw (set_at-after k) (unfold insert in ground (arith, at_key.size, bytes_eq_iff key k))

-- What `rem` does, given the score that the member has.
module _ (self : SortedSets) (key member : Bytes) (v : IsValid self) where
  abbrev after : Option F64 → SortedSets
  after found = (removed self key member found).0

  removed_lem :
      (found : Option F64) (k m : Bytes)
      → find_score member (set_at key self) ≡ found
      → IsRanked (set_at k (after found))
        × (find_score m (set_at k (after found))
            ≡ (if bytes_eq key k && bytes_eq member m then none else find_score m (set_at k self)))
        × (length (set_at k self)
            ≡ length (set_at k (after found))
              + (if bytes_eq key k then (removed self key member found).1 else 0))
  removed_lem none k m e =
      (v k, ground (arith, bytes_eq_iff key k, bytes_eq_iff member m), ground arith)
  removed_lem (some sc) k m e =
      let old = set_at key self in
      let new = set_remove (sc, member) old in
      elim (Bool-cases (bytes_eq key k)) [
        | inl same ↦
            rw (set_at-insert key k new self, same, ← (bytes_eq_iff key k).0 same)
              (
                set_remove-IsRanked sc member old (v key) e,
                find_score-set_remove sc member m old (v key) e,
                omega (arith, length-set_remove sc member old (v key) e),
              )
        | inr other ↦ rw (set_at-insert key k new self, other) (v k, refl, omega arith)
      ]

  -- On valid sets ZREM takes the member's score away, and no other; it returns the number of
  -- members that have gone from the set; and it keeps the invariant.
  pub rem_lem :
      (k m : Bytes)
      → IsRanked (set_at k (rem self key member).0)
        × (score (rem self key member).0 k m
            ≡ (if bytes_eq key k && bytes_eq member m then none else score self k m))
        × (card self k
            ≡ card (rem self key member).0 k
              + (if bytes_eq key k then (rem self key member).1 else 0))
  unfolding rem score card
  rem_lem k m = removed_lem (find_score member (set_at key self)) k m refl
