-- ===== src/SortedSets.antt =====
-- src/sorted_sets.rs: the sorted sets of the store, by key. A `BTreeSet` is the sorted list of its
-- entries.
pub mod Entries
pub mod Scores
pub mod Ranks
pub mod Examples
use rust_redis.Prelude.{
  ℕ, zero, suc, ◌+◌, Bool, true, false, Option, none, some, List, [], ◌∷◌, ◌++◌, ◌&&◌, Bytes, leb,
  if◌then◌else◌, length,
}
use rust_redis.Prelude.Int.{ℤ}
use rust_redis.Prelude.Keys
use rust_redis.Prelude.Keys.{Dict, bytes_eq, lookup, bytes_keys}
use rust_redis.Ranges.{low, high, is_empty_range, within}
use rust_redis.Command.{F64}
use rust_redis.Order.{Entry, entry_ltb}

abbrev pub SortedSets : Type 0
SortedSets = Dict Bytes (List Entry)

-- `BTreeSet::insert`: an entry that is there already stays.
unfoldable pub set_insert : Entry → List Entry → List Entry
set_insert e [] = e ∷ []
set_insert e (x ∷ xs) =
    if entry_ltb e x then e ∷ x ∷ xs else if entry_ltb x e then x ∷ set_insert e xs else x ∷ xs

-- `BTreeSet::remove`
unfoldable pub set_remove : Entry → List Entry → List Entry
set_remove e [] = []
set_remove e (x ∷ xs) =
    if entry_ltb e x then x ∷ set_remove e xs else if entry_ltb x e then x ∷ set_remove e xs else xs

-- The loops of `insert` and `score`: the score of the first entry with that member.
unfoldable pub find_score : Bytes → List Entry → Option F64
find_score member [] = none
find_score member ((sf, m) ∷ set) = if bytes_eq m member then some sf else find_score member set

-- `self.data.get(key)`, with the empty set for a missing key.
unfoldable pub set_at : Bytes → SortedSets → List Entry
set_at key self = elim (lookup key self) [ some set ↦ set | none ↦ [] ]

-- The entry that `insert` removes before it adds the new one.
abbrev pub without_previous : Option F64 → Bytes → List Entry → List Entry
without_previous none member set = set
without_previous (some prev) member set = set_remove (prev, member) set

-- `None => 1`, a pure insert, `Some(_) => 0`, an update
abbrev pub inserted : Option F64 → ℕ
inserted none = 1
inserted (some prev) = 0

unfoldable pub insert : SortedSets → Bytes → F64 → Bytes → SortedSets × ℕ
insert self key score member =
    let set = set_at key self in
    let prev_score_key = find_score member set in
    (
      Keys.insert key (set_insert (score, member) (without_previous prev_score_key member set))
          self,
      inserted prev_score_key,
    )

unfoldable pub rank_loop : Bytes → ℕ → List Entry → Option ℕ
rank_loop member r [] = none
rank_loop member r ((_, m) ∷ set) =
    if bytes_eq m member then some r else rank_loop member (r + 1) set

unfoldable pub rank : SortedSets → Bytes → Bytes → Option ℕ
unfolding rank_loop
rank self key member = rank_loop member 0 (set_at key self)

-- The loop of `range`, at index `i`.
unfoldable pub range_loop : ℤ → ℤ → ℕ → List Entry → List Bytes
range_loop a b i [] = []
range_loop a b i ((_, m) ∷ set) =
    let rest = range_loop a b (i + 1) set in if within a b i then m ∷ rest else rest

unfoldable pub range : SortedSets → Bytes → ℤ → ℤ → List Bytes
unfolding range_loop
range self key start stop =
    let set = set_at key self in
    let a = low start (length set) in
    let b = high stop (length set) in if is_empty_range a b then [] else range_loop a b 0 set

unfoldable pub card : SortedSets → Bytes → ℕ
card self key = length (set_at key self)

unfoldable pub score : SortedSets → Bytes → Bytes → Option F64
score self key member = find_score member (set_at key self)

abbrev pub removed : SortedSets → Bytes → Bytes → Option F64 → SortedSets × ℕ
removed self key member (some score) =
    (Keys.insert key (set_remove (score, member) (set_at key self)) self, 1)
removed self key member none = (self, 0)

unfoldable pub rem : SortedSets → Bytes → Bytes → SortedSets × ℕ
rem self key member = removed self key member (score self key member)
