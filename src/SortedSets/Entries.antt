-- ===== src/SortedSets/Entries.antt =====
-- src/sorted_sets.rs: one sorted set, its invariant, and the score of each member after `set_insert` and
-- `set_remove`.
use rust_redis.Prelude.{
  ◌+◌, ◌≡◌, refl, inl, inr, true, false, none, some, List, [], ◌∷◌, arith, Bytes, if◌then◌else◌,
  Bool-cases, length,
}
use rust_redis.Prelude.Keys.{bytes_eq, bytes_eq_iff}
use rust_redis.Command.{F64}
use rust_redis.Order.{Entry, entry_ltb, IsF64, entry_ltb_trans, entry_ltb-total, entry_ltb_irrefl}
use rust_redis.SortedSets.{set_insert, set_remove, find_score}

-- Every entry comes after `e`.
abbrev pub Above : Entry → List Entry → Type 0
Above e [] = Unit
Above e (x ∷ xs) = (entry_ltb e x ≡ true) × Above e xs

-- The entries stand in strictly rising order, no member stands twice, and scores are floats.
abbrev pub IsRanked : List Entry → Type 0
IsRanked [] = Unit
IsRanked ((s, m) ∷ xs) = IsF64 s × Above (s, m) xs × (find_score m xs ≡ none) × IsRanked xs

Above-trans : (d e : Entry) (xs : List Entry) → entry_ltb d e ≡ true → Above e xs → Above d xs
Above-trans d e [] h a = tt
Above-trans d e (x ∷ xs) h a = (entry_ltb_trans d e x h a.0, Above-trans d e xs h a.1)

module _ (d e : Entry) where
  Above-set_insert :
      (xs : List Entry) → entry_ltb d e ≡ true → Above d xs → Above d (set_insert e xs)
  unfolding set_insert
  Above-set_insert [] h a = (h, tt)
  Above-set_insert (x ∷ xs) h a = ground (arith, Above-set_insert xs h)

  Above-set_remove : (xs : List Entry) → Above d xs → Above d (set_remove e xs)
  unfolding set_remove
  Above-set_remove [] a = tt
  Above-set_remove (x ∷ xs) a = ground (arith, Above-set_remove xs)

-- Where the member is new, only its score changes.
pub find_score-set_insert :
    (sc : F64) (member m : Bytes) (xs : List Entry)
    → IsF64 sc
    → IsRanked xs
    → find_score member xs ≡ none
    → find_score m (set_insert (sc, member) xs)
      ≡ (if bytes_eq member m then some sc else find_score m xs)
unfolding find_score set_insert
find_score-set_insert sc member m [] f v absent = refl
find_score-set_insert sc member m ((t, n) ∷ xs) f v absent = ground (
  arith,
  bytes_eq_iff n member,
  bytes_eq_iff n m,
  bytes_eq_iff member m,
  entry_ltb-total (sc, member) (t, n),
  find_score-set_insert sc member m xs f,
)

-- The member of the head is not `member`, and stays out of the rest.
absent_head :
    (sc t : F64) (member n : Bytes) (xs : List Entry)
    → IsF64 sc
    → IsRanked ((t, n) ∷ xs)
    → find_score member ((t, n) ∷ xs) ≡ none
    → find_score n (set_insert (sc, member) xs) ≡ none
unfolding find_score
absent_head sc t member n xs f v absent = ground (
  arith,
  bytes_eq_iff n member,
  bytes_eq_iff member n,
  find_score-set_insert sc member n xs f v.3,
)

absent_tail :
    (t : F64) (member n : Bytes) (xs : List Entry)
    → find_score member ((t, n) ∷ xs) ≡ none
    → find_score member xs ≡ none
unfolding find_score
absent_tail t member n xs absent = ground arith

module _ (e x : Entry) (xs : List Entry) where
  set_insert-front : entry_ltb e x ≡ true → set_insert e (x ∷ xs) ≡ e ∷ x ∷ xs
  unfolding set_insert
  set_insert-front h = rw h

  set_insert-after :
      entry_ltb e x ≡ false → entry_ltb x e ≡ true → set_insert e (x ∷ xs) ≡ x ∷ set_insert e xs
  unfolding set_insert
  set_insert-after h k = rw (h, k)

  set_insert-same : entry_ltb e x ≡ false → entry_ltb x e ≡ false → set_insert e (x ∷ xs) ≡ x ∷ xs
  unfolding set_insert
  set_insert-same h k = rw (h, k)

-- A new entry keeps the invariant.
pub set_insert-IsRanked :
    (sc : F64) (member : Bytes) (xs : List Entry)
    → IsF64 sc
    → IsRanked xs
    → find_score member xs ≡ none
    → IsRanked (set_insert (sc, member) xs)
set_insert-IsRanked sc member [] f v absent = unfold set_insert find_score in (f, tt, refl, tt)
set_insert-IsRanked sc member ((t, n) ∷ xs) f v absent =
    elim (Bool-cases (entry_ltb (sc, member) (t, n))) [
      | inl front ↦
          rw (set_insert-front (sc, member) (t, n) xs front)
            (f, (front, Above-trans (sc, member) (t, n) xs front v.1), absent, v)
      | inr back ↦ elim (Bool-cases (entry_ltb (t, n) (sc, member))) [
        | inl after ↦ rw (set_insert-after (sc, member) (t, n) xs back after) (
          v.0,
          Above-set_insert (t, n) (sc, member) xs after v.1,
          absent_head sc t member n xs f v absent,
          set_insert-IsRanked sc member xs f v.3 (absent_tail t member n xs absent),
        )
        | inr same ↦ rw (set_insert-same (sc, member) (t, n) xs back same) v
      ]
    ]

pub find_score-IsF64 :
    (sc : F64) (member : Bytes) (xs : List Entry)
    → IsRanked xs
    → find_score member xs ≡ some sc
    → IsF64 sc
unfolding find_score
find_score-IsF64 sc member [] v found = cc
find_score-IsF64 sc member ((t, n) ∷ xs) v found = ground (arith, find_score-IsF64 sc member xs)

-- Removing the entry of a member takes its score away, and no other member's.
pub find_score-set_remove :
    (sc : F64) (member m : Bytes) (xs : List Entry)
    → IsRanked xs
    → find_score member xs ≡ some sc
    → find_score m (set_remove (sc, member) xs)
      ≡ (if bytes_eq member m then none else find_score m xs)
unfolding find_score set_remove
find_score-set_remove sc member m [] v found = cc
find_score-set_remove sc member m ((t, n) ∷ xs) v found = ground (
  arith,
  bytes_eq_iff n member,
  bytes_eq_iff n m,
  bytes_eq_iff member m,
  entry_ltb_irrefl (sc, member),
  entry_ltb-total (sc, member) (t, n),
  find_score-IsF64 sc member xs,
  find_score-set_remove sc member m xs,
)

pub length-set_remove :
    (sc : F64) (member : Bytes) (xs : List Entry)
    → IsRanked xs
    → find_score member xs ≡ some sc
    → length (set_remove (sc, member) xs) + 1 ≡ length xs
unfolding find_score set_remove
length-set_remove sc member [] v found = cc
length-set_remove sc member ((t, n) ∷ xs) v found = ground (
  arith,
  bytes_eq_iff n member,
  entry_ltb_irrefl (sc, member),
  entry_ltb-total (sc, member) (t, n),
  find_score-IsF64 sc member xs,
  length-set_remove sc member xs,
)

pub length-set_insert :
    (sc : F64) (member : Bytes) (xs : List Entry)
    → IsF64 sc
    → IsRanked xs
    → find_score member xs ≡ none
    → length (set_insert (sc, member) xs) ≡ length xs + 1
unfolding find_score set_insert
length-set_insert sc member [] f v absent = omega arith
length-set_insert sc member ((t, n) ∷ xs) f v absent = ground (
  arith,
  bytes_eq_iff n member,
  entry_ltb-total (sc, member) (t, n),
  length-set_insert sc member xs,
)

-- Another member's entry is passed over, and is not in what is left of the rest.
module _ (sc t : F64) (member n : Bytes) (xs : List Entry) (v : IsRanked ((t, n) ∷ xs))
    (found : find_score member ((t, n) ∷ xs) ≡ some sc) where
  set_remove-found : bytes_eq n member ≡ true → set_remove (sc, member) ((t, n) ∷ xs) ≡ xs
  unfolding set_remove find_score
  set_remove-found e = ground (arith, bytes_eq_iff n member, entry_ltb_irrefl (sc, member))

  found-tail : bytes_eq n member ≡ false → find_score member xs ≡ some sc
  unfolding find_score
  found-tail e = ground arith

  set_remove-pass :
      bytes_eq n member ≡ false
      → set_remove (sc, member) ((t, n) ∷ xs) ≡ (t, n) ∷ set_remove (sc, member) xs
  unfolding set_remove find_score
  set_remove-pass e = ground (
    arith,
    bytes_eq_iff n member,
    entry_ltb-total (sc, member) (t, n),
    find_score-IsF64 sc member xs,
  )

  find_score-pass : bytes_eq n member ≡ false → find_score n (set_remove (sc, member) xs) ≡ none
  unfolding find_score
  find_score-pass e = ground (
    arith,
    bytes_eq_iff n member,
    bytes_eq_iff member n,
    find_score-set_remove sc member n xs v.3,
  )

-- What is left keeps the invariant.
pub set_remove-IsRanked :
    (sc : F64) (member : Bytes) (xs : List Entry)
    → IsRanked xs
    → find_score member xs ≡ some sc
    → IsRanked (set_remove (sc, member) xs)
set_remove-IsRanked sc member [] v found = unfold set_remove in tt
set_remove-IsRanked sc member ((t, n) ∷ xs) v found = elim (Bool-cases (bytes_eq n member)) [
  | inl same ↦ rw (set_remove-found sc t member n xs v found same) v.3
  | inr other ↦ rw (set_remove-pass sc t member n xs v found other) (
    v.0,
    Above-set_remove (t, n) (sc, member) xs v.1,
    find_score-pass sc t member n xs v found other,
    set_remove-IsRanked sc member xs v.3 (found-tail sc t member n xs v found other),
  )
]
