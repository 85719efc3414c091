-- ===== src/SortedSets/Examples.antt =====
-- Runs of src/sorted_sets.rs, and the theorems at concrete sets.
use rust_redis.Prelude.{
  ◌+◌, ◌<◌, ◌≡◌, refl, none, some, [], ◌∷◌, ◌&&◌, arith, codes, if◌then◌else◌, length,
}
use rust_redis.Prelude.Int.{pos, negsuc}
use rust_redis.Prelude.Keys.{bytes_eq, bytes_keys, lookup, insert as dict_insert}
use rust_redis.Command.{F64}
use rust_redis.Order.{entry_ltb, place, bytes_ltb}
use rust_redis.Ranges.{low, high, is_empty_range, within}
use rust_redis.Ranges.Slices.{i32_half, slice}
use rust_redis.SortedSets.{
  SortedSets, find_score, set_insert, set_remove, set_at, insert, rank, range, card, score, rem,
}
use rust_redis.SortedSets.Entries.{IsRanked}
use rust_redis.SortedSets.Scores.{IsValid, insert-IsValid, score-insert, rem_lem}
use rust_redis.SortedSets.Ranks.{rank_of, rank-count_before, members, range-slice}

-- The bits of 1.0 and of 2.0.
abbrev one : F64
one = 0x3ff0000000000000

abbrev two : F64
two = 0x4000000000000000

-- ZADD board 2 bob
abbrev first : SortedSets
first = (insert [] (codes "board") two (codes "bob")).0

-- ZADD board 1 ann
abbrev board : SortedSets
board = (insert first (codes "board") one (codes "ann")).0

empty-IsValid : IsValid []
unfolding set_at lookup
empty-IsValid key = tt

first-IsValid : IsValid first
first-IsValid = insert-IsValid [] (codes "board") two (codes "bob") (omega arith) empty-IsValid

insert-IsValid_example : IsValid board
insert-IsValid_example =
    insert-IsValid first (codes "board") one (codes "ann") (omega arith) first-IsValid

score-insert_example : score board (codes "board") (codes "bob") ≡ (
    if bytes_eq (codes "board") (codes "board") && bytes_eq (codes "ann") (codes "bob")
    then some one
    else score first (codes "board") (codes "bob"))
score-insert_example =
    score-insert first (codes "board") one (codes "ann") (omega arith) first-IsValid (codes "board")
      (codes "bob")

rem_lem_example :
    IsRanked (set_at (codes "board") (rem board (codes "board") (codes "bob")).0)
    × (score (rem board (codes "board") (codes "bob")).0 (codes "board") (codes "ann") ≡ (
        if bytes_eq (codes "board") (codes "board") && bytes_eq (codes "bob") (codes "ann")
        then none
        else score board (codes "board") (codes "ann")))
    × (card board (codes "board")
        ≡ card (rem board (codes "board") (codes "bob")).0 (codes "board")
          + (if bytes_eq (codes "board") (codes "board")
              then (rem board (codes "board") (codes "bob")).1
              else 0))
rem_lem_example =
    rem_lem board (codes "board") (codes "bob") insert-IsValid_example (codes "board") (codes "ann")

rank-count_before_example :
    rank board (codes "board") (codes "bob")
    ≡ rank_of board (codes "board") (codes "bob") (score board (codes "board") (codes "bob"))
rank-count_before_example =
    rank-count_before board (codes "board") (codes "bob") insert-IsValid_example

range-slice_example :
    range board (codes "board") (pos 0) (negsuc 0)
    ≡ members (slice (pos 0) (negsuc 0) (set_at (codes "board") board))
range-slice_example = range-slice board (codes "board") (pos 0) (negsuc 0) short
  where
    short : length (set_at (codes "board") board) < i32_half
    short =
        unfold insert set_at lookup dict_insert find_score set_insert bytes_eq entry_ltb place in
        omega arith

rank_runs : rank board (codes "board") (codes "bob") ≡ some 1
unfolding rank insert set_at lookup dict_insert find_score set_insert set_remove bytes_eq entry_ltb
    place bytes_ltb
rank_runs = refl

range_runs : range board (codes "board") (negsuc 0) (pos 7) ≡ codes "bob" ∷ []
unfolding range insert set_at lookup dict_insert find_score set_insert bytes_eq entry_ltb place
    bytes_ltb low high is_empty_range within
range_runs = refl
