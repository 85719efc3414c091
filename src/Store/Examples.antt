-- ===== src/Store/Examples.antt =====
-- Runs of the lists of src/main.rs, and their theorems at concrete stores.
use rust_redis.Prelude.{
  ◌≡◌, refl, false, none, some, List, [], ◌∷◌, arith, Bytes, codes, drop, if◌then◌else◌,
}
use rust_redis.Prelude.Int.{pos, negsuc}
use rust_redis.Prelude.Keys.{bytes_eq, bytes_keys, nat_eq, lookup, insert}
use rust_redis.Parser.{ok}
use rust_redis.Ranges.Slices.{slice}
use rust_redis.Resp.{array, vec}
use rust_redis.Command.{Key}
use rust_redis.Store.{Store, empty, done, list_at, put, list}
use rust_redis.Store.Lists.{bulks, lrange, rpush, lpush, lpop}
use rust_redis.Store.Lists.Slices.{lrange-slice}
use rust_redis.Store.Lists.Blocking.{IsServed, push-IsServed}
use rust_redis.Store.Lists.Ends.{contents, pop_reply, lpop-contents}

abbrev jobs : Key
jobs = codes "jobs"

abbrev three : List Bytes
three = codes "a" ∷ codes "b" ∷ codes "c" ∷ []

-- A store with one list.
abbrev queue : Store
queue = put jobs (list three) none (empty false)

-- The same store with a client that waits for the list.
abbrev waiting : Store
waiting = record (empty false) { list_blpop_waiters = (7, (3, jobs ∷ [])) ∷ [] }

jobs-three : list_at jobs queue ≡ some three
unfolding list_at put lookup insert bytes_eq
jobs-three = refl

push-IsServed_example :
    IsServed jobs (rpush jobs three waiting).0 × IsServed jobs (lpush jobs three waiting).0
push-IsServed_example = push-IsServed jobs three waiting

lrange-slice_example :
    lrange jobs (negsuc 1) (pos 9) queue
    ≡ ok (queue, done (array (vec (bulks (slice (negsuc 1) (pos 9) three)))))
lrange-slice_example = lrange-slice jobs (negsuc 1) (pos 9) queue three jobs-three (omega arith)

-- A client waits for the key.
abbrev waited : Store
waited = record queue { list_blpop_waiters = (1, (5, jobs ∷ [])) ∷ [] }

lpop-contents_example :
    ((lpop jobs (some 2) queue).1 ≡ done (pop_reply (some 2) (contents jobs queue)))
    × (contents jobs (lpop jobs (some 2) queue).0
        ≡ (if bytes_eq jobs jobs then drop 2 (contents jobs queue) else contents jobs queue))
lpop-contents_example = lpop-contents jobs jobs (some 2) queue
