-- ===== src/Store/Lists.antt =====
-- src/main.rs: RPUSH, LPUSH, LPOP, LRANGE, LLEN, BLPOP, and the clients that BLPOP blocks.
pub mod Slices
pub mod Fetches
pub mod Blocking
pub mod Ends
pub mod Taken
use mathlib.Core.List.{reverse}
use rust_redis.Prelude.{
  ℕ, zero, suc, ◌+◌, ◌-◌, ◌%◌, Bool, true, false, ◌||◌, Option, none, some, List, [], ◌∷◌, ◌++◌,
  Bytes, if◌then◌else◌, length, get_elem?, take, drop, u64_mod,
}
use rust_redis.Prelude.Int.{ℤ, pos, negsuc}
use rust_redis.Prelude.Keys.{Dict, bytes_eq, bytes_keys, nat_eq, lookup, insert, remove}
use rust_redis.Parser.{Outcome, ok, panic, ◌>>=◌}
use rust_redis.Ranges.{low, high, is_empty_range}
use rust_redis.Resp.{
  Resp, Resps, null_bulk_string, null_array, bulk_string, integer, array, vec, nil, cons,
}
use rust_redis.Command.{Key}
use rust_redis.Store.{
  Store, str, list, stream, TryExecuteResult, done, blocking_blpop, Channel, WaiterId, list_at,
  expire_at, put,
}

-- `keys.contains(&key)`
unfoldable pub contains : Key → List Key → Bool
contains key [] = false
contains key (k ∷ keys) = bytes_eq k key || contains key keys

-- `fetch_blpop`: the head of the first list among `keys` that has one, and whether there was none.
unfoldable pub fetch_blpop : List Key → Store → Store × Resp × Bool
fetch_blpop [] self = (self, null_array, true)
fetch_blpop (k ∷ keys) self = elim (list_at k self) [
  | some (head ∷ tail) ↦ (
    put k (list tail) (expire_at k self) self,
    array (vec (bulk_string k ∷ bulk_string head ∷ [])),
    false,
  )
  | some [] ↦ fetch_blpop keys self
  | none ↦ fetch_blpop keys self
]

-- The waiters that wait for `key`, in the order of the table.
unfoldable pub interested : Key → Dict WaiterId (Channel × List Key) → List WaiterId
unfolding contains
interested key [] = []
interested key ((waiter_id, (channel, keys)) ∷ waiters) =
    let rest = interested key waiters in if contains key keys then waiter_id ∷ rest else rest

abbrev pub with_waiters : Store → Dict WaiterId (Channel × List Key) → Store
with_waiters self m = record self { list_blpop_waiters = m }

-- The end of one round of the loop: `is_empty` puts the waiter back.
abbrev pub settle_waiter : WaiterId → Channel → List Key → Store × Resp × Bool → Store
settle_waiter waiter_id channel keys (self, rows, true) =
    with_waiters self (insert waiter_id (channel, keys) self.list_blpop_waiters)
settle_waiter waiter_id channel keys (self, rows, false) =
    let answered = record self { sent = self.sent ++ (channel, rows) ∷ [] } in
    with_waiters answered (remove waiter_id answered.list_blpop_waiters)

-- One round: the waiter is removed, and tried. The ids come from the table, so `unwrap` succeeds
-- and the last case does not happen.
unfoldable pub notify_waiter : WaiterId → Store → Store
unfolding fetch_blpop
notify_waiter waiter_id self = elim (lookup waiter_id self.list_blpop_waiters) [
  | some (channel, keys) ↦
      settle_waiter waiter_id channel keys
        (fetch_blpop keys (with_waiters self (remove waiter_id self.list_blpop_waiters)))
  | none ↦ self
]

unfoldable pub notify_loop : List WaiterId → Store → Store
notify_loop [] self = self
notify_loop (waiter_id ∷ waiters) self = notify_loop waiters (notify_waiter waiter_id self)

unfoldable pub notify_blpop_waiters : Key → Store → Store
unfolding notify_loop interested
notify_blpop_waiters key self = notify_loop (interested key self.list_blpop_waiters) self

-- `for e in elements { list.push_front(e); }`
unfoldable pub push_fronts : List Bytes → List Bytes → List Bytes
push_fronts [] l = l
push_fronts (e ∷ elements) l = push_fronts elements (e ∷ l)

-- The list that `Rpush` and `Lpush` leave before the waiters are notified.
unfoldable pub rpushed : Key → List Bytes → Store → Store × ℕ
rpushed key elements self = elim (list_at key self) [
  | some l ↦ (put key (list (l ++ elements)) (expire_at key self) self, length (l ++ elements))
  | none ↦ (put key (list elements) none self, length elements)
]

unfoldable pub lpushed : Key → List Bytes → Store → Store × ℕ
unfolding push_fronts
lpushed key elements self = elim (list_at key self) [
  | some l ↦ (
    put key (list (push_fronts elements l)) (expire_at key self) self,
    length (push_fronts elements l),
  )
  | none ↦ (put key (list (reverse elements)) none self, length elements)
]

unfoldable pub rpush : Key → List Bytes → Store → Store × TryExecuteResult
rpush key elements self =
    let (pushed, n) = rpushed key elements self in
    (notify_blpop_waiters key pushed, done (integer (pos n)))

unfoldable pub lpush : Key → List Bytes → Store → Store × TryExecuteResult
lpush key elements self =
    let (pushed, n) = lpushed key elements self in
    (notify_blpop_waiters key pushed, done (integer (pos n)))

abbrev pub bulks : List Bytes → List Resp
bulks [] = []
bulks (e ∷ els) = bulk_string e ∷ bulks els

-- `for _ in 0..c`: what is popped, and what is left.
unfoldable pub pop_loop : ℕ → List Bytes → List Resp × List Bytes
pop_loop zero l = ([], l)
pop_loop (suc c) [] = ([], [])
pop_loop (suc c) (e ∷ l) = let (els, rest) = pop_loop c l in (bulk_string e ∷ els, rest)

unfoldable pub lpop : Key → Option ℕ → Store → Store × TryExecuteResult
lpop key count self = elim (list_at key self) [
  | none ↦ (self, done null_bulk_string)
  | some [] ↦ (self, done null_bulk_string)
  | some (e ∷ l) ↦ elim count [
    | none ↦ (put key (list l) (expire_at key self) self, done (bulk_string e))
    | some c ↦
        let (els, rest) = pop_loop c (e ∷ l) in
        (put key (list rest) (expire_at key self) self, done (array (vec els)))
  ]
]

-- `x as usize` of an `i32` is its value if it is not negative.
abbrev pub as_usize : ℤ → ℕ
as_usize (pos n) = n
as_usize (negsuc n) = u64_mod - suc n

-- `list[i]`
abbrev index : Option Bytes → Outcome Resp
index none = panic
index (some e) = ok (bulk_string e)

-- `for i in a..=b`, with the rounds that are left.
unfoldable pub lrange_loop : ℕ → ℕ → List Bytes → Outcome (List Resp)
lrange_loop zero i l = ok []
lrange_loop (suc rounds) i l = do
  el ← index (get_elem? l i)
  els ← lrange_loop rounds (i + 1) l
  ok (el ∷ els)

unfoldable pub lrange_of : ℤ → ℤ → List Bytes → Outcome (List Resp)
unfolding lrange_loop
lrange_of start stop l =
    let a = low start (length l) in
    let b = high stop (length l) in
    if is_empty_range a b then ok [] else lrange_loop (as_usize b + 1 - as_usize a) (as_usize a) l

unfoldable pub lrange : Key → ℤ → ℤ → Store → Outcome (Store × TryExecuteResult)
lrange key start stop self = elim (list_at key self) [
  | none ↦ ok (self, done (array nil))
  | some l ↦ (do els ← lrange_of start stop l; ok (self, done (array (vec els))))
]

unfoldable pub llen : Key → Store → Store × TryExecuteResult
llen key self = elim (list_at key self) [
  | none ↦ (self, done (integer (pos 0)))
  | some l ↦ (self, done (integer (pos (length l))))
]

abbrev pub blpop_result : List Key → Store × Resp × Bool → Store × TryExecuteResult
blpop_result keys (self, resp, false) = (self, done resp)
blpop_result keys (self, resp, true) = (
  record self { waiter_id = (self.waiter_id + 1) % u64_mod },
  blocking_blpop ((self.waiter_id + 1) % u64_mod) keys,
)

unfoldable pub blpop : List Key → Store → Store × TryExecuteResult
unfolding fetch_blpop
blpop keys self = blpop_result keys (fetch_blpop keys self)
