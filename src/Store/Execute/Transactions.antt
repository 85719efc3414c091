-- ===== src/Store/Execute/Transactions.antt =====
-- src/main.rs: transactions under `try_execute` as a whole.
use rust_redis.Prelude.{
  ℕ, ◌≡◌, refl, ◌∙◌, Bool, true, false, Option, none, some, List, [], ◌∷◌, Bytes, ◌==◌, arith,
}
use rust_redis.Prelude.Int.{ℤ, pos}
use rust_redis.Prelude.Keys.{nat_eq, lookup, remove}
use rust_redis.Parser.{Outcome, ok, err, panic, out_of_fuel, ◌>>=◌}
use rust_redis.Number.{decimal}
use rust_redis.Parser.Numeric.{integer_i64}
use rust_redis.Resp.{Resp, integer, null_array, array, vec}
use rust_redis.Command.{Command, commands, Key, modified_keys}
use rust_redis.Platform.{Platform}
use rust_redis.ClientSets.{ClientId}
use rust_redis.Store.{str, Store, TryExecuteResult, done, WaiterId, Channel, put, str_at, stream_at}
use rust_redis.Store.Strings.{command_set, incremented, incr}
use rust_redis.Store.Lists.{
  fetch_blpop, with_waiters, settle_waiter, notify_waiter, notify_loop, notify_blpop_waiters,
  interested, rpushed, lpushed, rpush, lpush, contains,
}
use rust_redis.Store.Streams.Readers.{IsAligned}
use rust_redis.Store.Streams.Ensured.{IsValid}
use rust_redis.Store.Streams.Adds.{xadd-IsValid}
use rust_redis.Store.Watches.{
  track, lock_failed, cleaned, run_commands, reply_of, internal_execute_tx,
}
use rust_redis.Store.Watches.Members.{watches, keeps_modified, joins_modified}
use rust_redis.Store.Watches.Conflicts.{refused}
use rust_redis.Store.Execute.{handle, try_execute, execute_all}

execute_all-run_commands :
    (p : Platform) (now : ℕ) (c : ClientId) (queue : List Command) (self : Store)
    → execute_all p now c (commands queue) self ≡ run_commands (try_execute p now c) queue self
unfolding execute_all run_commands
execute_all-run_commands p now c [] self = refl
execute_all-run_commands p now c (cmd ∷ queue) self = λ i. do
  (self', resp) ← try_execute p now c cmd self
  (replies, self'') ← execute_all-run_commands p now c queue self' i
  ok (reply_of resp ∷ replies, self'')

try_execute-internal_execute_tx :
    (p : Platform) (now : ℕ) (c : ClientId) (queue : List Command) (self : Store)
    → try_execute p now c (Command.internal_execute_tx (commands queue)) self
      ≡ internal_execute_tx (try_execute p now c) c queue self
unfolding try_execute internal_execute_tx
try_execute-internal_execute_tx p now c queue self = λ i. elim (lock_failed c self.watched_keys) [
  | true ↦ ok (cleaned c self, done null_array)
  | false ↦ do
    (replies, self') ← execute_all-run_commands p now c queue self i
    ok (cleaned c self', done (array (vec replies)))
]

-- The marks on the watched keys are the same.
abbrev Keeps : Store → Store → Type 0
Keeps self self' = self'.watched_keys ≡ self.watched_keys

fetch_blpop-Keeps : (keys : List Key) (self : Store) → Keeps self (fetch_blpop keys self).0
unfolding fetch_blpop put
fetch_blpop-Keeps [] self = refl
fetch_blpop-Keeps (k ∷ keys) self = ground (arith, fetch_blpop-Keeps keys self)

settle_waiter-Keeps :
    (waiter_id : WaiterId) (channel : Channel) (keys : List Key) (fetched : Store × Resp × Bool)
    → Keeps fetched.0 (settle_waiter waiter_id channel keys fetched)
settle_waiter-Keeps waiter_id channel keys (self, rows, true) = refl
settle_waiter-Keeps waiter_id channel keys (self, rows, false) = refl

notify_waiter-Keeps :
    (waiter_id : WaiterId) (self : Store) → Keeps self (notify_waiter waiter_id self)
unfolding notify_waiter
notify_waiter-Keeps waiter_id self = go (lookup waiter_id self.list_blpop_waiters)
  where
    go :
        (o : Option (Channel × List Key))
        → Keeps self (elim o [
          | some (channel, keys) ↦
              settle_waiter waiter_id channel keys
                (fetch_blpop keys (with_waiters self (remove waiter_id self.list_blpop_waiters)))
          | none ↦ self
        ])
    go none = refl
    go (some (channel, keys)) =
        let removed = with_waiters self (remove waiter_id self.list_blpop_waiters) in
        settle_waiter-Keeps waiter_id channel keys (fetch_blpop keys removed)
        ∙ fetch_blpop-Keeps keys removed

notify_loop-Keeps : (waiters : List WaiterId) (self : Store) → Keeps self (notify_loop waiters self)
unfolding notify_loop
notify_loop-Keeps [] self = refl
notify_loop-Keeps (waiter_id ∷ waiters) self =
    notify_loop-Keeps waiters (notify_waiter waiter_id self) ∙ notify_waiter-Keeps waiter_id self

rpush-Keeps :
    (key : Key) (elements : List Bytes) (self : Store) → Keeps self (rpush key elements self).0
unfolding rpush rpushed put notify_blpop_waiters
rpush-Keeps key elements self =
    notify_loop-Keeps (interested key (rpushed key elements self).0.list_blpop_waiters)
      (rpushed key elements self).0
    ∙ ground arith

lpush-Keeps :
    (key : Key) (elements : List Bytes) (self : Store) → Keeps self (lpush key elements self).0
unfolding lpush lpushed put notify_blpop_waiters
lpush-Keeps key elements self =
    notify_loop-Keeps (interested key (lpushed key elements self).0.list_blpop_waiters)
      (lpushed key elements self).0
    ∙ ground arith

incremented-Keeps :
    (key : Key) (self : Store) (o : Outcome (ℤ × Bytes)) → Keeps self (incremented key self o).0
unfolding incremented put
incremented-Keeps key self (ok (n, rest)) = refl
incremented-Keeps key self (err e) = refl
incremented-Keeps key self panic = refl
incremented-Keeps key self out_of_fuel = refl

incr-Keeps : (key : Key) (self : Store) → Keeps self (incr key self).0
unfolding incr put
incr-Keeps key self = go (str_at key self)
  where
    go :
        (o : Option Bytes)
        → Keeps self
            (elim o as (λ x. Store × TryExecuteResult) [
              | some s ↦ incremented key self (integer_i64 s)
              | none ↦ (put key (str (decimal 1)) none self, done (integer (pos 1)))
            ]).0
    go none = refl
    go (some s) = incremented-Keeps key self (integer_i64 s)

track-IsValid :
    (d : ClientId) (keys : List Key) (self : Store) → IsValid self → IsValid (track d keys self)
unfolding stream_at
track-IsValid d keys self v = v

try_execute-write :
    (p : Platform) (now : ℕ) (d : ClientId) (cmd : Command) (key : Key) (self : Store)
    → IsValid self
    → IsAligned self
    → contains key (modified_keys cmd) ≡ true
    → (self' : Store) × (r : TryExecuteResult) × (try_execute p now d cmd self ≡ ok (self', r))
      × Keeps (track d (modified_keys cmd) self) self'
unfolding try_execute handle command_set put modified_keys contains
try_execute-write p now d (Command.set k value ex px) key self v a i = (_, _, refl, refl)
try_execute-write p now d (Command.incr k) key self v a i =
    (_, _, refl, incr-Keeps k (track d (k ∷ []) self))
try_execute-write p now d (Command.rpush k elements) key self v a i =
    (_, _, refl, rpush-Keeps k elements (track d (k ∷ []) self))
try_execute-write p now d (Command.lpush k elements) key self v a i =
    (_, _, refl, lpush-Keeps k elements (track d (k ∷ []) self))
try_execute-write p now d (Command.xadd k id fields) key self v a i =
    let marked = track d (k ∷ []) self in
    let (self', r, e, _, _, keeps) =
      xadd-IsValid now k id fields marked (track-IsValid d (k ∷ []) self v) a in
    (self', r, e, keeps)
try_execute-write p now d _ key self v a i = cc i

-- A client watches a key, and then another client executes a command that has the key among its
-- modified_keys, which are those of SET, INCR, RPUSH, LPUSH and XADD: it returns, and the first
-- client's EXEC then replies with a null array and executes none of its queue. In the store the ids
-- of every stream rise strictly and every blocked reader has an id for each of its keys.
pub try_execute-modified :
    (p : Platform) (now later : ℕ) (cmd : Command) (queue : List Command) (c d : ClientId)
    (key : Key) (self : Store)
    → c == d ≡ false
    → watches c key self.watched_keys ≡ true
    → IsValid self
    → IsAligned self
    → contains key (modified_keys cmd) ≡ true
    → (self' : Store) × (r : TryExecuteResult) × (try_execute p now d cmd self ≡ ok (self', r))
      × (try_execute p later c (Command.internal_execute_tx (commands queue)) self'
          ≡ ok (cleaned c self', done null_array))
try_execute-modified p now later cmd queue c d key self e h v a i =
    let (self', r, run, keeps) = try_execute-write p now d cmd key self v a i in
    let keys = modified_keys cmd in
    let first : watches c key self'.watched_keys ≡ true =
      rw keeps (keeps_modified c d key keys self.watched_keys h) in
    let second : watches d key self'.watched_keys ≡ true =
      rw keeps (joins_modified c d key keys self.watched_keys i h) in
    (
      self',
      r,
      run,
      try_execute-internal_execute_tx p later c queue self'
          ∙ refused (try_execute p later c) queue self' c d key e first second,
    )
