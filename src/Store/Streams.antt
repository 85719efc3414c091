-- ===== src/Store/Streams.antt =====
-- src/main.rs: XADD, XRANGE, XREAD and the clients that XREAD blocks.
pub mod Entries
pub mod Rising
pub mod Ensured
pub mod Adds
pub mod Ids
pub mod Ranges
pub mod Readers
pub mod Examples
use rust_redis.Prelude.{
  ℕ, suc, ◌+◌, ◌%◌, Bool, true, false, not, ◌&&◌, ◌||◌, Option, none, some, List, [], ◌∷◌, ◌++◌,
  Bytes, codes, ltb, ◌==◌, if◌then◌else◌, u64_mod,
}
use rust_redis.Prelude.Keys.{Dict, bytes_keys, nat_eq, lookup, insert, remove}
use rust_redis.Number.{decimal}
use rust_redis.Parser.{Outcome, ok, panic, ◌>>=◌}
use rust_redis.Resp.{Resp, bulk_string, simple_error, array, vec}
use rust_redis.Command.{
  Key, XaddStreamIdInput, explicit, auto_gen_seq, augo_gen, XreadStreamIdInput, dollar_id,
}
use rust_redis.Store.{
  Store, stream, StreamKey, RedisStream, TryExecuteResult, done, blocking_xread, Channel, WaiterId,
  Value, stream_at, expire_at, put,
}
use rust_redis.Store.Lists.{contains, bulks}
use rust_redis.Store.Streams.Entries.{
  key_ltb, key_eq, last_key, contains_key, stream_insert, next_sid, next_stream_id, after, between,
}

-- `format!("{}-{}", k.0, k.1)`
abbrev pub id_text : StreamKey → Bytes
id_text (tid, sid) = decimal tid ++ b'-' ∷ decimal sid

abbrev row : StreamKey × List Bytes → Resp
row (k, v) = array (vec (bulk_string (id_text k) ∷ array (vec (bulks v)) ∷ []))

abbrev pub rows : RedisStream → List Resp
rows [] = []
rows (e ∷ s) = row e ∷ rows s

abbrev pub is_nil : RedisStream → Bool
is_nil [] = true
is_nil (e ∷ s) = false

abbrev pub tail : List StreamKey → List StreamKey
tail [] = []
tail (id ∷ ids) = ids

abbrev pub stream_row : Key → RedisStream → Resp
stream_row key found = array (vec (bulk_string key ∷ array (vec (rows found)) ∷ []))

-- `fetch_xread`: a row for each key that holds a stream, and whether there was no entry. `ids[i]` is
-- the head of `ids`.
unfoldable pub fetch_xread : List Key → List StreamKey → Store → Outcome (List Resp × Bool)
unfolding after
fetch_xread [] ids self = ok ([], true)
fetch_xread (key ∷ keys) ids self =
    let rest = fetch_xread keys (tail ids) self in
    elim (stream_at key self) [
      | none ↦ rest
      | some s ↦ elim ids [
        | [] ↦ panic
        | id ∷ _ ↦ do
          (more, is_empty) ← rest
          ok (stream_row key (after id s) ∷ more, is_nil (after id s) && is_empty)
      ]
    ]

-- The waiters that wait for `key`, in the order of the table.
unfoldable pub interested_readers :
    Key → Dict WaiterId (Channel × List Key × List StreamKey) → List WaiterId
unfolding contains
interested_readers key [] = []
interested_readers key ((waiter_id, (channel, keys, ids)) ∷ waiters) =
    let rest = interested_readers key waiters in
    if contains key keys then waiter_id ∷ rest else rest

abbrev pub with_readers : Store → Dict WaiterId (Channel × List Key × List StreamKey) → Store
with_readers self m = record self { stream_xread_waiters = m }

abbrev pub answered : Channel → Store → List Resp × Bool → Store
answered channel self (rows, is_empty) = record self {
  sent = self.sent ++ (channel, array (vec rows)) ∷ [];
}

-- One round: the waiter is removed and gets the rows.
unfoldable pub notify_reader : WaiterId → Store → Outcome Store
unfolding fetch_xread
notify_reader waiter_id self = elim (lookup waiter_id self.stream_xread_waiters) [
  | none ↦ ok self
  | some (channel, keys, ids) ↦
      let removed = with_readers self (remove waiter_id self.stream_xread_waiters) in
      do found ← fetch_xread keys ids removed; ok (answered channel removed found)
]

unfoldable pub readers_loop : List WaiterId → Store → Outcome Store
unfolding notify_reader
readers_loop [] self = ok self
readers_loop (waiter_id ∷ waiters) self = do
  self' ← notify_reader waiter_id self
  readers_loop waiters self'

unfoldable pub notify_xread_waiters : Key → Store → Outcome Store
unfolding readers_loop interested_readers
notify_xread_waiters key self = readers_loop (interested_readers key self.stream_xread_waiters) self

abbrev pub too_small_id : TryExecuteResult
too_small_id = done (simple_error (codes "ERR The ID specified in XADD must be greater than 0-0"))

abbrev pub not_above_top : TryExecuteResult
not_above_top = done (
    simple_error
      (codes "ERR The ID specified in XADD is equal or smaller than the target stream top item"))

-- `if &(tid, sid) < latest`
abbrev pub below_latest : StreamKey → Option StreamKey → Bool
below_latest k none = false
below_latest k (some latest) = key_ltb k latest

-- The checks on the id, in their order.
unfoldable pub refusal : StreamKey → RedisStream → Option TryExecuteResult
unfolding key_ltb contains_key last_key
refusal k s =
    if key_ltb k (0, 1)
    then some too_small_id
    else if contains_key k s
    then some not_above_top
    else if below_latest k (last_key s)
    then some not_above_top
    else none

-- `entry(key).or_insert(…)`: there is a value for the key.
abbrev pub or_stream : Key → Store → Option Value → Store
or_stream key self (some v) = self
or_stream key self none = put key (stream []) none self

unfoldable pub ensured : Key → Store → Store
ensured key self = or_stream key self (lookup key self.entries)

unfoldable pub inserted :
    Key → StreamKey → List Bytes → RedisStream → Store → Outcome (Store × TryExecuteResult)
unfolding stream_insert notify_xread_waiters
inserted key k field_values s self = do
  self' ←
      notify_xread_waiters key
        (put key (stream (stream_insert k field_values s)) (expire_at key self) self)
  ok (self', done (bulk_string (id_text k)))

unfoldable pub checked :
    Key
    → StreamKey
    → List Bytes
    → RedisStream
    → Store
    → Option TryExecuteResult
    → Outcome (Store × TryExecuteResult)
unfolding inserted
checked key k field_values s self (some refused) = ok (self, refused)
checked key k field_values s self none = inserted key k field_values s self

unfoldable pub xadd_to :
    ℕ
    → Key
    → XaddStreamIdInput
    → List Bytes
    → Store
    → Option RedisStream
    → Outcome (Store × TryExecuteResult)
unfolding next_stream_id refusal checked
xadd_to now key id field_values self none =
    ok (self, done (simple_error (codes "ERR No stream found for given key")))
xadd_to now key id field_values self (some s) = elim (next_stream_id now id s) [
  | none ↦ ok (self, too_small_id)
  | some k ↦ checked key k field_values s self (refusal k s)
]

-- `Command::Xadd`
unfoldable pub xadd :
    ℕ → Key → XaddStreamIdInput → List Bytes → Store → Outcome (Store × TryExecuteResult)
unfolding ensured xadd_to
xadd now key id field_values self =
    let self' = ensured key self in xadd_to now key id field_values self' (stream_at key self')

-- `.unwrap_or((0, 1))`
unfoldable pub latest_of : Option RedisStream → StreamKey
unfolding last_key
latest_of none = (0, 1)
latest_of (some s) = elim (last_key s) [ some k ↦ k | none ↦ (0, 1) ]

abbrev drop_key : List Key → List Key
drop_key [] = []
drop_key (key ∷ keys) = keys

-- The loop that calculates the ids; `keys[i]` is the head of `keys`.
unfoldable pub real_ids : List XreadStreamIdInput → List Key → Store → Outcome (List StreamKey)
real_ids [] keys self = ok []
real_ids (explicit tid sid ∷ ids) keys self = do
  rest ← real_ids ids (drop_key keys) self
  ok ((tid, sid) ∷ rest)
real_ids (dollar_id ∷ ids) [] self = panic
real_ids (dollar_id ∷ ids) (key ∷ keys) self = do
  rest ← real_ids ids keys self
  ok (latest_of (stream_at key self) ∷ rest)

-- What `Command::Xread` does with the rows that it fetched.
abbrev pub xread_result :
    List Key → Option ℕ → List StreamKey → Store → List Resp × Bool → Store × TryExecuteResult
xread_result keys milliseconds ids self (rows, false) = (self, done (array (vec rows)))
xread_result keys none ids self (rows, true) = (self, done (array (vec [])))
xread_result keys (some ms) ids self (rows, true) =
    let waiter_id = (self.waiter_id + 1) % u64_mod in
    (record self { waiter_id = waiter_id }, blocking_xread waiter_id keys ids)

-- `Command::Xread`
unfoldable pub xread :
    List Key → Option ℕ → List XreadStreamIdInput → Store → Outcome (Store × TryExecuteResult)
unfolding real_ids fetch_xread
xread keys milliseconds ids self = do
  real ← real_ids ids keys self
  found ← fetch_xread keys real self
  ok (xread_result keys milliseconds real self found)

-- The message of the error for a key without a stream prints the key with `{:?}`, which is the
-- argument `debug`. `BTreeMap::range` panics where the end is below the start, unless the map is empty.
unfoldable pub xrange :
    (Key → Bytes) → Key → StreamKey → StreamKey → Store → Outcome (Store × TryExecuteResult)
unfolding between
xrange debug key start end self = elim (stream_at key self) [
  | none ↦ ok (self, done (simple_error (codes "Stream not found, XRANGE: " ++ debug key)))
  | some s ↦
      if key_ltb end start && not (is_nil s)
      then panic
      else ok (self, done (array (vec (rows (between start end s)))))
]
