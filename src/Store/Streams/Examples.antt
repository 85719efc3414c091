-- ===== src/Store/Streams/Examples.antt =====
-- The theorems on the streams of src/main.rs at concrete stores.
use rust_redis.Prelude.{
  ◌+◌, ◌<◌, u64_mod, ◌≡◌, refl, true, false, none, some, List, [], ◌∷◌, ◌++◌, Bytes, codes, inl,
  if◌then◌else◌, arith, ◌&&◌, ◌⊎◌,
}
use rust_redis.Prelude.Keys.{bytes_eq, bytes_keys, nat_eq, lookup, insert}
use rust_redis.Parser.{ok, panic}
use rust_redis.Resp.{array, vec, bulk_string}
use rust_redis.Command.{Key, explicit, auto_gen_seq, augo_gen, dollar_id}
use rust_redis.Store.{
  Store, empty, StreamKey, RedisStream, stream, done, stream_at, put, TryExecuteResult,
}
use rust_redis.Store.Streams.{
  id_text, rows, stream_row, is_nil, fetch_xread, xadd, xrange, real_ids, latest_of, ensured,
  too_small_id, not_above_top,
}
use rust_redis.Store.Streams.Entries.{key_ltb, last_key, next_stream_id}
use rust_redis.Store.Streams.Rising.{IsRising, IsBelow}
use rust_redis.Store.Streams.Readers.{IsAligned, NoReader}
use rust_redis.Store.Streams.Ensured.{IsValid, put-IsValid}
use rust_redis.Store.Streams.Adds.{Kept, xadd-appends, xadd-refuses, xadd-IsValid}
use rust_redis.Store.Streams.Ids.{next_stream_id-IsBelow}
use rust_redis.Store.Streams.Ranges.{xrange-xread, xrange-panics}

abbrev log : Key
log = codes "log"

abbrev entry : List Bytes
entry = codes "level" ∷ codes "info" ∷ []

abbrev two_entries : RedisStream
two_entries = ((5, 0), entry) ∷ ((5, 1), entry) ∷ []

two_entries-IsRising : IsRising two_entries
unfolding key_ltb
two_entries-IsRising = ((refl, tt), (tt, tt))

-- A store with one stream, and a client that waits for it.
abbrev logged : Store
logged = record (put log (stream two_entries) none (empty false)) {
  stream_xread_waiters = (4, (9, log ∷ [], (5, 1) ∷ [])) ∷ [];
}

logged_stream : stream_at log logged ≡ some two_entries
unfolding stream_at put lookup insert bytes_eq
logged_stream = refl

logged-IsAligned : IsAligned logged
unfolding lookup
logged-IsAligned id channel keys ids e = ground arith

empty-IsValid : IsValid (empty false)
unfolding stream_at lookup
empty-IsValid key = tt

logged-IsValid : IsValid logged
unfolding stream_at
logged-IsValid = put-IsValid log two_entries none (empty false) two_entries-IsRising empty-IsValid

xadd-appends_example :
    (self' : Store) × (xadd 7 log (auto_gen_seq 5) entry logged
      ≡ ok (self', done (bulk_string (id_text (5, 2)))))
    × ((j : Key)
        → stream_at j self' ≡ (
            if bytes_eq log j
            then some (two_entries ++ ((5, 2), entry) ∷ [])
            else stream_at j logged))
    × NoReader log self'
unfolding next_stream_id key_ltb
xadd-appends_example =
    xadd-appends 7 log (auto_gen_seq 5) entry two_entries (5, 2) logged (inl logged_stream) refl
      refl (refl, (refl, tt)) logged-IsAligned

-- An explicit id that is not above the last one.
old_id : ¬ ((key_ltb (0, 0) (5, 1) ≡ true) × IsBelow two_entries (5, 1))
unfolding key_ltb
old_id (z, (first, (second, end))) = cc second

xadd-refuses_example :
    (refused : TryExecuteResult) × ((refused ≡ too_small_id) ⊎ (refused ≡ not_above_top))
    × (xadd 7 log (explicit 5 1) entry logged ≡ ok (ensured log logged, refused))
    × ((j : Key)
        → stream_at j (ensured log logged)
          ≡ (if bytes_eq log j then some two_entries else stream_at j logged))
unfolding next_stream_id
xadd-refuses_example =
    xadd-refuses 7 log (explicit 5 1) entry two_entries (5, 1) logged (inl logged_stream)
      two_entries-IsRising refl old_id

xadd-IsValid_example : Kept logged (xadd 7 log augo_gen entry logged)
xadd-IsValid_example = xadd-IsValid 7 log augo_gen entry logged logged-IsValid logged-IsAligned

last_sid : (l : StreamKey) → last_key two_entries ≡ some l → l.1 + 1 < u64_mod
unfolding last_key
last_sid (t, u) e = ground arith

next_stream_id-IsBelow_example : IsBelow two_entries (6, 0)
unfolding next_stream_id
next_stream_id-IsBelow_example =
    next_stream_id-IsBelow 6 augo_gen two_entries (6, 0) tt two_entries-IsRising last_sid refl

xrange-xread_example :
    (p : RedisStream) × (q : RedisStream) × (xrange (λ key. key) log (0, 1) (5, 0) logged
      ≡ ok (logged, done (array (vec (rows p)))))
    × (fetch_xread (log ∷ []) ((5, 0) ∷ []) logged ≡ ok (stream_row log q ∷ [], is_nil q && true))
    × (p ++ q ≡ two_entries)
unfolding key_ltb
xrange-xread_example =
    xrange-xread (λ key. key) log (0, 1) (5, 0) two_entries logged logged_stream
      two_entries-IsRising (refl, (refl, tt)) refl

-- XRANGE with an end below its start.
backward_range : xrange (λ key. key) log (9, 0) (5, 0) logged ≡ panic
unfolding key_ltb
backward_range =
    xrange-panics (λ key. key) log (9, 0) (5, 0) two_entries logged logged_stream refl refl

-- `$` on a key without a stream stands for 0-1, so the first entry 0-1 is not read.
dollar_skips : real_ids (dollar_id ∷ []) (log ∷ []) (empty false) ≡ ok ((0, 1) ∷ [])
unfolding real_ids latest_of stream_at lookup
dollar_skips = refl

-- A client that waits for ids above 9-0 is answered by the entry 5-2, with no rows.
answered_early : fetch_xread (log ∷ []) ((9, 0) ∷ []) logged ≡ ok (stream_row log [] ∷ [], true)
unfolding fetch_xread stream_at put lookup insert bytes_eq
answered_early = refl
