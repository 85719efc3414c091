-- ===== src/Store/Streams/Entries.antt =====
-- src/main.rs, src/command.rs: a stream as the list of its entries by rising key, which is what a
-- `BTreeMap` holds: its lookups, insertions and ranges, and `next_stream_id`.
use rust_redis.Prelude.{
  ℕ, ◌+◌, ◌%◌, Bool, false, ◌&&◌, ◌||◌, Option, none, some, List, [], ◌∷◌, Bytes, ltb, ◌==◌,
  if◌then◌else◌, u64_mod,
}
use rust_redis.Prelude.Keys.{bytes_keys, nat_eq}
use rust_redis.Command.{XaddStreamIdInput, explicit, auto_gen_seq, augo_gen}
use rust_redis.Store.{StreamKey, RedisStream}

-- The order of pairs: `(tid, sid) < latest`
unfoldable pub key_ltb : StreamKey → StreamKey → Bool
key_ltb (t, s) (u, r) = ltb t u || t == u && ltb s r

abbrev pub key_eq : StreamKey → StreamKey → Bool
key_eq (t, s) (u, r) = t == u && s == r

-- `stream.last_key_value()`, its key
unfoldable pub last_key : RedisStream → Option StreamKey
last_key [] = none
last_key ((k, v) ∷ []) = some k
last_key (_ ∷ e ∷ s) = last_key (e ∷ s)

-- `stream.contains_key(&k)`
unfoldable pub contains_key : StreamKey → RedisStream → Bool
contains_key k [] = false
contains_key k ((j, v) ∷ s) = key_eq j k || contains_key k s

-- `stream.insert(k, v)`
unfoldable pub stream_insert : StreamKey → List Bytes → RedisStream → RedisStream
stream_insert k v [] = (k, v) ∷ []
stream_insert k v ((j, w) ∷ s) =
    if key_eq j k
    then (k, v) ∷ s
    else if key_ltb k j
    then (k, v) ∷ (j, w) ∷ s
    else (j, w) ∷ stream_insert k v s

-- `orig_sid + 1`
abbrev pub next_sid : ℕ → ℕ
next_sid sid = (sid + 1) % u64_mod

-- `XaddStreamIdInput::AutoGenSeq(tid)`
abbrev next_seq : ℕ → Option StreamKey → Option StreamKey
next_seq tid none = if tid == 0 then some (tid, 1) else some (tid, 0)
next_seq tid (some (orig_tid, orig_sid)) =
    if ltb orig_tid tid
    then some (tid, 0)
    else if tid == orig_tid
    then some (tid, next_sid orig_sid)
    else none

-- `XaddStreamIdInput::AugoGen`, at the time `tid`
abbrev next_auto : ℕ → Option StreamKey → Option StreamKey
next_auto tid none = some (tid, 0)
next_auto tid (some (orig_tid, orig_sid)) =
    if ltb orig_tid tid
    then some (tid, 0)
    else if orig_tid == tid
    then some (tid, next_sid orig_sid)
    else none

-- `next_stream_id`
unfoldable pub next_stream_id : ℕ → XaddStreamIdInput → RedisStream → Option StreamKey
unfolding last_key
next_stream_id now (explicit tid sid) s = some (tid, sid)
next_stream_id now (auto_gen_seq tid) s = next_seq tid (last_key s)
next_stream_id now augo_gen s = next_auto now (last_key s)

-- `stream.range((Excluded(id), Unbounded))`
unfoldable pub after : StreamKey → RedisStream → RedisStream
unfolding key_ltb
after id [] = []
after id ((k, v) ∷ s) = let rest = after id s in if key_ltb id k then (k, v) ∷ rest else rest

-- `stream.range((Included(start), Included(end)))`, where it does not panic
unfoldable pub between : StreamKey → StreamKey → RedisStream → RedisStream
unfolding key_ltb
between start end [] = []
between start end ((k, v) ∷ s) =
    let rest = between start end s in
    if key_ltb k start then rest else if key_ltb end k then rest else (k, v) ∷ rest
