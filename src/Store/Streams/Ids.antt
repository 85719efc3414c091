-- ===== src/Store/Streams/Ids.antt =====
-- src/command.rs: the ids that `next_stream_id` generates.
use rust_redis.Prelude.{
  ℕ, ◌+◌, ◌<◌, ◌≡◌, refl, true, Option, none, some, List, [], ◌∷◌, Bytes, arith, u64_mod, ◌≢◌,
}
use rust_redis.Prelude.Keys.{bytes_keys, nat_eq}
use rust_redis.Command.{XaddStreamIdInput, explicit, auto_gen_seq, augo_gen}
use rust_redis.Store.{StreamKey, RedisStream}
use rust_redis.Store.Streams.Entries.{key_ltb, last_key, next_stream_id}
use rust_redis.Store.Streams.Rising.{IsRising, IsBelow, key_ltb_trans}

IsBelow-appended :
    (k l : StreamKey) (s : RedisStream)
    → IsRising s
    → last_key s ≡ some l
    → key_ltb l k ≡ true
    → IsBelow s k
unfolding last_key
IsBelow-appended k l [] r e h = tt
IsBelow-appended k l ((j, v) ∷ []) r e h = (cc (e, h), tt)
IsBelow-appended k l ((j, v) ∷ (i, w) ∷ s) r e h =
    let rest = IsBelow-appended k l ((i, w) ∷ s) r.1 e h in (key_ltb_trans j i k r.0.0 rest.0, rest)

-- The id was not given in full.
abbrev pub IsGenerated : XaddStreamIdInput → Type 0
IsGenerated (explicit tid sid) = ⊥
IsGenerated _ = Unit

IsBelow-empty : (k : StreamKey) (s : RedisStream) → last_key s ≡ none → IsBelow s k
unfolding last_key
IsBelow-empty k [] e = tt
IsBelow-empty k ((j, v) ∷ []) e = cc
IsBelow-empty k ((j, v) ∷ (i, w) ∷ s) e = absurd (no_last i w s e)
  where
    no_last : (i : StreamKey) (w : List Bytes) (s : RedisStream) → last_key ((i, w) ∷ s) ≢ none
    no_last i w [] e = cc
    no_last i w ((j, v) ∷ s) e = no_last j v s e

next_stream_id-above :
    (now : ℕ) (id : XaddStreamIdInput) (s : RedisStream) (k l : StreamKey)
    → IsGenerated id
    → last_key s ≡ some l
    → l.1 + 1 < u64_mod
    → next_stream_id now id s ≡ some k
    → key_ltb l k ≡ true
unfolding next_stream_id key_ltb
next_stream_id-above now (explicit tid sid) s k l g n h e = absurd g
next_stream_id-above now (auto_gen_seq tid) s (a, b) (t, u) g n h e =
    let e' = rw n at e in ground arith
next_stream_id-above now augo_gen s (a, b) (t, u) g n h e = let e' = rw n at e in ground arith

-- On a stream whose ids rise, an id that the store generates is above every id of the stream, unless
-- the sequence number of the last one is the greatest that 64 bits hold.
pub next_stream_id-IsBelow :
    (now : ℕ) (id : XaddStreamIdInput) (s : RedisStream) (k : StreamKey)
    → IsGenerated id
    → IsRising s
    → ((l : StreamKey) → last_key s ≡ some l → l.1 + 1 < u64_mod)
    → next_stream_id now id s ≡ some k
    → IsBelow s k
next_stream_id-IsBelow now id s k g r bound e = go (last_key s) refl
  where
    go : (o : Option StreamKey) → last_key s ≡ o → IsBelow s k
    go none n = IsBelow-empty k s n
    go (some l) n = IsBelow-appended k l s r n (next_stream_id-above now id s k l g n (bound l n) e)
