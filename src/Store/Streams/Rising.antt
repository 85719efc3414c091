-- ===== src/Store/Streams/Rising.antt =====
-- The entries of a stream as a list by rising id: what an insertion at the end does.
use rust_redis.Prelude.{◌≡◌, refl, true, false, none, List, [], ◌∷◌, ◌++◌, Bytes, arith, All}
use rust_redis.Store.{StreamKey, RedisStream}
use rust_redis.Store.Streams.{below_latest, refusal}
use rust_redis.Store.Streams.Entries.{key_ltb, key_eq, last_key, contains_key, stream_insert}

-- The ids rise strictly.
abbrev pub IsRising : RedisStream → Type 0
IsRising [] = Unit
IsRising ((k, v) ∷ s) = All (λ (e : StreamKey × List Bytes). key_ltb k e.0 ≡ true) s × IsRising s

-- Every id of the stream is below `k`.
abbrev pub IsBelow : RedisStream → StreamKey → Type 0
IsBelow s k = All (λ (e : StreamKey × List Bytes). key_ltb e.0 k ≡ true) s

pub key_ltb_trans :
    (i j k : StreamKey) → key_ltb i j ≡ true → key_ltb j k ≡ true → key_ltb i k ≡ true
unfolding key_ltb
key_ltb_trans (a, b) (c, d) (e, f) h k = ground arith

pub key_ltb_asym : (i j : StreamKey) → key_ltb i j ≡ true → key_ltb j i ≡ false
unfolding key_ltb
key_ltb_asym (a, b) (c, d) h = ground arith

pub key_ltb_ne : (i j : StreamKey) → key_ltb i j ≡ true → key_eq i j ≡ false
unfolding key_ltb
key_ltb_ne (a, b) (c, d) h = ground arith

key_ltb_total : (i j : StreamKey) → key_ltb i j ≡ false → key_eq j i ≡ false → key_ltb j i ≡ true
unfolding key_ltb
key_ltb_total (a, b) (c, d) h k = ground arith

pub stream_insert-below :
    (k : StreamKey) (v : List Bytes) (s : RedisStream)
    → IsBelow s k
    → stream_insert k v s ≡ s ++ (k, v) ∷ []
unfolding stream_insert
stream_insert-below k v [] b = refl
stream_insert-below k v ((j, w) ∷ s) b =
    rw (key_ltb_ne j k b.0, key_ltb_asym j k b.0, stream_insert-below k v s b.1)

All-adjoined :
    (j k : StreamKey) (v : List Bytes) (s : RedisStream)
    → key_ltb j k ≡ true
    → All (λ (e : StreamKey × List Bytes). key_ltb j e.0 ≡ true) s
    → All (λ (e : StreamKey × List Bytes). key_ltb j e.0 ≡ true) (s ++ (k, v) ∷ [])
All-adjoined j k v [] h a = (h, tt)
All-adjoined j k v (e ∷ s) h a = (a.0, All-adjoined j k v s h a.1)

pub append-IsRising :
    (k : StreamKey) (v : List Bytes) (s : RedisStream)
    → IsRising s
    → IsBelow s k
    → IsRising (s ++ (k, v) ∷ [])
append-IsRising k v [] r b = (tt, tt)
append-IsRising k v ((j, w) ∷ s) r b = (All-adjoined j k v s b.0 r.0, append-IsRising k v s r.1 b.1)

-- The last id is the greatest: a stream is below what is not below its last id, and not in it.
pub IsBelow-last :
    (k : StreamKey) (s : RedisStream)
    → IsRising s
    → below_latest k (last_key s) ≡ false
    → contains_key k s ≡ false
    → IsBelow s k
unfolding last_key contains_key
IsBelow-last k [] r h c = tt
IsBelow-last k ((j, v) ∷ []) r h c = (key_ltb_total k j h (ground arith), tt)
IsBelow-last k ((j, v) ∷ (i, w) ∷ s) r h c =
    let rest = IsBelow-last k ((i, w) ∷ s) r.1 h (ground arith) in
    (key_ltb_trans j i k r.0.0 rest.0, rest)

above_last :
    (k : StreamKey) (s : RedisStream)
    → IsBelow s k
    → (below_latest k (last_key s) ≡ false) × (contains_key k s ≡ false)
unfolding last_key contains_key
above_last k [] b = (refl, refl)
above_last k ((j, v) ∷ []) b = (key_ltb_asym j k b.0, ground (arith, key_ltb_ne j k b.0))
above_last k ((j, v) ∷ (i, w) ∷ s) b =
    let rest = above_last k ((i, w) ∷ s) b.1 in (rest.0, rw (key_ltb_ne j k b.0) rest.1)

least : (k : StreamKey) → key_ltb (0, 0) k ≡ true → key_ltb k (0, 1) ≡ false
unfolding key_ltb
least (t, u) z = ground arith

-- The checks of XADD let through what is above 0-0 and above the whole stream.
pub refusal-none :
    (k : StreamKey) (s : RedisStream) → key_ltb (0, 0) k ≡ true → IsBelow s k → refusal k s ≡ none
unfolding refusal
refusal-none k s z b = let top = above_last k s b in rw (least k z, top.1, top.0)

nonzero : (k : StreamKey) → key_ltb k (0, 1) ≡ false → key_ltb (0, 0) k ≡ true
unfolding key_ltb
nonzero (t, u) z = ground arith

pub refusal-IsBelow :
    (k : StreamKey) (s : RedisStream)
    → IsRising s
    → refusal k s ≡ none
    → (key_ltb (0, 0) k ≡ true) × IsBelow s k
unfolding refusal
refusal-IsBelow k s r h =
    (nonzero k (ground arith), IsBelow-last k s r (ground arith) (ground arith))
