-- ===== src/Store/Streams/Ranges.antt =====
-- XRANGE and XREAD: the ranges of ids that they read.
use rust_redis.Prelude.{
  ◌≡◌, refl, ap, true, false, ◌&&◌, inl, inr, Bool-cases, some, List, [], ◌∷◌, ◌++◌, Bytes, arith,
  All,
}
use rust_redis.Parser.{ok, panic}
use rust_redis.Resp.{array, vec}
use rust_redis.Command.{Key}
use rust_redis.Store.{Store, StreamKey, RedisStream, done, stream_at}
use rust_redis.Store.Streams.{rows, stream_row, is_nil, fetch_xread, xrange}
use rust_redis.Store.Streams.Entries.{key_ltb, after, between}
use rust_redis.Store.Streams.Rising.{IsRising, key_ltb_trans}

-- No id of the stream is below `start`.
abbrev pub StartsAt : StreamKey → RedisStream → Type 0
StartsAt start s = All (λ (e : StreamKey × List Bytes). key_ltb e.0 start ≡ false) s

abbrev IsAbove : StreamKey → RedisStream → Type 0
IsAbove k s = All (λ (e : StreamKey × List Bytes). key_ltb k e.0 ≡ true) s

IsAbove-trans : (i j : StreamKey) (s : RedisStream) → key_ltb i j ≡ true → IsAbove j s → IsAbove i s
IsAbove-trans i j [] h a = tt
IsAbove-trans i j ((k, v) ∷ s) h a = (key_ltb_trans i j k h a.0, IsAbove-trans i j s h a.1)

between-above : (start k : StreamKey) (s : RedisStream) → IsAbove k s → between start k s ≡ []
unfolding between
between-above start k [] a = refl
between-above start k ((j, v) ∷ s) a = ground (arith, between-above start k s a.1, a.0)

after-above : (k : StreamKey) (s : RedisStream) → IsAbove k s → after k s ≡ s
unfolding after
after-above k [] a = refl
after-above k ((j, v) ∷ s) a = rw (a.0, after-above k s a.1)

between-after :
    (start k : StreamKey) (s : RedisStream)
    → IsRising s
    → StartsAt start s
    → between start k s ++ after k s ≡ s
unfolding between after
between-after start k [] r f = refl
between-after start k ((j, v) ∷ s) r f = elim (Bool-cases (key_ltb k j)) [
  | inl above ↦
      let rest = IsAbove-trans k j s above r.0 in
      rw (f.0, above, between-above start k s rest, after-above k s rest)
  | inr upto ↦
      rw (f.0, upto) (ap (λ (t : RedisStream). (j, v) ∷ t) (between-after start k s r.1 f.1))
]

-- On a stream whose ids rise, XRANGE up to an id and XREAD from that id split the stream: what the
-- one replies, followed by what the other does, is every entry, in order and once. The range starts
-- at or below the first entry, and does not end below its start.
pub xrange-xread :
    (debug : Key → Bytes) (key : Key) (start k : StreamKey) (s : RedisStream) (self : Store)
    → stream_at key self ≡ some s
    → IsRising s
    → StartsAt start s
    → key_ltb k start ≡ false
    → (p : RedisStream) × (q : RedisStream) × (xrange debug key start k self
        ≡ ok (self, done (array (vec (rows p)))))
      × (fetch_xread (key ∷ []) (k ∷ []) self ≡ ok (stream_row key q ∷ [], is_nil q && true))
      × (p ++ q ≡ s)
unfolding xrange fetch_xread
xrange-xread debug key start k s self e r f h = (
  between start k s,
  after k s,
  rw (e, xrange) (rw h refl),
  rw (e, fetch_xread),
  between-after start k s r f,
)

-- XRANGE with an end below its start panics, and takes the store's task down with it, if the key
-- holds a stream that is not empty: so does `BTreeMap::range`.
pub xrange-panics :
    (debug : Key → Bytes) (key : Key) (start k : StreamKey) (s : RedisStream) (self : Store)
    → stream_at key self ≡ some s
    → is_nil s ≡ false
    → key_ltb k start ≡ true
    → xrange debug key start k self ≡ panic
unfolding xrange
xrange-panics debug key start k s self e full h = rw (e, xrange) (rw (h, full) refl)
