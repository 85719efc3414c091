-- ===== src/Store/Streams/Adds.antt =====
-- XADD: where the new entry goes, which ids are refused, and what it keeps.
use rust_redis.Prelude.{
  ℕ, ◌≡◌, refl, ◌∙◌, Bool, true, false, Option, none, some, inl, inr, Bool-cases, List, [], ◌∷◌,
  ◌++◌, Bytes, arith, if◌then◌else◌, ◌⊎◌,
}
use rust_redis.Prelude.Keys.{bytes_eq, bytes_keys, nat_eq}
use rust_redis.Parser.{Outcome, ok}
use rust_redis.Resp.{bulk_string}
use rust_redis.Command.{Key, XaddStreamIdInput}
use rust_redis.Store.{Store, StreamKey, RedisStream, TryExecuteResult, done, stream_at}
use rust_redis.Store.Streams.{
  id_text, refusal, ensured, checked, inserted, xadd_to, xadd, too_small_id, not_above_top,
}
use rust_redis.Store.Streams.Entries.{key_ltb, next_stream_id}
use rust_redis.Store.Streams.Rising.{
  IsRising, IsBelow, append-IsRising, refusal-none, refusal-IsBelow,
}
use rust_redis.Store.Streams.Readers.{IsAligned, NoReader}
use rust_redis.Store.Streams.Ensured.{
  RisingAt, IsValid, Appended, inserted-Appended, Holds, ensured-Holds, ensured-here,
  ensured-IsAligned, ensured-watched_keys, ensured-IsValid,
}

xadd_to-id :
    (now : ℕ) (key : Key) (id : XaddStreamIdInput) (v : List Bytes) (s : RedisStream)
    (k : StreamKey) (self : Store)
    → next_stream_id now id s ≡ some k
    → xadd_to now key id v self (some s) ≡ checked key k v s self (refusal k s)
unfolding xadd_to
xadd_to-id now key id v s k self e = rw (e, xadd_to)

xadd-ensured :
    (now : ℕ) (key : Key) (id : XaddStreamIdInput) (v : List Bytes) (s : RedisStream) (self : Store)
    → Holds key s self
    → xadd now key id v self ≡ xadd_to now key id v (ensured key self) (some s)
unfolding xadd
xadd-ensured now key id v s self h = rw (ensured-here key s self h, xadd)

module _ (now : ℕ) (key : Key) (id : XaddStreamIdInput) (v : List Bytes) (s : RedisStream)
    (k : StreamKey) (self : Store) (h : Holds key s self)
    (e : next_stream_id now id s ≡ some k) where
  xadd-checked : xadd now key id v self ≡ checked key k v s (ensured key self) (refusal k s)
  xadd-checked =
      xadd-ensured now key id v s self h ∙ xadd_to-id now key id v s k (ensured key self) e

checked-none :
    (key : Key) (k : StreamKey) (v : List Bytes) (s : RedisStream) (self : Store)
    → checked key k v s self none ≡ inserted key k v s self
unfolding checked
checked-none key k v s self = refl

if_same :
    (b : Bool) (o p q r : Option RedisStream)
    → r ≡ (if b then p else q)
    → (if b then o else r) ≡ (if b then o else q)
if_same true o p q r e = refl
if_same false o p q r e = e

-- XADD with an id that is above 0-0 and above every id of the stream appends the entry to the
-- stream of its key, a new one where the key has no value, and changes no other stream; it replies
-- with the id, and no client is left waiting for the key. Every blocked reader has an id for each of
-- its keys.
pub xadd-appends :
    (now : ℕ) (key : Key) (id : XaddStreamIdInput) (v : List Bytes) (s : RedisStream)
    (k : StreamKey) (self : Store)
    → Holds key s self
    → next_stream_id now id s ≡ some k
    → key_ltb (0, 0) k ≡ true
    → IsBelow s k
    → IsAligned self
    → (self' : Store) × (xadd now key id v self ≡ ok (self', done (bulk_string (id_text k))))
      × ((j : Key)
          → stream_at j self'
            ≡ (if bytes_eq key j then some (s ++ (k, v) ∷ []) else stream_at j self))
      × NoReader key self'
xadd-appends now key id v s k self h e z b a =
    let base = ensured key self in
    let (self', r, done_) = inserted-Appended key k v s base b (ensured-IsAligned key self a) in
    (
      self',
      rw (xadd-checked now key id v s k self h e, refusal-none k s z b)
          (checked-none key k v s base ∙ r),
      λ j.
          done_.streams_after j
          ∙ if_same (bytes_eq key j) (some (s ++ (k, v) ∷ [])) (some s) (stream_at j self)
              (stream_at j base) (ensured-Holds key s self h j),
      done_.no_reader,
    )

refusal-cases :
    (k : StreamKey) (s : RedisStream) (refused : TryExecuteResult)
    → refusal k s ≡ some refused
    → (refused ≡ too_small_id) ⊎ (refused ≡ not_above_top)
unfolding refusal
refusal-cases k s refused e = ground arith

-- On streams whose ids rise, XADD with an id that is not above 0-0 or not above every id of the
-- stream replies with an error; every stream stays, but for an empty one at a key without a value.
pub xadd-refuses :
    (now : ℕ) (key : Key) (id : XaddStreamIdInput) (v : List Bytes) (s : RedisStream)
    (k : StreamKey) (self : Store)
    → Holds key s self
    → IsRising s
    → next_stream_id now id s ≡ some k
    → ¬ ((key_ltb (0, 0) k ≡ true) × IsBelow s k)
    → (refused : TryExecuteResult) × ((refused ≡ too_small_id) ⊎ (refused ≡ not_above_top))
      × (xadd now key id v self ≡ ok (ensured key self, refused))
      × ((j : Key)
          → stream_at j (ensured key self) ≡ (if bytes_eq key j then some s else stream_at j self))
unfolding checked
xadd-refuses now key id v s k self h r e bad = go (refusal k s) refl
  where
    go :
        (o : Option TryExecuteResult)
        → refusal k s ≡ o
        → (refused : TryExecuteResult) × ((refused ≡ too_small_id) ⊎ (refused ≡ not_above_top))
          × (xadd now key id v self ≡ ok (ensured key self, refused))
          × ((j : Key)
              → stream_at j (ensured key self)
                ≡ (if bytes_eq key j then some s else stream_at j self))
    go none n = absurd (bad (refusal-IsBelow k s r n))
    go (some refused) n = (
      refused,
      refusal-cases k s refused n,
      rw (xadd-checked now key id v s k self h e, n) refl,
      ensured-Holds key s self h,
    )

-- The call returns, with a store that is valid still and has the marks on the watched keys that it
-- had.
abbrev pub Kept : Store → Outcome (Store × TryExecuteResult) → Type 0
Kept self m =
    (self' : Store) × (r : TryExecuteResult) × (m ≡ ok (self', r))
    × IsValid self'
    × IsAligned self'
    × (self'.watched_keys ≡ self.watched_keys)

Appended-IsValid :
    (key : Key) (k : StreamKey) (v : List Bytes) (s : RedisStream) (self self' : Store)
    → IsRising s
    → IsBelow s k
    → IsValid self
    → Appended key k v s self self'
    → IsValid self'
Appended-IsValid key k v s self self' r b w appended j = elim (Bool-cases (bytes_eq key j)) [
  | inl same ↦ rw (appended.streams_after j, same) (append-IsRising k v s r b)
  | inr other ↦ rw (appended.streams_after j, other) (w j)
]

xadd_to-Kept :
    (now : ℕ) (key : Key) (id : XaddStreamIdInput) (v : List Bytes) (self : Store)
    → IsValid self
    → IsAligned self
    → Kept self (xadd_to now key id v self (stream_at key self))
unfolding xadd_to
xadd_to-Kept now key id v self w a = found (stream_at key self) (w key)
  where
    made :
        (s : RedisStream) (k : StreamKey) (o : Option TryExecuteResult)
        → IsRising s
        → refusal k s ≡ o
        → Kept self (checked key k v s self o)
    made s k (some refused) r e = (self, refused, refl, w, a, refl)
    made s k none r e =
        let b = (refusal-IsBelow k s r e).1 in
        let (self', q, appended) = inserted-Appended key k v s self b a in
        (
          self',
          done (bulk_string (id_text k)),
          q,
          Appended-IsValid key k v s self self' r b w appended,
          appended.aligned,
          appended.marks_after,
        )

    resolved :
        (s : RedisStream) (o : Option StreamKey)
        → IsRising s
        → next_stream_id now id s ≡ o
        → Kept self (xadd_to now key id v self (some s))
    resolved s none r e = (self, too_small_id, rw (e, xadd_to), w, a, refl)
    resolved s (some k) r e =
        rw (xadd_to-id now key id v s k self e) (made s k (refusal k s) r refl)

    found : (o : Option RedisStream) → RisingAt o → Kept self (xadd_to now key id v self o)
    found none r = (self, _, refl, w, a, refl)
    found (some s) r = resolved s (next_stream_id now id s) r refl

-- XADD, whatever id and fields it is given, returns on a store in which the ids of every stream rise
-- strictly and every blocked reader has an id for each of its keys, and leaves the store so, with the
-- marks on the watched keys as they were.
pub xadd-IsValid :
    (now : ℕ) (key : Key) (id : XaddStreamIdInput) (v : List Bytes) (self : Store)
    → IsValid self
    → IsAligned self
    → Kept self (xadd now key id v self)
unfolding xadd
xadd-IsValid now key id v self w a =
    let (self', r, e, w', a', marks) =
      xadd_to-Kept now key id v (ensured key self) (ensured-IsValid key self w)
        (ensured-IsAligned key self a) in
    (self', r, e, w', a', marks ∙ ensured-watched_keys key self)
