-- ===== src/Store/Streams/Ensured.antt =====
-- XADD: the stream that is made for a key without a value, and the entry that is put into it.
use rust_redis.Prelude.{
  ℕ, ◌≡◌, refl, ◌∙◌, Option, none, some, inl, inr, Bool-cases, List, [], ◌∷◌, ◌++◌, Bytes, arith,
  if◌then◌else◌, ◌⊎◌,
}
use rust_redis.Prelude.Keys.{bytes_eq, bytes_eq_iff, bytes_keys, nat_eq, lookup, lookup-insert}
use rust_redis.Parser.{ok}
use rust_redis.Resp.{bulk_string}
use rust_redis.Command.{Key}
use rust_redis.Store.{Store, Value, stream, StreamKey, RedisStream, done, stream_at, put, expire_at}
use rust_redis.Store.Streams.{id_text, ensured, inserted}
use rust_redis.Store.Streams.Entries.{stream_insert}
use rust_redis.Store.Streams.Rising.{IsRising, IsBelow, stream_insert-below}
use rust_redis.Store.Streams.Readers.{IsAligned, NoReader, notify-Served}

stream_at-put :
    (k key : Key) (s : RedisStream) (ex : Option ℕ) (self : Store)
    → stream_at key (put k (stream s) ex self)
      ≡ (if bytes_eq k key then some s else stream_at key self)
unfolding stream_at put
stream_at-put k key s ex self = rw lookup-insert (ground arith)

stream_at-entries :
    (key : Key) (self self' : Store)
    → self'.entries ≡ self.entries
    → stream_at key self' ≡ stream_at key self
unfolding stream_at
stream_at-entries key self self' e = rw e refl

-- The stream at a key, the empty one where there is no value.
abbrev pub RisingAt : Option RedisStream → Type 0
RisingAt none = Unit
RisingAt (some s) = IsRising s

-- The ids of every stream rise strictly.
abbrev pub IsValid : Store → Type 0
IsValid self = (key : Key) → RisingAt (stream_at key self)

pub put-IsValid :
    (key : Key) (s : RedisStream) (ex : Option ℕ) (self : Store)
    → IsRising s
    → IsValid self
    → IsValid (put key (stream s) ex self)
put-IsValid key s ex self r v k = elim (Bool-cases (bytes_eq key k)) [
  | inl same ↦ rw (stream_at-put key k s ex self, same) r
  | inr other ↦ rw (stream_at-put key k s ex self, other) (v k)
]

-- What an insertion leaves: it returns, and appends to the one stream.
pub record Appended (key : Key) (k : StreamKey) (v : List Bytes) (s : RedisStream)
    (self self' : Store) : Type 0 where
  pub streams_after :
      (j : Key)
      → stream_at j self' ≡ (if bytes_eq key j then some (s ++ (k, v) ∷ []) else stream_at j self)
  pub marks_after : self'.watched_keys ≡ self.watched_keys
  pub aligned : IsAligned self'
  pub no_reader : NoReader key self'

pub inserted-Appended :
    (key : Key) (k : StreamKey) (v : List Bytes) (s : RedisStream) (self : Store)
    → IsBelow s k
    → IsAligned self
    → (self' : Store) × (inserted key k v s self ≡ ok (self', done (bulk_string (id_text k))))
      × Appended key k v s self self'
unfolding inserted put
inserted-Appended key k v s self b a =
    let put_in = put key (stream (stream_insert k v s)) (expire_at key self) self in
    let (self', e, served) = notify-Served key put_in (unfold put in a) in
    (
      self',
      rw e refl,
      record {
        streams_after = λ j.
            stream_at-entries j put_in self' served.entries_kept
            ∙ (stream_at-put key j (stream_insert k v s) (expire_at key self) self
                ∙ rw (stream_insert-below k v s b) refl);
        marks_after = unfold put in served.marks_kept;
        aligned = served.aligned;
        no_reader = served.no_reader;
      },
    )

-- XADD works on the stream `s`: the one at the key, or a new one where the key has no value.
abbrev pub Holds : Key → RedisStream → Store → Type 0
Holds key s self = (stream_at key self ≡ some s) ⊎ ((lookup key self.entries ≡ none) × (s ≡ []))

ensured-none :
    (key : Key) (self : Store)
    → lookup key self.entries ≡ none
    → ensured key self ≡ put key (stream []) none self
unfolding ensured
ensured-none key self e = rw e refl

ensured-some :
    (key : Key) (v : Value) (self : Store)
    → lookup key self.entries ≡ some v
    → ensured key self ≡ self
unfolding ensured
ensured-some key v self e = rw e refl

ensured-found :
    (key : Key) (s : RedisStream) (self : Store)
    → stream_at key self ≡ some s
    → ensured key self ≡ self
unfolding stream_at
ensured-found key s self e = go (lookup key self.entries) refl
  where
    go : (o : Option Value) → lookup key self.entries ≡ o → ensured key self ≡ self
    go none n = let gone = rw n at e in cc
    go (some v) n = ensured-some key v self n

-- The value that is ensured changes no stream but that of the key.
pub ensured-Holds :
    (key : Key) (s : RedisStream) (self : Store)
    → Holds key s self
    → (j : Key)
    → stream_at j (ensured key self) ≡ (if bytes_eq key j then some s else stream_at j self)
ensured-Holds key s self (inl e) j =
    rw (ensured-found key s self e) (elim (Bool-cases (bytes_eq key j)) [
      | inl same ↦ rw (same, ← (bytes_eq_iff key j).0 same, e)
      | inr other ↦ rw other
    ])
ensured-Holds key s self (inr (n, nil)) j =
    rw (ensured-none key self n, nil) (stream_at-put key j [] none self)

pub ensured-here :
    (key : Key) (s : RedisStream) (self : Store)
    → Holds key s self
    → stream_at key (ensured key self) ≡ some s
ensured-here key s self h = ensured-Holds key s self h key ∙ rw ((bytes_eq_iff key key).1 refl) refl

pub ensured-IsAligned : (key : Key) (self : Store) → IsAligned self → IsAligned (ensured key self)
ensured-IsAligned key self a = go (lookup key self.entries) refl
  where
    go : (o : Option Value) → lookup key self.entries ≡ o → IsAligned (ensured key self)
    go none n = rw (ensured-none key self n) (unfold put in a)
    go (some v) n = rw (ensured-some key v self n) a

pub ensured-watched_keys :
    (key : Key) (self : Store) → (ensured key self).watched_keys ≡ self.watched_keys
unfolding ensured put
ensured-watched_keys key self = ground arith

pub ensured-IsValid : (key : Key) (self : Store) → IsValid self → IsValid (ensured key self)
ensured-IsValid key self v = go (lookup key self.entries) refl
  where
    go : (o : Option Value) → lookup key self.entries ≡ o → IsValid (ensured key self)
    go none n = rw (ensured-none key self n) (put-IsValid key [] none self tt v)
    go (some w) n = rw (ensured-some key w self n) v
