-- ===== src/Store/Streams/Readers.antt =====
-- src/main.rs: the clients that XREAD blocks, and what a notification leaves of them.
use rust_redis.Prelude.{
  ◌≤◌, ◌≡◌, refl, ◌∙◌, true, false, ◌&&◌, Option, none, some, inl, inr, Bool-cases, List, [], ◌∷◌,
  arith, ◌==◌, ==_iff, if◌then◌else◌, length,
}
use rust_redis.Prelude.Keys.{Dict, bytes_keys, nat_eq, lookup, remove, lookup-remove}
use rust_redis.Parser.{Outcome, ok}
use rust_redis.Command.{Key}
use rust_redis.Store.{Store, StreamKey, RedisStream, Channel, WaiterId, stream_at}
use rust_redis.Store.Lists.{contains}
use rust_redis.Store.Lists.Blocking.{mem}
use rust_redis.Store.Streams.{
  is_nil, stream_row, fetch_xread, interested_readers, with_readers, answered, notify_reader,
  readers_loop, notify_xread_waiters,
}
use rust_redis.Store.Streams.Entries.{after}

-- Every blocked reader has an id for each of its keys.
abbrev pub IsAligned : Store → Type 0
IsAligned self =
    (id : WaiterId) (channel : Channel) (keys : List Key) (ids : List StreamKey)
    → lookup id self.stream_xread_waiters ≡ some (channel, keys, ids)
    → length keys ≤ length ids

-- The outcome is a value.
abbrev pub Returns {ℓ} : {A : Type ℓ} → Outcome A → Type ℓ
Returns {A = A} m = (a : A) × (m ≡ ok a)

pub fetch_xread-Returns :
    (keys : List Key) (ids : List StreamKey) (self : Store)
    → length keys ≤ length ids
    → Returns (fetch_xread keys ids self)
unfolding fetch_xread
fetch_xread-Returns [] ids self h = (_, refl)
fetch_xread-Returns (key ∷ keys) [] self h = absurd (omega arith)
fetch_xread-Returns (key ∷ keys) (id ∷ ids) self h =
    go (stream_at key self) refl (fetch_xread-Returns keys ids self (omega arith))
  where
    go :
        (o : Option RedisStream)
        → stream_at key self ≡ o
        → Returns (fetch_xread keys ids self)
        → Returns (fetch_xread (key ∷ keys) (id ∷ ids) self)
    go none e (a, r) = (a, rw (e, fetch_xread, r))
    go (some s) e (a, r) =
        ((stream_row key (after id s) ∷ a.0, is_nil (after id s) && a.1), rw (e, fetch_xread, r))

-- What the rounds for the waiters `ids` do: they return, take these waiters out of the table and
-- leave the data and the marks on the watched keys as they were.
record Notified (self self' : Store) (ids : List WaiterId) : Type 0 where
  pub entries_kept : self'.entries ≡ self.entries
  pub marks_kept : self'.watched_keys ≡ self.watched_keys
  pub waiters_left :
      (id : WaiterId)
      → lookup id self'.stream_xread_waiters
        ≡ (if mem id ids then none else lookup id self.stream_xread_waiters)

abbrev OneLeft : WaiterId → Store → Store → Type 0
OneLeft w self self' =
    (self'.entries ≡ self.entries)
    × (self'.watched_keys ≡ self.watched_keys)
    × ((id : WaiterId)
        → lookup id self'.stream_xread_waiters
          ≡ (if w == id then none else lookup id self.stream_xread_waiters))

round :
    (w : WaiterId) (self : Store)
    → IsAligned self
    → (self' : Store) × (notify_reader w self ≡ ok self') × OneLeft w self self'
unfolding notify_reader
round w self a = go (lookup w self.stream_xread_waiters) refl
  where
    go :
        (o : Option (Channel × List Key × List StreamKey))
        → lookup w self.stream_xread_waiters ≡ o
        → (self' : Store) × (notify_reader w self ≡ ok self') × OneLeft w self self'
    go none e = (
      self,
      rw (e, notify_reader),
      (
        refl,
        refl,
        λ id. elim (Bool-cases (w == id)) [
          | inl same ↦ rw (same, ← (==_iff w id).0 same, e)
          | inr other ↦ rw other
        ],
      ),
    )
    go (some (channel, keys, ids)) e =
        let removed = with_readers self (remove w self.stream_xread_waiters) in
        let (found, r) = fetch_xread-Returns keys ids removed (a w channel keys ids e) in
        (
          answered channel removed found,
          rw (e, notify_reader, r),
          (refl, refl, λ id. lookup-remove w id self.stream_xread_waiters),
        )

IsAligned-round :
    (w : WaiterId) (self self' : Store) → OneLeft w self self' → IsAligned self → IsAligned self'
IsAligned-round w self self' (_, _, left) a id channel keys ids e =
    a id channel keys ids (ground (arith, left id, e))

readers_loop-Notified :
    (ws : List WaiterId) (self : Store)
    → IsAligned self
    → (self' : Store) × (readers_loop ws self ≡ ok self') × IsAligned self' × Notified self self' ws
unfolding readers_loop mem
readers_loop-Notified [] self a =
    (self, refl, a, record { entries_kept = refl; marks_kept = refl; waiters_left = λ id. refl })
readers_loop-Notified (w ∷ ws) self a =
    let (first, e, left) = round w self a in
    let (last, e', a', rest) =
      readers_loop-Notified ws first (IsAligned-round w self first left a) in
    (
      last,
      rw (e, e'),
      a',
      record {
        entries_kept = rest.entries_kept ∙ left.0;
        marks_kept = rest.marks_kept ∙ left.1;
        waiters_left = λ id. ground (arith, rest.waiters_left id, left.2 id);
      },
    )

mem-interested_readers :
    (key : Key) (id : WaiterId) (channel : Channel) (keys : List Key) (ids : List StreamKey)
    (m : Dict WaiterId (Channel × List Key × List StreamKey))
    → lookup id m ≡ some (channel, keys, ids)
    → contains key keys ≡ true
    → mem id (interested_readers key m) ≡ true
unfolding interested_readers lookup mem
mem-interested_readers key id channel keys ids [] e c = cc
mem-interested_readers key id channel keys ids ((j, (ch, ks, is)) ∷ m) e c =
    ground (arith, ==_iff j id, mem-interested_readers key id channel keys ids m)

-- No reader waits for the key.
abbrev pub NoReader : Key → Store → Type 0
NoReader key self =
    (id : WaiterId) (channel : Channel) (keys : List Key) (ids : List StreamKey)
    → lookup id self.stream_xread_waiters ≡ some (channel, keys, ids)
    → contains key keys ≡ false

-- What a notification leaves.
pub record Served (key : Key) (self self' : Store) : Type 0 where
  pub entries_kept : self'.entries ≡ self.entries
  pub marks_kept : self'.watched_keys ≡ self.watched_keys
  pub aligned : IsAligned self'
  pub no_reader : NoReader key self'

pub notify-Served :
    (key : Key) (self : Store)
    → IsAligned self
    → (self' : Store) × (notify_xread_waiters key self ≡ ok self') × Served key self self'
unfolding notify_xread_waiters
notify-Served key self a =
    let ws = interested_readers key self.stream_xread_waiters in
    let (self', e, a', n) = readers_loop-Notified ws self a in
    (
      self',
      e,
      record {
        entries_kept = n.entries_kept;
        marks_kept = n.marks_kept;
        aligned = a';
        no_reader = λ id channel keys ids f. elim (Bool-cases (contains key keys)) [
          | inl waits ↦
              let left = n.waiters_left id in
              elim (Bool-cases (mem id ws)) [
                | inl tried ↦ let gone = rw tried at left in cc (gone, f)
                | inr untried ↦
                    let before = rw untried at left in
                    let tried =
                      mem-interested_readers key id channel keys ids self.stream_xread_waiters
                        (cc (before, f)) waits in
                    cc (tried, untried)
              ]
          | inr other ↦ other
        ];
      },
    )
