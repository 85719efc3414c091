-- ===== src/Store/Watches/Members.antt =====
-- src/main.rs: who is in the set of clients at a watched key, after each change of the table.
use rust_redis.Prelude.{
  ◌≡◌, refl, ap, ◌∙◌, Bool, true, false, ◌||◌, Option, none, some, inl, inr, Bool-cases, List, [],
  ◌∷◌, arith, ◌==◌, ==_iff, if◌then◌else◌,
}
use rust_redis.Prelude.Keys.{bytes_eq, bytes_eq_iff, bytes_keys, lookup, insert, lookup-insert}
use rust_redis.Command.{Key}
use rust_redis.ClientSets.{ClientId, has, add, without, has_in, has-add, has-without}
use rust_redis.Store.Lists.{contains}
use rust_redis.Store.Watches.{Watched, modified_of, modified_loop, watched_of, retained, cleanup}

abbrev pub watches : ClientId → Key → Watched → Bool
watches c key m = has_in c (lookup key m)

watches-insert :
    (x c : ClientId) (k key : Key) (clients : List ClientId) (m : Watched)
    → watches x key (insert k (add c clients) m)
      ≡ (if bytes_eq k key then has x clients || c == x else watches x key m)
watches-insert x c k key clients m = elim (Bool-cases (bytes_eq k key)) [
  | inl same ↦ rw (lookup-insert k key (add c clients) m, same) (has-add x c clients)
  | inr other ↦ rw (lookup-insert k key (add c clients) m, other)
]

-- Who is at a key stays there, and the client of the command joins.
keeps_insert :
    (x c : ClientId) (k key : Key) (clients : List ClientId) (m : Watched)
    → lookup k m ≡ some clients
    → watches x key m ≡ true
    → watches x key (insert k (add c clients) m) ≡ true
keeps_insert x c k key clients m e h = elim (Bool-cases (bytes_eq k key)) [
  | inl same ↦
      let at_k : watches x k m ≡ true =
        ap (λ (j : Key). watches x j m) ((bytes_eq_iff k key).0 same) ∙ h in
      let there = rw e at at_k in rw (watches-insert x c k key clients m, same, there)
  | inr other ↦ rw (watches-insert x c k key clients m, other) h
]

joins_insert :
    (c : ClientId) (key : Key) (clients : List ClientId) (m : Watched)
    → watches c key (insert key (add c clients) m) ≡ true
joins_insert c key clients m =
    rw (watches-insert c c key key clients m, (bytes_eq_iff key key).1 refl)
      (ground (arith, ==_iff c c))

keeps_modified_of :
    (x c : ClientId) (k key : Key) (m : Watched) (o : Option (List ClientId))
    → lookup k m ≡ o
    → watches x key m ≡ true
    → watches x key (modified_of c k m o) ≡ true
keeps_modified_of x c k key m none e h = h
keeps_modified_of x c k key m (some clients) e h = keeps_insert x c k key clients m e h

joins_modified_of :
    (x c : ClientId) (key : Key) (m : Watched) (o : Option (List ClientId))
    → lookup key m ≡ o
    → watches x key m ≡ true
    → watches c key (modified_of c key m o) ≡ true
joins_modified_of x c key m none e h = let gone = rw e at h in cc
joins_modified_of x c key m (some clients) e h = joins_insert c key clients m

pub keeps_modified :
    (x c : ClientId) (key : Key) (keys : List Key) (m : Watched)
    → watches x key m ≡ true
    → watches x key (modified_loop c keys m) ≡ true
unfolding modified_loop
keeps_modified x c key [] m h = h
keeps_modified x c key (k ∷ keys) m h =
    keeps_modified x c key keys (modified_of c k m (lookup k m))
      (keeps_modified_of x c k key m (lookup k m) refl h)

pub joins_modified :
    (x c : ClientId) (key : Key) (keys : List Key) (m : Watched)
    → contains key keys ≡ true
    → watches x key m ≡ true
    → watches c key (modified_loop c keys m) ≡ true
unfolding modified_loop contains
joins_modified x c key [] m i h = cc
joins_modified x c key (k ∷ keys) m i h = elim (Bool-cases (bytes_eq k key)) [
  | inl same ↦ rw ((bytes_eq_iff k key).0 same) (
      keeps_modified c c key keys (modified_of c key m (lookup key m))
        (joins_modified_of x c key m (lookup key m) refl h))
  | inr other ↦
      joins_modified x c key keys (modified_of c k m (lookup k m)) (rw other at i)
        (keeps_modified_of x c k key m (lookup k m) refl h)
]

-- The same for one key of WATCH, whether anyone watched it or not.
pub keeps_watched_of :
    (x c : ClientId) (k key : Key) (m : Watched) (o : Option (List ClientId))
    → lookup k m ≡ o
    → watches x key m ≡ true
    → watches x key (watched_of c k m o) ≡ true
keeps_watched_of x c k key m (some clients) e h = keeps_insert x c k key clients m e h
keeps_watched_of x c k key m none e h = elim (Bool-cases (bytes_eq k key)) [
  | inl same ↦
      let at_k : watches x k m ≡ true =
        ap (λ (j : Key). watches x j m) ((bytes_eq_iff k key).0 same) ∙ h in
      let gone = rw e at at_k in cc
  | inr other ↦ rw (lookup-insert k key (c ∷ []) m, other) h
]

pub joins_watched_of :
    (c : ClientId) (key : Key) (m : Watched) (o : Option (List ClientId))
    → watches c key (watched_of c key m o) ≡ true
unfolding has
joins_watched_of c key m (some clients) = joins_insert c key clients m
joins_watched_of c key m none =
    rw (lookup-insert key key (c ∷ []) m, (bytes_eq_iff key key).1 refl)
      (ground (arith, ==_iff c c))

retained_same :
    (x : ClientId) (k key : Key) (clients : List ClientId) (m : Watched)
    → bytes_eq k key ≡ true
    → has x clients ≡ true
    → watches x key (retained k clients m) ≡ true
unfolding lookup has
retained_same x k key [] m same h = cc
retained_same x k key (c ∷ clients) m same h = rw same h

retained_other :
    (x : ClientId) (k key : Key) (clients : List ClientId) (m : Watched)
    → bytes_eq k key ≡ false
    → watches x key m ≡ true
    → watches x key (retained k clients m) ≡ true
unfolding lookup
retained_other x k key [] m other h = h
retained_other x k key (c ∷ clients) m other h = rw other h

-- The cleanup for one client keeps the others.
pub keeps_cleanup :
    (x c : ClientId) (key : Key) (m : Watched)
    → c == x ≡ false
    → watches x key m ≡ true
    → watches x key (cleanup c m) ≡ true
unfolding cleanup lookup
keeps_cleanup x c key [] e h = h
keeps_cleanup x c key ((k, clients) ∷ m) e h = elim (Bool-cases (bytes_eq k key)) [
  | inl same ↦
      retained_same x k key (without c clients) (cleanup c m) same
        (has-without x c clients e ∙ rw same at h)
  | inr other ↦
      retained_other x k key (without c clients) (cleanup c m) other
        (keeps_cleanup x c key m e (rw other at h))
]
