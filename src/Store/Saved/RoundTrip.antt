-- ===== src/Store/Saved/RoundTrip.antt =====
-- src/main.rs: the strings of a store through `to_rdb`, the file, and `from_rdb`.
use rust_redis.Prelude.{
  ℕ, ◌+◌, ◌^◌, ◌<◌, ◌≤◌, ◌≡◌, refl, ◌∙◌, Bool, true, Bool-cases, inl, inr, Option, none, some, [],
  ◌∷◌, arith, length, All, if◌then◌else◌,
}
use rust_redis.Prelude.Keys.{
  Dict, bytes_keys, bytes_eq, bytes_eq_iff, lookup, insert, lookup-insert,
}
use rust_redis.Parser.{ok}
use rust_redis.Command.{Key}
use rust_redis.Rdb.{Rdb, RdbString, set, deserialize, serialize}
use rust_redis.Rdb.Tables.{IsTable, insert-IsTable, length-insert, All-insert}
use rust_redis.Rdb.Entries.{IsStorable, FitsTime}
use rust_redis.Rdb.RoundTrip.{IsWritable, deserialize-serialize}
use rust_redis.Store.{Store, Config, PrimitiveValue, Value, str, list, stream}
use rust_redis.Store.Saved.{
  restored, restore_loop, from_rdb, saved, saved_expire, save, save_loop, to_rdb,
}

-- The first value, or else the second.
abbrev or_then {ℓ} : {A : Type ℓ} → Option A → Option A → Option A
or_then (some a) o = some a
or_then none o = o

abbrev restored_in : Option RdbString → Option Value
restored_in none = none
restored_in (some v) = some (restored v)

abbrev saved_in : Option Value → Option RdbString
saved_in none = none
saved_in (some v) = saved v

lookup-same {ℓ} :
    {V : Type ℓ} (k j : Key) (m : Dict Key V)
    → bytes_eq k j ≡ true
    → lookup k m ≡ none
    → lookup j m ≡ none
lookup-same k j m same e = rw (let p : k ≡ j = ground (arith, bytes_eq_iff k j) in p) at e

lookup-save :
    (j k : Key) (o : Option RdbString) (rdb : Rdb)
    → lookup j (save k o rdb).data_
      ≡ (if bytes_eq k j then or_then o (lookup j rdb.data_) else lookup j rdb.data_)
unfolding set
lookup-save j k none rdb = ground arith
lookup-save j k (some r) rdb = lookup-insert k j r rdb.data_

lookup-restore_loop :
    (j : Key) (entries : Dict Key RdbString) (m : Dict Key Value)
    → IsTable entries
    → lookup j (restore_loop entries m) ≡ or_then (restored_in (lookup j entries)) (lookup j m)
unfolding restore_loop lookup
lookup-restore_loop j [] m t = refl
lookup-restore_loop j ((k, v) ∷ entries) m t =
    lookup-restore_loop j entries (insert k (restored v) m) t.1
    ∙ rw (lookup-insert k j (restored v) m) (elim (Bool-cases (bytes_eq k j)) [
      | inl same ↦ rw (same, lookup-same k j entries same t.0) refl
      | inr other ↦ rw other refl
    ])

lookup-save_loop :
    (j : Key) (entries : Dict Key Value) (rdb : Rdb)
    → IsTable entries
    → lookup j (save_loop entries rdb).data_
      ≡ or_then (saved_in (lookup j entries)) (lookup j rdb.data_)
unfolding save_loop lookup
lookup-save_loop j [] rdb t = refl
lookup-save_loop j ((k, v) ∷ entries) rdb t =
    lookup-save_loop j entries (save k (saved v) rdb) t.1
    ∙ rw (lookup-save j k (saved v) rdb) (elim (Bool-cases (bytes_eq k j)) [
      | inl same ↦ rw (same, lookup-same k j entries same t.0) refl
      | inr other ↦ rw other refl
    ])

save_loop-IsTable :
    (entries : Dict Key Value) (rdb : Rdb)
    → IsTable rdb.data_
    → IsTable (save_loop entries rdb).data_
unfolding save_loop set
save_loop-IsTable [] rdb t = t
save_loop-IsTable ((k, v) ∷ entries) rdb t =
    save_loop-IsTable entries (save k (saved v) rdb) (kept (saved v))
  where
    kept : (o : Option RdbString) → IsTable (save k o rdb).data_
    kept none = t
    kept (some r) = insert-IsTable k r rdb.data_ t

length-save_loop :
    (entries : Dict Key Value) (rdb : Rdb)
    → length (save_loop entries rdb).data_ ≤ length entries + length rdb.data_
unfolding save_loop set
length-save_loop [] rdb = omega arith
length-save_loop ((k, v) ∷ entries) rdb =
    omega (arith, length-save_loop entries (save k (saved v) rdb), kept (saved v))
  where
    kept : (o : Option RdbString) → length (save k o rdb).data_ ≤ length rdb.data_ + 1
    kept none = omega arith
    kept (some r) = length-insert k r rdb.data_

metadata-save_loop :
    (entries : Dict Key Value) (rdb : Rdb) → (save_loop entries rdb).metadata ≡ rdb.metadata
unfolding save_loop set
metadata-save_loop [] rdb = refl
metadata-save_loop ((k, v) ∷ entries) rdb =
    metadata-save_loop entries (save k (saved v) rdb) ∙ kept (saved v)
  where
    kept : (o : Option RdbString) → (save k o rdb).metadata ≡ rdb.metadata
    kept none = refl
    kept (some r) = refl

-- The lengths of a string and its key fit 32 bits, and its time 64.
abbrev pub FitsString : Key × Value → Type 0
FitsString (k, v) = elim v.value [
  | str s ↦ (length k < 2 ^ 32) × (length s < 2 ^ 32) × FitsTime (saved_expire v.expire_ms)
  | list l ↦ Unit
  | stream s ↦ Unit
]

save_loop-IsStorable :
    (entries : Dict Key Value) (rdb : Rdb)
    → All FitsString entries
    → All IsStorable rdb.data_
    → All IsStorable (save_loop entries rdb).data_
unfolding save_loop set
save_loop-IsStorable [] rdb f a = a
save_loop-IsStorable ((k, v) ∷ entries) rdb f a =
    save_loop-IsStorable entries (save k (saved v) rdb) f.1 (kept v.value v.expire_ms f.0)
  where
    kept :
        (p : PrimitiveValue) (e : Option ℕ)
        → FitsString (k, record { value = p; expire_ms = e })
        → All IsStorable (save k (saved (record { value = p; expire_ms = e })) rdb).data_
    kept (str s) e (hk, hs, he) =
        All-insert IsStorable k (record { encoding = 0; value = s; expire = saved_expire e })
          rdb.data_ (record { plain = refl; key = hk; value = hs; time = he }) a
    kept (list l) e h = a
    kept (stream s) e h = a

abbrev no_rdb : Rdb
no_rdb = record { metadata = []; data_ = [] }

to_rdb-IsWritable :
    (self : Store)
    → All FitsString self.entries
    → length self.entries < 2 ^ 32
    → IsWritable (to_rdb self)
unfolding to_rdb
to_rdb-IsWritable self f h =
    let empty_metadata = metadata-save_loop self.entries no_rdb in
    record {
      pairs = rw empty_metadata tt;
      metadata_table = rw empty_metadata tt;
      entries = save_loop-IsStorable self.entries no_rdb f tt;
      data_table = save_loop-IsTable self.entries no_rdb tt;
      data_size = omega (arith, length-save_loop self.entries no_rdb);
    }

-- A value, if it is a string.
abbrev pub string_in : Option Value → Option Value
string_in none = none
string_in (some v) = elim v.value [ str s ↦ some v | list l ↦ none | stream s ↦ none ]

restored-saved :
    (o : Option Value) → or_then (restored_in (or_then (saved_in o) none)) none ≡ string_in o
restored-saved none = refl
restored-saved (some v) = string v.value v.expire_ms
  where
    string :
        (p : PrimitiveValue) (e : Option ℕ)
        → or_then
            (restored_in (or_then (saved_in (some (record { value = p; expire_ms = e }))) none))
            none
          ≡ string_in (some (record { value = p; expire_ms = e }))
    string (str s) none = refl
    string (str s) (some ms) = refl
    string (list l) e = refl
    string (stream s) e = refl

-- The file that a store is saved to is read without an error, and the store that is made of it has
-- at every key the string that the first one has there, with its time of expiration; a list or a
-- stream is not saved. No key stands twice in the store's table, there are fewer than 2^32 of them,
-- and the lengths of the strings and of their keys fit 32 bits, the times 64.
pub from_rdb-to_rdb :
    (is_replica : Bool) (config : Config) (self : Store)
    → IsTable self.entries
    → All FitsString self.entries
    → length self.entries < 2 ^ 32
    → (rdb : Rdb) × (deserialize (serialize (to_rdb self)) ≡ ok rdb)
      × ((key : Key)
          → lookup key (from_rdb is_replica config rdb).entries
            ≡ string_in (lookup key self.entries))
unfolding to_rdb from_rdb lookup
from_rdb-to_rdb is_replica config self t f h =
    let w = to_rdb-IsWritable self f h in
    (
      to_rdb self,
      deserialize-serialize (to_rdb self) w,
      λ key.
          lookup-restore_loop key (to_rdb self).data_ [] w.data_table
          ∙ rw (lookup-save_loop key self.entries no_rdb t)
              (restored-saved (lookup key self.entries)),
    )
