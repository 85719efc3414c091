-- ===== src/Rdb/RoundTrip.antt =====
-- src/rdb.rs: `deserialize` after `serialize`.
use rust_redis.Prelude.{
  ◌^◌, ◌<◌, ◌≤◌, ◌≡◌, refl, ap, ◌∙◌, true, List, [], ◌∷◌, ◌++◌, append_assoc, append-nil, arith,
  Bytes, codes, length, All,
}
use rust_redis.Prelude.Keys.{Dict}
use rust_redis.Utf8.{is_utf8}
use rust_redis.Parser.{ok, err, no_byte, no_entry}
use rust_redis.Parser.Slices.{byte, tag, take}
use rust_redis.Parser.Reads.{tag-append, take-append}
use rust_redis.Parser.Combinators.{and2, many0}
use rust_redis.Parser.LengthEncoded.{le_integer}
use rust_redis.Command.{Key}
use rust_redis.Rdb.{
  RdbString, Rdb, le_encode_size, le_encode_string, serialize_entry, parse_rdb_entry,
  parse_db_subsection, parse_metadata_subsection, joined, deserialize, metadata_bytes, each,
  count_expiring, db_bytes, serialize,
}
use rust_redis.Rdb.Sizes.{le_integer-size, le_string-string}
use rust_redis.Rdb.Entries.{
  IsStorable, serialize_entry-length, many0-one, many0-none, parse_rdb_entry-serialize_entry,
  parse_rdb_entry-end, many0-each,
}
use rust_redis.Rdb.Tables.{IsTable, collect-IsTable}

-- A metadata string is UTF-8, as every String, and its length fits 32 bits.
abbrev pub FitsString : Bytes → Type 0
FitsString s = (length s < 2 ^ 32) × (is_utf8 s ≡ true)

abbrev pub FitsPair : Bytes × Bytes → Type 0
FitsPair kv = FitsString kv.0 × FitsString kv.1

-- A database that a file can hold.
pub record IsWritable (rdb : Rdb) : Type 0 where
  pub pairs : All FitsPair rdb.metadata
  pub metadata_table : IsTable rdb.metadata
  pub entries : All IsStorable rdb.data_
  pub data_table : IsTable rdb.data_
  pub data_size : length rdb.data_ < 2 ^ 32

metadata_strings :
    (k v t : Bytes)
    → FitsPair (k, v)
    → parse_metadata_subsection (0xfa ∷ (le_encode_string k ++ (le_encode_string v ++ t)))
      ≡ ok ((k, v), t)
unfolding parse_metadata_subsection byte
metadata_strings k v t (hk, hv) =
    rw (le_string-string k (le_encode_string v ++ t) hk.0 hk.1, le_string-string v t hv.0 hv.1) refl

metadata-reads :
    (kv : Bytes × Bytes) (t : Bytes)
    → FitsPair kv
    → parse_metadata_subsection (metadata_bytes kv ++ t) ≡ ok (kv, t)
unfolding metadata_bytes
metadata-reads (k, v) t h =
    ap (λ r. parse_metadata_subsection (0xfa ∷ r))
      (append_assoc (le_encode_string k) (le_encode_string v) t)
    ∙ metadata_strings k v t h

metadata_some : (kv : Bytes × Bytes) → FitsPair kv → 1 ≤ length (metadata_bytes kv)
unfolding metadata_bytes
metadata_some (k, v) h = omega arith

count_expiring_bound : (m : Dict Key RdbString) → count_expiring m ≤ length m
unfolding count_expiring
count_expiring_bound [] = omega arith
count_expiring_bound ((k, v) ∷ m) = ground (arith, count_expiring_bound m)

section_entries :
    (m : Dict Key RdbString) (s : Bytes)
    → All IsStorable m
    → many0 parse_rdb_entry (each serialize_entry m ++ (0xff ∷ s)) ≡ ok (m, 0xff ∷ s)
section_entries m s g =
    many0-each parse_rdb_entry serialize_entry IsStorable (0xff ∷ s) no_entry
      parse_rdb_entry-serialize_entry serialize_entry-length (parse_rdb_entry-end s) m g

section_parts :
    (m : Dict Key RdbString) (s : Bytes)
    → length m < 2 ^ 32
    → All IsStorable m
    → parse_db_subsection (
        0xfe
        ∷ 0x00
        ∷ 0xfb
        ∷ (le_encode_size (length m)
            ++ (le_encode_size (count_expiring m) ++ (each serialize_entry m ++ (0xff ∷ s)))))
      ≡ ok (m, 0xff ∷ s)
unfolding parse_db_subsection byte le_integer
section_parts m s h g =
    rw
      (
        le_integer-size (length m)
            (le_encode_size (count_expiring m) ++ (each serialize_entry m ++ (0xff ∷ s))) h,
        le_integer-size (count_expiring m) (each serialize_entry m ++ (0xff ∷ s))
            (omega (arith, count_expiring_bound m)),
      )
      (section_entries m s g)

abbrev after_index : Dict Key RdbString → Bytes → Bytes
after_index m t =
    0x00
    ∷ 0xfb
    ∷ (le_encode_size (length m)
        ++ (le_encode_size (count_expiring m) ++ (each serialize_entry m ++ t)))

section_bytes :
    (x : Key × RdbString) (m : Dict Key RdbString) (t : Bytes)
    → db_bytes (x ∷ m) ++ t ≡ 0xfe ∷ after_index (x ∷ m) t
unfolding db_bytes
section_bytes x m t =
    let size = le_encode_size (length (x ∷ m)) in
    let expiring = le_encode_size (count_expiring (x ∷ m)) in
    let entries = each serialize_entry (x ∷ m) in
    ap (λ r. 0xfe ∷ 0x00 ∷ 0xfb ∷ r)
      (append_assoc size (expiring ++ entries) t
        ∙ ap (λ r. size ++ r) (append_assoc expiring entries t))

-- The sections of the file: one, or none for an empty table.
abbrev sections : Dict Key RdbString → List (List (Key × RdbString))
sections [] = []
sections (x ∷ m) = (x ∷ m) ∷ []

joined-sections : (m : Dict Key RdbString) → joined (sections m) ≡ m
joined-sections [] = refl
joined-sections (x ∷ m) = append-nil (x ∷ m)

section_end : (s : Bytes) → parse_db_subsection (0xff ∷ s) ≡ err (no_byte 0xfe)
unfolding parse_db_subsection byte
section_end s = refl

sections-reads :
    (m : Dict Key RdbString) (s : Bytes)
    → length m < 2 ^ 32
    → All IsStorable m
    → many0 parse_db_subsection (db_bytes m ++ (0xff ∷ s)) ≡ ok (sections m, 0xff ∷ s)
unfolding db_bytes
sections-reads [] s h g = many0-none parse_db_subsection (0xff ∷ s) (no_byte 0xfe) (section_end s)
sections-reads (x ∷ m) s h g =
    ap (many0 parse_db_subsection) (section_bytes x m (0xff ∷ s))
    ∙ many0-one parse_db_subsection 0xfe (after_index (x ∷ m) (0xff ∷ s)) (0xff ∷ s) (x ∷ m)
        (no_byte 0xfe) (section_parts (x ∷ m) s h g) (section_end s)

metadata_end :
    (m : Dict Key RdbString) (s : Bytes)
    → parse_metadata_subsection (db_bytes m ++ (0xff ∷ s)) ≡ err (no_byte 0xfa)
unfolding parse_metadata_subsection byte db_bytes
metadata_end [] s = refl
metadata_end (x ∷ m) s = refl

header-reads :
    (t : Bytes)
    → and2 (tag (codes "REDIS")) (take 4) (codes "REDIS0011" ++ t)
      ≡ ok ((codes "REDIS", codes "0011"), t)
header-reads t =
    rw (tag-append (codes "REDIS") (codes "0011" ++ t), take-append (codes "0011") t) refl

abbrev checksum : Bytes
checksum = 0 ∷ 0 ∷ 0 ∷ 0 ∷ 0 ∷ 0 ∷ 0 ∷ 0 ∷ []

metadata_section :
    (rdb : Rdb)
    → IsWritable rdb
    → many0 parse_metadata_subsection
        (each metadata_bytes rdb.metadata ++ (db_bytes rdb.data_ ++ (0xff ∷ checksum)))
      ≡ ok (rdb.metadata, db_bytes rdb.data_ ++ (0xff ∷ checksum))
metadata_section rdb h =
    many0-each parse_metadata_subsection metadata_bytes FitsPair
      (db_bytes rdb.data_ ++ (0xff ∷ checksum)) (no_byte 0xfa) metadata-reads metadata_some
      (metadata_end rdb.data_ checksum) rdb.metadata h.pairs

-- A database is read back from the file that is written of it: every pair of the metadata, every
-- key with its value and its time of expiration. Its strings are stored with encoding 0, every
-- length and the number of keys fit 32 bits, and the metadata is UTF-8.
pub deserialize-serialize : (rdb : Rdb) → IsWritable rdb → deserialize (serialize rdb) ≡ ok rdb
unfolding deserialize serialize byte take
deserialize-serialize rdb h =
    rw
      (
        header-reads
            (each metadata_bytes rdb.metadata ++ (db_bytes rdb.data_ ++ (0xff ∷ checksum))),
        metadata_section rdb h,
        sections-reads rdb.data_ checksum h.data_size h.entries,
        joined-sections rdb.data_,
        collect-IsTable rdb.metadata h.metadata_table,
        collect-IsTable rdb.data_ h.data_table,
      )
      refl
