-- ===== src/Rdb.antt =====
-- src/rdb.rs: RDB files. Reading the file from disk is left out: `deserialize` takes its bytes.
pub mod Sizes
pub mod Entries
pub mod Tables
pub mod RoundTrip
pub mod Examples
use rust_redis.Prelude.{
  ℕ, zero, suc, ◌+◌, ◌*◌, ◌/◌, ◌%◌, ◌^◌, Bool, true, false, List, [], ◌∷◌, ◌++◌, Bytes, codes, leb,
  if◌then◌else◌, length,
}
use rust_redis.Prelude.Keys.{Dict, bytes_keys, insert}
use rust_redis.Parser.{Outcome, ok, err, panic, out_of_fuel, Parser, no_entry, ◌>>=◌, or_else}
use rust_redis.Parser.Slices.{byte, tag, take}
use rust_redis.Parser.Combinators.{and2, and3, and5, many0}
use rust_redis.Parser.LengthEncoded.{le_integer, le_bytes, le_string}
use rust_redis.Command.{Key}

pub data RdbValueExpiration : Type 0 where
  never : RdbValueExpiration
  seconds milliseconds : ℕ → RdbValueExpiration

pub record RdbString : Type 0 where
  pub encoding : ℕ
  pub value : Bytes
  pub expire : RdbValueExpiration

pub record Rdb : Type 0 where
  pub metadata : Dict Bytes Bytes
  pub data_ : Dict Key RdbString

-- `x.to_le_bytes()` of a number of `k` bytes, and `from_le_bytes`.
unfoldable pub to_le_bytes : ℕ → ℕ → Bytes
to_le_bytes zero n = []
to_le_bytes (suc k) n = n % 256 ∷ to_le_bytes k (n / 256)

unfoldable pub from_le_bytes : Bytes → ℕ
from_le_bytes [] = 0
from_le_bytes (b ∷ bs) = b + from_le_bytes bs * 256

-- `(n as u32).to_be_bytes()`
abbrev pub to_be_bytes4 : ℕ → Bytes
to_be_bytes4 n = n / 2 ^ 24 % 256 ∷ n / 2 ^ 16 % 256 ∷ n / 256 % 256 ∷ n % 256 ∷ []

-- The operands of `|` have no bit in common.
unfoldable pub le_encode_size : ℕ → Bytes
le_encode_size n =
    if leb n 0x3f
    then n ∷ []
    else if leb n 0x3fff
    then (0x40 + n / 256) ∷ n % 256 ∷ []
    else 0x80 ∷ to_be_bytes4 n

unfoldable pub le_encode_string : Bytes → Bytes
unfolding le_encode_size
le_encode_string s = le_encode_size (length s) ++ s

abbrev pub expire_bytes : RdbValueExpiration → Bytes
unfolding to_le_bytes
expire_bytes never = []
expire_bytes (milliseconds ms) = 0xfc ∷ to_le_bytes 8 ms
expire_bytes (seconds secs) = 0xfd ∷ to_le_bytes 4 secs

-- `RdbString::serialize`
unfoldable pub serialize_entry : Key × RdbString → Bytes
unfolding le_encode_string
serialize_entry (key, v) =
    expire_bytes v.expire ++ v.encoding ∷ (le_encode_string key ++ le_encode_string v.value)

abbrev entry_of : ℕ → Bytes → Bytes → RdbValueExpiration → Key × RdbString
entry_of encoding key value expire =
    (key, record { encoding = encoding; value = value; expire = expire })

-- The three shapes of an entry.
unfoldable pub plain_entry : Parser (Key × RdbString)
plain_entry input = do
  (parts, rest) ← and3 (byte 0x00) le_bytes le_bytes input
  ok (entry_of parts.0 parts.1 parts.2 never, rest)

unfoldable pub milliseconds_entry : Parser (Key × RdbString)
unfolding from_le_bytes
milliseconds_entry input = do
  (parts, rest) ← and5 (byte 0xfc) (take 8) (byte 0x00) le_bytes le_bytes input
  ok (entry_of parts.2 parts.3 parts.4 (milliseconds (from_le_bytes parts.1)), rest)

unfoldable pub seconds_entry : Parser (Key × RdbString)
unfolding from_le_bytes
seconds_entry input = do
  (parts, rest) ← and5 (byte 0xfd) (take 4) (byte 0x00) le_bytes le_bytes input
  ok (entry_of parts.2 parts.3 parts.4 (seconds (from_le_bytes parts.1)), rest)

unfoldable pub parse_rdb_entry : Parser (Key × RdbString)
unfolding plain_entry milliseconds_entry seconds_entry
parse_rdb_entry input =
    or_else (plain_entry input)
      (or_else (milliseconds_entry input) (or_else (seconds_entry input) (err no_entry)))

unfoldable pub parse_db_subsection : Parser (List (Key × RdbString))
unfolding parse_rdb_entry
parse_db_subsection input = do
  (_, rest1) ← byte 0xfe input
  (_, rest2) ← le_integer rest1
  (_, rest3) ← byte 0xfb rest2
  (_, rest4) ← le_integer rest3
  (_, rest5) ← le_integer rest4
  many0 parse_rdb_entry rest5

unfoldable pub parse_metadata_subsection : Parser (Bytes × Bytes)
parse_metadata_subsection input = do (_, rest) ← byte 0xfa input; and2 le_string le_string rest

-- `.unwrap()` of a parser's result
abbrev pub unwrapped {ℓ} : {A : Type ℓ} → Outcome A → Outcome A
unwrapped (ok a) = ok a
unwrapped (err e) = panic
unwrapped panic = panic
unwrapped out_of_fuel = out_of_fuel

-- `.into_iter().collect()` into a HashMap
unfoldable pub collect {ℓ} : {V : Type ℓ} → List (Bytes × V) → Dict Bytes V → Dict Bytes V
collect [] m = m
collect ((k, v) ∷ entries) m = collect entries (insert k v m)

-- `for db in db_sub_sections { data_parts.extend(db); }`
abbrev pub joined : List (List (Key × RdbString)) → List (Key × RdbString)
joined [] = []
joined (db ∷ dbs) = db ++ joined dbs

unfoldable pub deserialize : Bytes → Outcome Rdb
unfolding parse_metadata_subsection parse_db_subsection collect
deserialize bytes = do
  (_, input1) ← unwrapped (and2 (tag (codes "REDIS")) (take 4) bytes)
  (metadata_sub_sections, input2) ← unwrapped (many0 parse_metadata_subsection input1)
  (db_sub_sections, input3) ← unwrapped (many0 parse_db_subsection input2)
  (_, input4) ← unwrapped (byte 0xff input3)
  (_, input5) ← unwrapped (take 8 input4)
  ok (record {
    metadata = collect metadata_sub_sections [];
    data_ = collect (joined db_sub_sections) [];
  })

-- `for (k, v) in &self.metadata`
abbrev pub metadata_bytes : Bytes × Bytes → Bytes
unfolding le_encode_string
metadata_bytes (k, v) = 0xfa ∷ (le_encode_string k ++ le_encode_string v)

-- One after the other.
abbrev pub each {ℓ} : {A : Type ℓ} → (A → Bytes) → List A → Bytes
each enc [] = []
each enc (x ∷ xs) = enc x ++ each enc xs

abbrev expires : RdbValueExpiration → Bool
expires never = false
expires _ = true

unfoldable pub count_expiring : Dict Key RdbString → ℕ
count_expiring [] = 0
count_expiring ((k, v) ∷ entries) =
    let n = count_expiring entries in if expires v.expire then n + 1 else n

-- `if !self.data.is_empty()`
abbrev pub db_bytes : Dict Key RdbString → Bytes
unfolding le_encode_size count_expiring serialize_entry
db_bytes [] = []
db_bytes (entry ∷ entries) =
    0xfe
    ∷ 0x00
    ∷ 0xfb
    ∷ (le_encode_size (length (entry ∷ entries))
        ++ (le_encode_size (count_expiring (entry ∷ entries))
            ++ each serialize_entry (entry ∷ entries)))

abbrev pub end_bytes : Bytes
end_bytes = 0xff ∷ 0 ∷ 0 ∷ 0 ∷ 0 ∷ 0 ∷ 0 ∷ 0 ∷ 0 ∷ []

-- `Rdb::serialize`
unfoldable pub serialize : Rdb → Bytes
unfolding metadata_bytes db_bytes
serialize self =
    codes "REDIS0011" ++ (each metadata_bytes self.metadata ++ (db_bytes self.data_ ++ end_bytes))

-- `Rdb::set`
unfoldable pub set : Rdb → Key → RdbString → Rdb
set self key v = record self { data_ = insert key v self.data_ }
