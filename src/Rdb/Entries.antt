-- ===== src/Rdb/Entries.antt =====
-- src/rdb.rs: one entry, and the loop over entries.
use rust_redis.Prelude.{
  ℕ, zero, suc, ◌/◌, ◌^◌, ◌<◌, ◌≤◌, ◌≡◌, refl, sym, ap, ◌∙◌, List, [], ◌∷◌, ◌++◌, append_assoc,
  append-nil, arith, Bytes, length, All,
}
use rust_redis.Parser.{ok, err, Parser, ParseError, no_entry}
use rust_redis.Parser.Slices.{byte, take}
use rust_redis.Parser.Reads.{take-append, length_bytes}
use rust_redis.Parser.Combinators.{many_loop, many0}
use rust_redis.Command.{Key}
use rust_redis.Rdb.{
  RdbValueExpiration, never, seconds, milliseconds, RdbString, to_le_bytes, le_encode_string,
  expire_bytes, serialize_entry, entry_of, plain_entry, milliseconds_entry, seconds_entry,
  parse_rdb_entry, each,
}
use rust_redis.Rdb.Sizes.{le_bytes-string, from_le_bytes-to_le_bytes}

-- The time is a u32 or a u64.
abbrev pub FitsTime : RdbValueExpiration → Type 0
FitsTime never = Unit
FitsTime (seconds secs) = secs < 2 ^ 32
FitsTime (milliseconds ms) = ms < 2 ^ 64

-- A string as the server stores it: the encoding is 0, the lengths fit 32 bits.
pub record IsStorable (entry : Key × RdbString) : Type 0 where
  pub plain : entry.1.encoding ≡ 0
  pub key : length entry.0 < 2 ^ 32
  pub value : length entry.1.value < 2 ^ 32
  pub time : FitsTime entry.1.expire

length-to_le_bytes : (k n : ℕ) → length (to_le_bytes k n) ≡ k
unfolding to_le_bytes
length-to_le_bytes zero n = refl
length-to_le_bytes (suc k) n = ap suc (length-to_le_bytes k (n / 256))

take-to_le_bytes : (k n : ℕ) (t : Bytes) → take k (to_le_bytes k n ++ t) ≡ ok (to_le_bytes k n, t)
take-to_le_bytes k n t = rw (length-to_le_bytes k n) at (take-append (to_le_bytes k n) t)

entry_shape :
    (a : ℕ) (k v t : Bytes)
    → (a ∷ (le_encode_string k ++ le_encode_string v)) ++ t
      ≡ a ∷ (le_encode_string k ++ (le_encode_string v ++ t))
entry_shape a k v t = ap (λ r. a ∷ r) (append_assoc (le_encode_string k) (le_encode_string v) t)

module _ (k v t : Bytes) (hk : length k < 2 ^ 32) (hv : length v < 2 ^ 32) where
  abbrev rest : Bytes
  rest = le_encode_string k ++ (le_encode_string v ++ t)

  plain_entry-reads : plain_entry (0x00 ∷ rest) ≡ ok (entry_of 0 k v never, t)
  unfolding plain_entry byte
  plain_entry-reads =
      rw (le_bytes-string k (le_encode_string v ++ t) hk, le_bytes-string v t hv) refl

  milliseconds_entry-reads :
      (ms : ℕ)
      → ms < 2 ^ 64
      → milliseconds_entry (0xfc ∷ (to_le_bytes 8 ms ++ 0x00 ∷ rest))
        ≡ ok (entry_of 0 k v (milliseconds ms), t)
  unfolding milliseconds_entry byte
  milliseconds_entry-reads ms h =
      rw
        (
          take-to_le_bytes 8 ms (0x00 ∷ rest),
          le_bytes-string k (le_encode_string v ++ t) hk,
          le_bytes-string v t hv,
          from_le_bytes-to_le_bytes 8 ms h,
        )
        refl

  seconds_entry-reads :
      (secs : ℕ)
      → secs < 2 ^ 32
      → seconds_entry (0xfd ∷ (to_le_bytes 4 secs ++ 0x00 ∷ rest))
        ≡ ok (entry_of 0 k v (seconds secs), t)
  unfolding seconds_entry byte
  seconds_entry-reads secs h =
      rw
        (
          take-to_le_bytes 4 secs (0x00 ∷ rest),
          le_bytes-string k (le_encode_string v ++ t) hk,
          le_bytes-string v t hv,
          from_le_bytes-to_le_bytes 4 secs h,
        )
        refl

  never_bytes : serialize_entry (entry_of 0 k v never) ++ t ≡ 0x00 ∷ rest
  unfolding serialize_entry expire_bytes
  never_bytes = entry_shape 0 k v t

  milliseconds_bytes :
      (ms : ℕ)
      → serialize_entry (entry_of 0 k v (milliseconds ms)) ++ t
        ≡ 0xfc ∷ (to_le_bytes 8 ms ++ 0x00 ∷ rest)
  unfolding serialize_entry expire_bytes
  milliseconds_bytes ms =
      ap (λ r. 0xfc ∷ r)
        (append_assoc (to_le_bytes 8 ms) (0x00 ∷ (le_encode_string k ++ le_encode_string v)) t
          ∙ ap (λ r. to_le_bytes 8 ms ++ r) (entry_shape 0 k v t))

  seconds_bytes :
      (secs : ℕ)
      → serialize_entry (entry_of 0 k v (seconds secs)) ++ t
        ≡ 0xfd ∷ (to_le_bytes 4 secs ++ 0x00 ∷ rest)
  unfolding serialize_entry expire_bytes
  seconds_bytes secs =
      ap (λ r. 0xfd ∷ r)
        (append_assoc (to_le_bytes 4 secs) (0x00 ∷ (le_encode_string k ++ le_encode_string v)) t
          ∙ ap (λ r. to_le_bytes 4 secs ++ r) (entry_shape 0 k v t))

  -- An entry with each of the three lifetimes.
  stored-reads :
      (expire : RdbValueExpiration)
      → FitsTime expire
      → parse_rdb_entry (serialize_entry (entry_of 0 k v expire) ++ t)
        ≡ ok (entry_of 0 k v expire, t)
  unfolding parse_rdb_entry byte
  stored-reads never h = ap parse_rdb_entry never_bytes ∙ rw plain_entry-reads refl
  stored-reads (milliseconds ms) h =
      ap parse_rdb_entry (milliseconds_bytes ms) ∙ rw (milliseconds_entry-reads ms h) refl
  stored-reads (seconds secs) h =
      ap parse_rdb_entry (seconds_bytes secs) ∙ rw (seconds_entry-reads secs h) refl

-- An entry is read back.
pub parse_rdb_entry-serialize_entry :
    (entry : Key × RdbString) (t : Bytes)
    → IsStorable entry
    → parse_rdb_entry (serialize_entry entry ++ t) ≡ ok (entry, t)
parse_rdb_entry-serialize_entry (k, v) t h =
    let same : entry_of 0 k v.value v.expire ≡ (k, v) =
      ap (λ n. entry_of n k v.value v.expire) (sym h.plain) in
    rw same at (stored-reads k v.value t h.key h.value v.expire h.time)

pub serialize_entry-length :
    (entry : Key × RdbString) → IsStorable entry → 1 ≤ length (serialize_entry entry)
unfolding serialize_entry
serialize_entry-length (k, v) h =
    let rest = le_encode_string k ++ le_encode_string v.value in
    omega (arith, length_bytes (expire_bytes v.expire) (v.encoding ∷ rest))

pub parse_rdb_entry-end : (t : Bytes) → parse_rdb_entry (0xff ∷ t) ≡ err no_entry
unfolding parse_rdb_entry plain_entry milliseconds_entry seconds_entry byte
parse_rdb_entry-end t = refl

pub many0-one {ℓ} :
    {A : Type ℓ} (p : Parser A) (c : ℕ) (s t : Bytes) (a : A) (e : ParseError)
    → p (c ∷ s) ≡ ok (a, t)
    → p t ≡ err e
    → many0 p (c ∷ s) ≡ ok (a ∷ [], t)
unfolding many0 many_loop
many0-one p c s t a e first second = rw (first, second, many_loop) refl

pub many0-none {ℓ} :
    {A : Type ℓ} (p : Parser A) (t : Bytes) (e : ParseError) → p t ≡ err e → many0 p t ≡ ok ([], t)
unfolding many0 many_loop
many0-none p t e stops = rw (stops, many_loop) refl

-- many0 over one encoding after the other, each of which the parser reads, up to where it refuses.
module _ {ℓ κ} {A : Type ℓ} (p : Parser A) (enc : A → Bytes) (Good : A → Type κ) (t : Bytes)
    (e : ParseError) (reads : (a : A) (s : Bytes) → Good a → p (enc a ++ s) ≡ ok (a, s))
    (some_bytes : (a : A) → Good a → 1 ≤ length (enc a)) (stops : p t ≡ err e) where
  many_loop-each :
      (fuel : ℕ) (acc xs : List A)
      → length xs < fuel
      → All Good xs
      → many_loop fuel p acc (each enc xs ++ t) ≡ ok (acc ++ xs, t)
  unfolding many_loop
  many_loop-each zero acc xs h g = elim h [ ]
  many_loop-each (suc fuel) acc [] h g =
      rw (stops, many_loop) (ap (λ r. ok (r, t)) (sym (append-nil acc)))
  many_loop-each (suc fuel) acc (x ∷ xs) h g =
      rw (append_assoc (enc x) (each enc xs) t, reads x (each enc xs ++ t) g.0, many_loop)
        (many_loop-each fuel (acc ++ x ∷ []) xs (omega arith) g.1
          ∙ ap (λ r. ok (r, t)) (append_assoc acc (x ∷ []) xs))

  length-each : (xs : List A) → All Good xs → length xs ≤ length (each enc xs)
  length-each [] g = omega arith
  length-each (x ∷ xs) g =
      omega (arith, length_bytes (enc x) (each enc xs), some_bytes x g.0, length-each xs g.1)

  pub many0-each : (xs : List A) → All Good xs → many0 p (each enc xs ++ t) ≡ ok (xs, t)
  unfolding many0
  many0-each xs g =
      many_loop-each (suc (length (each enc xs ++ t))) [] xs
        (omega (arith, length_bytes (each enc xs) t, length-each xs g)) g
