-- ===== src/Resp/Wire.antt =====
-- The values that RESP can carry, and what each parser reads off the encoding of one.
use rust_redis.Prelude.{
  ℕ, suc, ◌<◌, ◌≡◌, refl, Option, some, ◌∷◌, ◌++◌, Bytes, crlf, length, u64_mod, i64_half,
}
use rust_redis.Prelude.Int.{ℤ}
use rust_redis.Number.{decimal, decimal_i64}
use rust_redis.Number.RoundTrip.{InRange}
use rust_redis.Parser.{ok, Parser}
use rust_redis.Parser.Reads.{
  tag-append, take-append, IsLine, take_until-line, integer_u64-decimal, integer_i64-decimal_i64,
  byte-same,
}
use rust_redis.Resp.{
  Resp, Resps, null_bulk_string, null_array, simple_string, bulk_string, simple_error, integer,
  file, array, nil, cons, count,
}
use rust_redis.Resp.Encode.{encode_all}
use rust_redis.Resp.Decode.{
  parse_simple_string, parse_simple_error, parse_integer, parse_bulk_string, parse_elements,
  parse_array,
}

-- The values that the wire format can carry: lines without a line break, lengths and integers that
-- their types hold, and no RDB file, whose encoding is the beginning of a bulk string's.
unfoldable mutual
  pub IsWire : Resp → Type 0
  IsWire null_bulk_string = Unit
  IsWire null_array = Unit
  IsWire (simple_string s) = IsLine s
  IsWire (simple_error e) = IsLine e
  IsWire (bulk_string s) = length s < u64_mod
  IsWire (integer i) = InRange i64_half i
  IsWire (file f) = ⊥
  IsWire (array els) = (count els < u64_mod) × AllWire els

  pub AllWire : Resps → Type 0
  AllWire nil = Unit
  AllWire (cons el els) = IsWire el × AllWire els

pub parse_simple_string-encode :
    (s t : Bytes)
    → IsLine s
    → parse_simple_string (b'+' ∷ (s ++ (crlf ++ t))) ≡ ok (some (simple_string s), t)
unfolding parse_simple_string
parse_simple_string-encode s t l =
    rw (byte-same b'+' (s ++ (crlf ++ t)), take_until-line s t l, tag-append crlf t)

pub parse_simple_error-encode :
    (s t : Bytes)
    → IsLine s
    → parse_simple_error (b'-' ∷ (s ++ (crlf ++ t))) ≡ ok (some (simple_error s), t)
unfolding parse_simple_error
parse_simple_error-encode s t l =
    rw (byte-same b'-' (s ++ (crlf ++ t)), take_until-line s t l, tag-append crlf t)

pub parse_bulk_string-encode :
    (s t : Bytes)
    → length s < u64_mod
    → parse_bulk_string (b'$' ∷ (decimal (length s) ++ (crlf ++ (s ++ (crlf ++ t)))))
      ≡ ok (some (bulk_string s), t)
unfolding parse_bulk_string
parse_bulk_string-encode s t h = rw (
  byte-same b'$' (decimal (length s) ++ (crlf ++ (s ++ (crlf ++ t)))),
  integer_u64-decimal (length s) (crlf ++ (s ++ (crlf ++ t))) h refl,
  tag-append crlf (s ++ (crlf ++ t)),
  take-append s (crlf ++ t),
  tag-append crlf t,
)

pub parse_integer-encode :
    (i : ℤ) (t : Bytes)
    → InRange i64_half i
    → parse_integer (b':' ∷ (decimal_i64 i ++ (crlf ++ t))) ≡ ok (some (integer i), t)
unfolding parse_integer
parse_integer-encode i t h = rw (
  byte-same b':' (decimal_i64 i ++ (crlf ++ t)),
  integer_i64-decimal_i64 i (crlf ++ t) h refl,
  tag-append crlf t,
)

-- The rounds that are left and the elements that are left are the same number.
pub parse_array-encode :
    (parse : Parser (Option Resp)) (els : Resps) (t : Bytes)
    → count els < u64_mod
    → parse_elements parse (count els) (count els) (encode_all els ++ t) ≡ ok (els, t)
    → parse_array parse (b'*' ∷ (decimal (count els) ++ (crlf ++ (encode_all els ++ t))))
      ≡ ok (some (array els), t)
unfolding parse_array
parse_array-encode parse els t h e = rw (
  byte-same b'*' (decimal (count els) ++ (crlf ++ (encode_all els ++ t))),
  integer_u64-decimal (count els) (crlf ++ (encode_all els ++ t)) h refl,
  tag-append crlf (encode_all els ++ t),
  e,
)

pub parse_elements-cons :
    (parse : Parser (Option Resp)) (l rounds : ℕ) (el : Resp) (els : Resps) (input rest t : Bytes)
    → parse input ≡ ok (some el, rest)
    → parse_elements parse l rounds rest ≡ ok (els, t)
    → parse_elements parse l (suc rounds) input ≡ ok (cons el els, t)
unfolding parse_elements
parse_elements-cons parse l rounds el els input rest t e f = rw (e, f)
