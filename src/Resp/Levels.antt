-- ===== src/Resp/Levels.antt =====
-- One level of `parse_nested`, and the induction over nested arrays.
use rust_redis.Prelude.{
  ℕ, zero, suc, ◌≢◌, All, ne→not_==, ◌<◌, ◌≤◌, ◌≡◌, refl, ap, false, Option, some, [], ◌∷◌, ◌++◌,
  append_assoc, arith, Bytes, codes, crlf, length, u64_mod, i64_half,
}
use rust_redis.Prelude.Int.{ℤ}
use rust_redis.Number.{decimal, decimal_i64}
use rust_redis.Number.{is_digit}
use rust_redis.Number.RoundTrip.{IsDigit, All-decimal, InRange}
use rust_redis.Parser.{ok, Parser, or_else}
use rust_redis.Parser.Slices.{starts_with}
use rust_redis.Parser.Reads.{IsLine, lengths, length_bytes, decimal-ne-nil}
use rust_redis.Resp.{
  Resp, Resps, null_bulk_string, null_array, simple_string, bulk_string, simple_error, integer,
  file, array, nil, cons, count,
}
use rust_redis.Resp.Encode.{encode_resp, encode_all}
use rust_redis.Resp.Decode.{parse_rdb_file, parse_elements, dispatch, parse_nested}
use rust_redis.Resp.Wire.{
  AllWire, IsWire, parse_array-encode, parse_bulk_string-encode, parse_elements-cons,
  parse_integer-encode, parse_simple_error-encode, parse_simple_string-encode,
}

pub starts_with-digits :
    (x s t : Bytes) → s ≢ [] → All IsDigit s → starts_with (b'-' ∷ x) (s ++ t) ≡ false
unfolding starts_with
starts_with-digits x [] t n a = absurd (n refl)
starts_with-digits x (c ∷ s) t n a = rw (ne→not_== c b'-' (λ e. cc (ap is_digit e)))

pub starts_with-decimal : (x t : Bytes) (n : ℕ) → starts_with (b'-' ∷ x) (decimal n ++ t) ≡ false
starts_with-decimal x t n = starts_with-digits x (decimal n) t (decimal-ne-nil n) (All-decimal n)

abbrev pub null_bulk_mark : Bytes
null_bulk_mark = codes "$-1\r\n"

abbrev pub null_array_mark : Bytes
null_array_mark = codes "*-1\r\n"

pub parse_nested-dispatch :
    (f first : ℕ) (tail : Bytes)
    → starts_with null_bulk_mark (first ∷ tail) ≡ false
    → starts_with null_array_mark (first ∷ tail) ≡ false
    → parse_nested (suc f) (first ∷ tail) ≡ dispatch (parse_nested f) first (first ∷ tail)
unfolding parse_nested
parse_nested-dispatch f first tail e g = rw (e, g)

-- Neither constant begins with one of these bytes.
pub starts_with-other :
    (first : ℕ) (tail : Bytes)
    → first ≢ b'$'
    → first ≢ b'*'
    → (starts_with null_bulk_mark (first ∷ tail) ≡ false)
      × (starts_with null_array_mark (first ∷ tail) ≡ false)
unfolding starts_with
starts_with-other first tail n m = (rw (ne→not_== first b'$' n), rw (ne→not_== first b'*' m))

pub parse_nested-line :
    (f first : ℕ) (tail : Bytes)
    → first ≢ b'$'
    → first ≢ b'*'
    → parse_nested (suc f) (first ∷ tail) ≡ dispatch (parse_nested f) first (first ∷ tail)
parse_nested-line f first tail n m =
    let e = starts_with-other first tail n m in parse_nested-dispatch f first tail e.0 e.1

pub parse_nested-dollar :
    (f n : ℕ) (tail : Bytes)
    → parse_nested (suc f) (b'$' ∷ (decimal n ++ tail))
      ≡ dispatch (parse_nested f) b'$' (b'$' ∷ (decimal n ++ tail))
parse_nested-dollar f n tail =
    parse_nested-dispatch f b'$' (decimal n ++ tail)
      (unfold starts_with in starts_with-decimal (codes "1\r\n") tail n)
      (unfold starts_with in refl)

pub parse_nested-star :
    (f n : ℕ) (tail : Bytes)
    → parse_nested (suc f) (b'*' ∷ (decimal n ++ tail))
      ≡ dispatch (parse_nested f) b'*' (b'*' ∷ (decimal n ++ tail))
parse_nested-star f n tail =
    parse_nested-dispatch f b'*' (decimal n ++ tail) (unfold starts_with in refl)
      (unfold starts_with in starts_with-decimal (codes "1\r\n") tail n)

-- One level of the recursion: the value is parsed at every fuel above zero, given its elements.
module _ (f : ℕ) (t : Bytes) where
  abbrev Parses : Resp → Type 0
  Parses r = parse_nested (suc f) (encode_resp r ++ t) ≡ ok (some r, t)

  null_bulk_string-Parses : Parses null_bulk_string
  unfolding parse_nested encode_resp starts_with
  null_bulk_string-Parses = refl

  null_array-Parses : Parses null_array
  unfolding parse_nested encode_resp starts_with
  null_array-Parses = refl

  simple_string-Parses : (s : Bytes) → IsLine s → Parses (simple_string s)
  unfolding encode_resp dispatch
  simple_string-Parses s l =
      rw
        (
          append_assoc s crlf t,
          parse_nested-line f b'+' (s ++ (crlf ++ t)) (omega arith) (omega arith),
        )
        (parse_simple_string-encode s t l)

  simple_error-Parses : (s : Bytes) → IsLine s → Parses (simple_error s)
  unfolding encode_resp dispatch
  simple_error-Parses s l =
      rw
        (
          append_assoc s crlf t,
          parse_nested-line f b'-' (s ++ (crlf ++ t)) (omega arith) (omega arith),
        )
        (parse_simple_error-encode s t l)

  integer-Parses : (i : ℤ) → InRange i64_half i → Parses (integer i)
  unfolding encode_resp dispatch
  integer-Parses i h =
      rw
        (
          append_assoc (decimal_i64 i) crlf t,
          parse_nested-line f b':' (decimal_i64 i ++ (crlf ++ t)) (omega arith) (omega arith),
        )
        (parse_integer-encode i t h)

  bulk_string-Parses : (s : Bytes) → length s < u64_mod → Parses (bulk_string s)
  unfolding encode_resp dispatch
  bulk_string-Parses s h =
      rw
        (
          append_assoc (decimal (length s)) (crlf ++ (s ++ crlf)) t,
          append_assoc s crlf t,
          parse_nested-dollar f (length s) (crlf ++ (s ++ (crlf ++ t))),
        )
        (ap
          (λ o.
            or_else o
              (parse_rdb_file (b'$' ∷ (decimal (length s) ++ (crlf ++ (s ++ (crlf ++ t)))))))
          (parse_bulk_string-encode s t h))

  array-Parses :
      (els : Resps)
      → count els < u64_mod
      → parse_elements (parse_nested f) (count els) (count els) (encode_all els ++ t) ≡ ok (els, t)
      → Parses (array els)
  unfolding encode_resp dispatch
  array-Parses els h e =
      rw
        (
          append_assoc (decimal (count els)) (crlf ++ encode_all els) t,
          parse_nested-star f (count els) (crlf ++ (encode_all els ++ t)),
        )
        (parse_array-encode (parse_nested f) els t h e)

pub parse_elements-nil :
    (parse : Parser (Option Resp)) (l : ℕ) (t : Bytes) → parse_elements parse l 0 t ≡ ok (nil, t)
unfolding parse_elements
parse_elements-nil parse l t = refl

pub length-array :
    (els : Resps) (t : Bytes) → length (encode_all els ++ t) < length (encode_resp (array els) ++ t)
unfolding encode_resp
length-array els t =
    let header = decimal (count els) in
    omega (
      arith,
      length_bytes (header ++ (crlf ++ encode_all els)) t,
      length_bytes header (crlf ++ encode_all els),
      length_bytes (encode_all els) t,
    )

abbrev pub ReadsAll : Resps → Type 0
ReadsAll els =
    AllWire els
    → (l f : ℕ) (t : Bytes) → length (encode_all els ++ t) < f
    → parse_elements (parse_nested f) l (count els) (encode_all els ++ t) ≡ ok (els, t)

mutual
  unfolding IsWire encode_resp

  pub reads :
      (r : Resp) → IsWire r → (f : ℕ) (t : Bytes) → length (encode_resp r ++ t) ≤ f → Parses f t r
  reads null_bulk_string w f t h = null_bulk_string-Parses f t
  reads null_array w f t h = null_array-Parses f t
  reads (simple_string s) w f t h = simple_string-Parses f t s w
  reads (bulk_string s) w f t h = bulk_string-Parses f t s w
  reads (simple_error e) w f t h = simple_error-Parses f t e w
  reads (integer i) w f t h = integer-Parses f t i w
  reads (file s) w f t h = absurd w
  reads (array els) w f t h =
      array-Parses f t els w.0
        (reads_all els w.1 (count els) f t (omega (arith, length-array els t)))

  reads_all : (els : Resps) → ReadsAll els
  reads_all nil w l f t h = parse_elements-nil (parse_nested f) l t
  reads_all (cons el els) w l zero t h = elim h [ ]
  reads_all (cons el els) w l (suc f) t h = rw (append_assoc (encode_resp el) (encode_all els) t) (
      parse_elements-cons (parse_nested (suc f)) l (count els) el els
        (encode_resp el ++ (encode_all els ++ t)) (encode_all els ++ t) t
        (reads el w.0 f (encode_all els ++ t) (omega lengths))
        (reads_all els w.1 l (suc f) t (omega lengths)))
