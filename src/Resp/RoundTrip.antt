-- ===== src/Resp/RoundTrip.antt =====
-- src/resp.rs: `parse_single_resp` on an encoded value with a rest.
use rust_redis.Parser.Slices.{take_until}
use rust_redis.Parser.{panic}
use rust_redis.Resp.Decode.{parse_simple_string, parse_simple_error}
use rust_redis.Prelude.{
  lt→ltb, ℕ, zero, suc, ◌<◌, ◌≡◌, refl, ap, ◌∙◌, false, none, some, List, [], ◌∷◌, ◌++◌,
  append_assoc, append-nil, arith, Bytes, crlf, length, u64_mod,
}
use rust_redis.Number.{decimal}
use rust_redis.Parser.{ok, err, or_else, no_tag}
use rust_redis.Parser.Slices.{starts_with, take_until}
use rust_redis.Parser.Reads.{
  tag-append, tag-other, take-append, integer_u64-decimal, lengths, byte-same,
}
use rust_redis.Resp.{Resp, Resps, null_bulk_string, bulk_string, file, nil, cons, elements}
use rust_redis.Resp.Encode.{encode_resp, encode_all}
use rust_redis.Resp.Decode.{
  parse_simple_string, parse_simple_error, parse_bulk_string, parse_rdb_file, dispatch,
  parse_nested, parse_single_resp, resp_loop, parse_resp,
}
use rust_redis.Resp.Wire.{AllWire, IsWire}
use rust_redis.Resp.Levels.{reads, parse_nested-dollar, parse_nested-line}

-- A value that the format can carry is parsed off the front of any input that begins with its
-- encoding, and leaves what follows it.
pub parse_single_resp-encode_resp :
    (r : Resp) (t : Bytes) → IsWire r → parse_single_resp (encode_resp r ++ t) ≡ ok (some r, t)
unfolding parse_single_resp
parse_single_resp-encode_resp r t w = reads r w (length (encode_resp r ++ t)) t (omega arith)

-- The first byte tells what follows, so no encoding is empty.
pub encode_resp_pos : (r : Resp) → 0 < length (encode_resp r)
unfolding encode_resp
encode_resp_pos null_bulk_string = omega arith
encode_resp_pos _ = omega arith

parse_single_resp-nil : parse_single_resp [] ≡ ok (none, [])
unfolding parse_single_resp
parse_single_resp-nil = refl

pub resp_loop-next :
    (f : ℕ) (acc : List Resp) (r : Resp) (input rest : Bytes)
    → parse_single_resp input ≡ ok (some r, rest)
    → resp_loop (suc f) acc input ≡ resp_loop f (acc ++ r ∷ []) rest
unfolding resp_loop
resp_loop-next f acc r input rest e = rw (e, resp_loop)

pub resp_loop-encode_all :
    (f : ℕ) (acc : List Resp) (els : Resps)
    → AllWire els
    → length (encode_all els) < f
    → resp_loop f acc (encode_all els) ≡ ok (acc ++ elements els, [])
unfolding IsWire encode_resp
resp_loop-encode_all zero acc els w h = elim h [ ]
resp_loop-encode_all (suc f) acc nil w h =
    unfold resp_loop in rw (parse_single_resp-nil, resp_loop, append-nil)
resp_loop-encode_all (suc f) acc (cons el els) w h =
    resp_loop-next f acc el (encode_resp el ++ encode_all els) (encode_all els)
      (parse_single_resp-encode_resp el (encode_all els) w.0)
    ∙ resp_loop-encode_all f (acc ++ el ∷ []) els w.1 (omega (lengths, encode_resp_pos el))
    ∙ ap (λ (x : List Resp). ok (x, [])) (append_assoc acc (el ∷ []) (elements els))

-- Any sequence of values that the format can carry, written one after the other, is parsed back whole: the loop of
-- `parse_resp` ends with all of them and no input left.
pub parse_resp-encode_all :
    (els : Resps) → AllWire els → parse_resp (encode_all els) ≡ ok (elements els, [])
unfolding parse_resp
parse_resp-encode_all els w =
    resp_loop-encode_all (suc (length (encode_all els))) [] els w (omega arith)

parse_bulk_string-file :
    (s t : Bytes)
    → length s < u64_mod
    → starts_with crlf t ≡ false
    → parse_bulk_string (b'$' ∷ (decimal (length s) ++ (crlf ++ (s ++ t)))) ≡ err (no_tag crlf)
unfolding parse_bulk_string
parse_bulk_string-file s t h e = rw (
  byte-same b'$' (decimal (length s) ++ (crlf ++ (s ++ t))),
  integer_u64-decimal (length s) (crlf ++ (s ++ t)) h refl,
  tag-append crlf (s ++ t),
  take-append s t,
  tag-other crlf t e,
)

parse_rdb_file-encode :
    (s t : Bytes)
    → length s < u64_mod
    → parse_rdb_file (b'$' ∷ (decimal (length s) ++ (crlf ++ (s ++ t)))) ≡ ok (some (file s), t)
unfolding parse_rdb_file
parse_rdb_file-encode s t h = rw (
  byte-same b'$' (decimal (length s) ++ (crlf ++ (s ++ t))),
  integer_u64-decimal (length s) (crlf ++ (s ++ t)) h refl,
  tag-append crlf (s ++ t),
  take-append s t,
)

file-read :
    (f : ℕ) (s t : Bytes)
    → length s < u64_mod
    → starts_with crlf t ≡ false
    → parse_nested (suc f) (encode_resp (file s) ++ t) ≡ ok (some (file s), t)
unfolding encode_resp dispatch
file-read f s t h e =
    rw
      (
        append_assoc (decimal (length s)) (crlf ++ s) t,
        parse_nested-dollar f (length s) (crlf ++ (s ++ t)),
      )
      (ap (λ o. or_else o (parse_rdb_file (b'$' ∷ (decimal (length s) ++ (crlf ++ (s ++ t))))))
          (parse_bulk_string-file s t h e)
        ∙ parse_rdb_file-encode s t h)

encode-file-crlf :
    (s t : Bytes) → encode_resp (bulk_string s) ++ t ≡ encode_resp (file s) ++ (crlf ++ t)
unfolding encode_resp
encode-file-crlf s t = simp append_assoc

-- An encoded RDB file shorter than 2^64, followed by bytes that do not begin with a line break, is
-- read back as a file. With a line break between them, the same bytes are read as a bulk string,
-- and the line break is consumed.
pub parse_single_resp-file :
    (s t : Bytes)
    → length s < u64_mod
    → starts_with crlf t ≡ false
    → (parse_single_resp (encode_resp (file s) ++ t) ≡ ok (some (file s), t))
      × (parse_single_resp (encode_resp (file s) ++ (crlf ++ t)) ≡ ok (some (bulk_string s), t))
unfolding parse_single_resp
parse_single_resp-file s t h no_break =
    (file-read (length (encode_resp (file s) ++ t)) s t h no_break, file_as_bulk)
  where
    file_as_bulk :
        parse_single_resp (encode_resp (file s) ++ (crlf ++ t)) ≡ ok (some (bulk_string s), t)
    file_as_bulk =
        rw (← encode-file-crlf s t)
          (parse_single_resp-encode_resp (bulk_string s) t (unfold IsWire in h))

-- No two values that the format can carry have the same encoding.
pub encode_resp-injective :
    (r q : Resp) → IsWire r → IsWire q → encode_resp r ≡ encode_resp q → r ≡ q
encode_resp-injective r q w v e =
    let read_r = parse_single_resp-encode_resp r [] w in
    let read_q = parse_single_resp-encode_resp q [] v in cc (read_r, read_q, e)

take_until-short : (d s : Bytes) → length s < length d → take_until d s ≡ panic
unfolding take_until
take_until-short d s h = rw (lt→ltb (length s) (length d) h)

parse_simple_string-short : (s : Bytes) → length s < 2 → parse_simple_string (b'+' ∷ s) ≡ panic
unfolding parse_simple_string
parse_simple_string-short s h = rw (byte-same b'+' s, take_until-short crlf s h)

parse_simple_error-short : (s : Bytes) → length s < 2 → parse_simple_error (b'-' ∷ s) ≡ panic
unfolding parse_simple_error
parse_simple_error-short s h = rw (byte-same b'-' s, take_until-short crlf s h)

-- A line that is cut off right after its first byte, or one byte later, is a panic and no error:
-- `take_until` subtracts the delimiter's length from that of a shorter input.
parse_single_resp-cut_line :
    (s : Bytes)
    → length s < 2
    → (parse_single_resp (b'+' ∷ s) ≡ panic) × (parse_single_resp (b'-' ∷ s) ≡ panic)
unfolding parse_single_resp dispatch
parse_single_resp-cut_line s h = (
  rw (parse_nested-line (suc (length s)) b'+' s (omega arith) (omega arith))
      (parse_simple_string-short s h),
  rw (parse_nested-line (suc (length s)) b'-' s (omega arith) (omega arith))
      (parse_simple_error-short s h),
)
