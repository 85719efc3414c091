-- ===== src/Resp/Length.antt =====
-- `Resp::len` against the encoding.
use rust_redis.Prelude.{◌+◌, ◌≡◌, ◌++◌, arith, Bytes, length, length-append}
use rust_redis.Resp.{
  Resp, Resps, null_bulk_string, null_array, simple_string, bulk_string, simple_error, integer,
  file, array, nil, cons, len, len_sum,
}
use rust_redis.Resp.Encode.{encode_resp, encode_all}

length_bytes : (xs ys : Bytes) → length (xs ++ ys) ≡ length xs + length ys
length_bytes = length-append

ruleset lengths = (arith, length_bytes)

mutual
  unfolding len encode_resp

  len-eq : (r : Resp) → len r ≡ length (encode_resp r)
  len-eq null_bulk_string = omega lengths
  len-eq null_array = omega lengths
  len-eq (simple_string s) = omega lengths
  len-eq (bulk_string s) = omega lengths
  len-eq (simple_error e) = omega lengths
  len-eq (integer i) = omega lengths
  len-eq (file f) = omega lengths
  len-eq (array els) = omega (lengths, len_sum-eq els)

  len_sum-eq : (els : Resps) → len_sum els ≡ length (encode_all els)
  len_sum-eq nil = omega lengths
  len_sum-eq (cons el els) = omega (lengths, len-eq el, len_sum-eq els)

-- `len` is the number of bytes that `encode_resp` writes, for every value. The replica counts its
-- offset with `len` while the master sends the encoding.
pub len-encode_resp : (r : Resp) → len r ≡ length (encode_resp r)
len-encode_resp r = len-eq r
