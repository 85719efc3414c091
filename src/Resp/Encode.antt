-- ===== src/Resp/Encode.antt =====
-- src/resp.rs: `encode_resp`, that is `Resp::to_bytes`.
use rust_redis.Prelude.{[], ◌∷◌, ◌++◌, Bytes, codes, crlf, length}
use rust_redis.Number.{decimal, decimal_i64}
use rust_redis.Resp.{
  Resp, Resps, null_bulk_string, null_array, simple_string, bulk_string, simple_error, integer,
  file, array, nil, cons, count,
}

unfoldable mutual
  pub encode_resp : Resp → Bytes
  encode_resp null_bulk_string = codes "$-1\r\n"
  encode_resp null_array = codes "*-1\r\n"
  encode_resp (simple_string s) = b'+' ∷ (s ++ crlf)
  encode_resp (bulk_string s) = b'$' ∷ (decimal (length s) ++ (crlf ++ (s ++ crlf)))
  encode_resp (simple_error e) = b'-' ∷ (e ++ crlf)
  encode_resp (integer i) = b':' ∷ (decimal_i64 i ++ crlf)
  encode_resp (array els) = b'*' ∷ (decimal (count els) ++ (crlf ++ encode_all els))
  encode_resp (file f) = b'$' ∷ (decimal (length f) ++ (crlf ++ f))

  -- `for el in els { out.extend(encode_resp(el)); }`
  pub encode_all : Resps → Bytes
  encode_all nil = []
  encode_all (cons el els) = encode_resp el ++ encode_all els
