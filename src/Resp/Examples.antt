-- ===== src/Resp/Examples.antt =====
-- Runs of src/resp.rs, and the theorems on the codec at concrete values.
use rust_redis.Prelude.{◌≡◌, refl, some, [], ◌∷◌, ◌++◌, arith, codes, crlf, false}
use rust_redis.Prelude.Int.{negsuc}
use rust_redis.Number.{decimal_i64, parse_unsigned}
use rust_redis.Parser.{ok}
use rust_redis.Parser.Slices.{starts_with, take, take_until, tag}
use rust_redis.Parser.Numeric.{integer}
use rust_redis.Resp.{Resp, simple_string, bulk_string, integer as number, file, array, nil, cons}
use rust_redis.Resp.Encode.{encode_resp}
use rust_redis.Resp.Decode.{parse_single_resp, parse_resp}
use rust_redis.Resp.Progress.{AllRead, parse_resp-AllRead}
use rust_redis.Resp.Wire.{IsWire}
use rust_redis.Resp.RoundTrip.{parse_single_resp-encode_resp, parse_single_resp-file}

-- *2\r\n$2\r\nhi\r\n:-5\r\n
abbrev sample : Resp
sample = array (cons (bulk_string (codes "hi")) (cons (number (negsuc 4)) nil))

sample-IsWire : IsWire sample
unfolding IsWire
sample-IsWire = (omega arith, (omega arith, (omega arith, tt)))

parse_single_resp-encode_resp_example :
    parse_single_resp (encode_resp sample ++ codes "+PING") ≡ ok (some sample, codes "+PING")
parse_single_resp-encode_resp_example =
    parse_single_resp-encode_resp sample (codes "+PING") sample-IsWire

parse_resp-AllRead_example : AllRead (parse_resp (codes "*3\r\n:1\r\n"))
parse_resp-AllRead_example = parse_resp-AllRead (codes "*3\r\n:1\r\n")

no_break : starts_with crlf (codes "*1") ≡ false
unfolding starts_with
no_break = refl

parse_single_resp-file_example :
    (parse_single_resp (encode_resp (file (codes "REDIS")) ++ codes "*1")
      ≡ ok (some (file (codes "REDIS")), codes "*1"))
    × (parse_single_resp (encode_resp (file (codes "REDIS")) ++ (crlf ++ codes "*1"))
        ≡ ok (some (bulk_string (codes "REDIS")), codes "*1"))
parse_single_resp-file_example =
    parse_single_resp-file (codes "REDIS") (codes "*1") (omega arith) no_break

encode_runs : encode_resp sample ≡ codes "*2\r\n$2\r\nhi\r\n:-5\r\n"
unfolding encode_resp decimal_i64
encode_runs = refl

parse_runs :
    parse_resp (codes "+OK\r\n$3\r\nabc\r\n")
    ≡ ok (simple_string (codes "OK") ∷ bulk_string (codes "abc") ∷ [], [])
unfolding parse_resp parse_single_resp take_until integer parse_unsigned tag take
parse_runs = refl
