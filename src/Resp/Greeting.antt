-- ===== src/Resp/Greeting.antt =====
-- src/resp.rs: what a master writes to a replica that attaches: a line, an RDB file and then values.
use rust_redis.Prelude.{
  ℕ, zero, suc, ◌<◌, ◌≡◌, refl, ◌∙◌, false, List, [], ◌∷◌, ◌++◌, Bytes, u64_mod, length, crlf,
}
use rust_redis.Parser.{ok}
use rust_redis.Parser.Reads.{lengths}
use rust_redis.Parser.Slices.{starts_with}
use rust_redis.Resp.{Resp, Resps, null_bulk_string, nil, cons, elements, file}
use rust_redis.Resp.Encode.{encode_resp, encode_all}
use rust_redis.Resp.Decode.{parse_resp, resp_loop}
use rust_redis.Resp.Wire.{IsWire, AllWire}
use rust_redis.Resp.RoundTrip.{
  parse_single_resp-encode_resp, parse_single_resp-file, resp_loop-next, resp_loop-encode_all,
  encode_resp_pos,
}

-- No encoding begins with a line break.
no_break : (value : Resp) (t : Bytes) → starts_with crlf (encode_resp value ++ t) ≡ false
unfolding encode_resp starts_with
no_break null_bulk_string t = refl
no_break _ t = refl

no_break_all : (els : Resps) → starts_with crlf (encode_all els) ≡ false
unfolding encode_all starts_with
no_break_all nil = refl
no_break_all (cons el els) = no_break el (encode_all els)

resp_loop-file :
    (g : ℕ) (acc : List Resp) (f : Bytes) (els : Resps)
    → length f < u64_mod
    → AllWire els
    → length (encode_resp (file f) ++ encode_all els) < g
    → resp_loop g acc (encode_resp (file f) ++ encode_all els)
      ≡ ok ((acc ++ file f ∷ []) ++ elements els, [])
resp_loop-file zero acc f els l w h = elim h [ ]
resp_loop-file (suc g) acc f els l w h =
    resp_loop-next g acc (file f) (encode_resp (file f) ++ encode_all els) (encode_all els)
      ((parse_single_resp-file f (encode_all els) l (no_break_all els)).0)
    ∙ resp_loop-encode_all g (acc ++ file f ∷ []) els w (omega (lengths, encode_resp_pos (file f)))

-- A value, an RDB file and values are read back, though the file is not followed by a line break.
pub parse_resp-file :
    (r : Resp) (f : Bytes) (els : Resps)
    → IsWire r
    → length f < u64_mod
    → AllWire els
    → parse_resp (encode_resp r ++ (encode_resp (file f) ++ encode_all els))
      ≡ ok (r ∷ file f ∷ elements els, [])
unfolding parse_resp
parse_resp-file r f els w l ws =
    let rest = encode_resp (file f) ++ encode_all els in
    resp_loop-next (length (encode_resp r ++ rest)) [] r (encode_resp r ++ rest) rest
      (parse_single_resp-encode_resp r rest w)
    ∙ resp_loop-file (length (encode_resp r ++ rest)) (r ∷ []) f els l ws
        (omega (lengths, encode_resp_pos r))
