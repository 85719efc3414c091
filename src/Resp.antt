-- ===== src/Resp.antt =====
-- src/resp.rs: the RESP data type and its accessors. The codec is in the modules below.
pub mod Encode
pub mod Decode
pub mod Length
pub mod Progress
pub mod Wire
pub mod Levels
pub mod RoundTrip
pub mod Greeting
pub mod Examples
use rust_redis.Prelude.{ℕ, zero, suc, ◌+◌, Option, none, some, List, [], ◌∷◌, Bytes, length}
use rust_redis.Prelude.Int.{ℤ}
use rust_redis.Number.{decimal, decimal_i64}
use rust_redis.Utf8.{from_utf8}

-- `Resps` is the `Vec<Resp>` inside an array.
mutual
  pub data Resp : Type 0 where
    null_bulk_string null_array : Resp
    simple_string bulk_string simple_error : Bytes → Resp
    integer : ℤ → Resp
    file : Bytes → Resp
    array : Resps → Resp

  pub data Resps : Type 0 where
    nil : Resps
    cons : Resp → Resps → Resps

-- `vec![…]`
abbrev pub vec : List Resp → Resps
vec [] = nil
vec (r ∷ rs) = cons r (vec rs)

abbrev pub elements : Resps → List Resp
elements nil = []
elements (cons r rs) = r ∷ elements rs

-- `els.len()`
abbrev pub count : Resps → ℕ
count nil = 0
count (cons r rs) = suc (count rs)

-- `Resp::len`: the number of bytes of the encoding, without encoding.
unfoldable mutual
  pub len : Resp → ℕ
  len null_bulk_string = 5
  len null_array = 5
  len (file f) = length (decimal (length f)) + length f + 3
  len (integer i) = 3 + length (decimal_i64 i)
  len (simple_string s) = 3 + length s
  len (bulk_string s) = 5 + length (decimal (length s)) + length s
  len (simple_error e) = 3 + length e
  len (array els) = length (decimal (count els)) + len_sum els + 3

  pub len_sum : Resps → ℕ
  len_sum nil = 0
  len_sum (cons el els) = len el + len_sum els

unfoldable pub get_str : Resp → Option Bytes
unfolding from_utf8
get_str null_bulk_string = none
get_str null_array = none
get_str (file f) = none
get_str (integer i) = none
get_str (array els) = none
get_str (simple_string s) = from_utf8 s
get_str (bulk_string s) = from_utf8 s
get_str (simple_error e) = from_utf8 e

unfoldable pub get_bytes : Resp → Option Bytes
get_bytes null_bulk_string = none
get_bytes null_array = none
get_bytes (file f) = some f
get_bytes (integer i) = none
get_bytes (array els) = none
get_bytes (simple_string s) = some s
get_bytes (bulk_string s) = some s
get_bytes (simple_error e) = some e
