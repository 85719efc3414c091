-- ===== src/Store/Strings.antt =====
-- src/main.rs: SET, GET, INCR, TYPE and KEYS.
pub mod Counters
pub mod Lifetimes
pub mod Examples
use rust_redis.Prelude.{
  ℕ, zero, suc, ◌+◌, ◌*◌, ◌%◌, Bool, false, Option, none, some, [], ◌∷◌, Bytes, codes, ltb, ◌==◌,
  if◌then◌else◌, u64_mod, i64_half,
}
use rust_redis.Prelude.Int.{ℤ, pos, negsuc}
use rust_redis.Prelude.Keys.{Dict, lookup, bytes_keys}
use rust_redis.Number.{decimal, decimal_i64}
use rust_redis.Parser.{Outcome, ok}
use rust_redis.Parser.Numeric.{integer_i64}
use rust_redis.Resp.{
  Resp, null_bulk_string, simple_string, bulk_string, simple_error, integer, array, Resps, nil,
  cons,
}
use rust_redis.Command.{Key}
use rust_redis.Store.{
  Store, Value, str, list, stream, TryExecuteResult, done, str_at, expire_at, put,
}

abbrev pub ok_done : TryExecuteResult
ok_done = done (simple_string (codes "OK"))

-- `match (ex, px)`
abbrev pub expiration : ℕ → Option ℕ → Option ℕ → Option ℕ
expiration now (some secs) px = some ((now + secs * 1000) % u64_mod)
expiration now none (some ms) = some ((now + ms) % u64_mod)
expiration now none none = none

unfoldable pub command_set :
    ℕ → Key → Bytes → Option ℕ → Option ℕ → Store → Store × TryExecuteResult
unfolding put
command_set now key value ex px self = (put key (str value) (expiration now ex px) self, ok_done)

-- `Some(ms) if *ms < get_ms()`
abbrev pub expired : ℕ → Option ℕ → Bool
expired now none = false
expired now (some ms) = ltb ms now

abbrev get_reply : ℕ → Option Value → Resp
get_reply now none = null_bulk_string
get_reply now (some v) = elim v.value [
  | str value ↦ if expired now v.expire_ms then null_bulk_string else bulk_string value
  | list l ↦ null_bulk_string
  | stream s ↦ null_bulk_string
]

unfoldable pub command_get : ℕ → Key → Store → Store × TryExecuteResult
command_get now key self = (self, done (get_reply now (lookup key self.entries)))

-- `n + 1` on `i64`, which wraps around in the release profile. In the debug profile the sum above the
-- greatest i64 is a panic.
unfoldable pub next_i64 : ℤ → ℤ
next_i64 (pos n) = if suc n == i64_half then negsuc n else pos (suc n)
next_i64 (negsuc zero) = pos 0
next_i64 (negsuc (suc m)) = negsuc m

abbrev not_an_integer : TryExecuteResult
not_an_integer = done (simple_error (codes "ERR value is not an integer or out of range"))

-- `match result`; a panic of the parser does not happen here, and stands for no result.
unfoldable pub incremented : Key → Store → Outcome (ℤ × Bytes) → Store × TryExecuteResult
unfolding next_i64 put
incremented key self (ok (n, rest)) = (
  put key (str (decimal_i64 (next_i64 n))) (expire_at key self) self,
  done (integer (next_i64 n)),
)
incremented key self _ = (self, not_an_integer)

unfoldable pub incr : Key → Store → Store × TryExecuteResult
unfolding incremented
incr key self = elim (str_at key self) [
  | some s ↦ incremented key self (integer_i64 s)
  | none ↦ (put key (str (decimal 1)) none self, done (integer (pos 1)))
]

abbrev type_name : Option Value → Bytes
type_name none = codes "none"
type_name (some v) = elim v.value [
  | list l ↦ codes "list"
  | str s ↦ codes "string"
  | stream s ↦ codes "stream"
]

unfoldable pub type_of : Key → Store → Store × TryExecuteResult
type_of key self = (self, done (simple_string (type_name (lookup key self.entries))))

abbrev key_rows : Dict Key Value → Resps
key_rows [] = nil
key_rows ((key, v) ∷ entries) = cons (bulk_string key) (key_rows entries)

unfoldable pub command_keys : Store → Store × TryExecuteResult
command_keys self = (self, done (array (key_rows self.entries)))
