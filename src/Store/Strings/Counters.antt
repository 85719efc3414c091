-- ===== src/Store/Strings/Counters.antt =====
-- src/main.rs: INCR as a counter.
use rust_redis.Prelude.{
  ℕ, zero, suc, ◌<◌, ◌≡◌, refl, Option, none, some, arith, Bytes, append-nil, [], ne→not_==,
  i64_half,
}
use rust_redis.Prelude.Int.{pos}
use rust_redis.Prelude.Keys.{bytes_eq_iff, bytes_keys, lookup-insert}
use rust_redis.Number.{decimal, decimal_i64}
use rust_redis.Parser.{ok}
use rust_redis.Parser.Numeric.{integer_i64}
use rust_redis.Parser.Reads.{integer_i64-decimal_i64}
use rust_redis.Resp.{integer}
use rust_redis.Command.{Key}
use rust_redis.Store.{Store, str, TryExecuteResult, done, put, str_at, expire_at}
use rust_redis.Store.Strings.{next_i64, incr}

pub str_at-put :
    (key : Key) (s : Bytes) (ex : Option ℕ) (self : Store)
    → str_at key (put key (str s) ex self) ≡ some s
unfolding str_at put
str_at-put key s ex self = rw (lookup-insert, (bytes_eq_iff key key).1 refl)

reads_counter : (n : ℕ) → n < i64_half → integer_i64 (decimal n) ≡ ok (pos n, [])
unfolding decimal_i64
reads_counter n h = rw append-nil at (integer_i64-decimal_i64 (pos n) [] h tt)

incr-next :
    (n : ℕ) (key : Key) (self : Store)
    → n < i64_half
    → str_at key self ≡ some (decimal n)
    → incr key self ≡ (
      put key (str (decimal_i64 (next_i64 (pos n)))) (expire_at key self) self,
      done (integer (next_i64 (pos n))),
    )
unfolding incr
incr-next n key self h e = rw (e, reads_counter n h, incr)

next_i64-below : (n : ℕ) → suc n < i64_half → next_i64 (pos n) ≡ pos (suc n)
unfolding next_i64
next_i64-below n h = rw (ne→not_== (suc n) i64_half (omega arith))

-- INCR on a key without a string, and then `n` times more: the store, and the last reply.
unfoldable pub incr_times : ℕ → Key → Store → Store × TryExecuteResult
incr_times zero key self = incr key self
incr_times (suc n) key self = incr key (incr_times n key self).0

-- INCR counts: on a key that holds no string, the first of `n + 1` increments replies with 1 and the
-- last with `n + 1`, which the key then holds in decimal, as long as this is below 2^63.
pub incr_times-count :
    (n : ℕ) (key : Key) (self : Store)
    → str_at key self ≡ none
    → suc n < i64_half
    → ((incr_times n key self).1 ≡ done (integer (pos (suc n))))
      × (str_at key (incr_times n key self).0 ≡ some (decimal (suc n)))
unfolding incr_times decimal_i64
incr_times-count zero key self e h =
    unfold incr in rw (e, incr) (refl, str_at-put key (decimal 1) none self)
incr_times-count (suc n) key self e h =
    let before = incr_times-count n key self e (omega arith) in
    rw
      (
        incr-next (suc n) key (incr_times n key self).0 (omega arith) before.1,
        next_i64-below (suc n) h,
      )
      (refl, str_at-put key (decimal (suc (suc n))) _ (incr_times n key self).0)
