-- ===== src/Store/Strings/Lifetimes.antt =====
-- src/main.rs: what GET replies after SET, with and without an expiration.
use rust_redis.Prelude.{
  ℕ, ◌+◌, ◌*◌, ◌%◌, ◌<◌, ◌≡◌, refl, inl, inr, Bool-cases, Option, none, some, arith, Bytes, leb,
  if◌then◌else◌, u64_mod,
}
use rust_redis.Prelude.Keys.{bytes_eq, bytes_keys, lookup-insert}
use rust_redis.Resp.{Resp, null_bulk_string, bulk_string}
use rust_redis.Command.{Key}
use rust_redis.Store.{Store, done, put}
use rust_redis.Store.Strings.{expiration, expired, command_set, command_get}

-- For how many milliseconds the options EX and PX let a value live.
abbrev pub lifetime : Option ℕ → Option ℕ → Option ℕ
lifetime (some secs) px = some (secs * 1000)
lifetime none px = px

abbrev pub Fits : ℕ → Option ℕ → Type 0
Fits now none = now < u64_mod
Fits now (some ms) = now + ms < u64_mod

-- The value as long as it lives.
abbrev pub visible : ℕ → ℕ → Option ℕ → Bytes → Resp
visible now later none value = bulk_string value
visible now later (some ms) value =
    if leb later (now + ms) then bulk_string value else null_bulk_string

expired-expiration :
    (now later : ℕ) (ex px : Option ℕ) (value : Bytes)
    → Fits now (lifetime ex px)
    → (if expired later (expiration now ex px) then null_bulk_string else bulk_string value)
      ≡ visible now later (lifetime ex px) value
expired-expiration now later none none value h = refl
expired-expiration now later none (some ms) value h =
    let e : (now + ms) % u64_mod ≡ now + ms = omega arith in rw e (ground arith)
expired-expiration now later (some secs) px value h =
    let e : (now + secs * 1000) % u64_mod ≡ now + secs * 1000 = omega arith in rw e (ground arith)

-- After SET, where the expiration does not overflow 64 bits, GET of the key replies with the value
-- while the clock has not passed the end of its lifetime and with null after that, and GET of
-- another key replies as before.
pub command_get-command_set :
    (now later : ℕ) (key k : Key) (value : Bytes) (ex px : Option ℕ) (self : Store)
    → Fits now (lifetime ex px)
    → (command_get later k (command_set now key value ex px self).0).1 ≡ (
        if bytes_eq key k
        then done (visible now later (lifetime ex px) value)
        else (command_get later k self).1)
unfolding command_get command_set put
command_get-command_set now later key k value ex px self h = elim (Bool-cases (bytes_eq key k)) [
  | inl same ↦ rw (lookup-insert, same) (rw (expired-expiration now later ex px value h))
  | inr other ↦ rw (lookup-insert, other)
]
