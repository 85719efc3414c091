-- ===== src/Platform.antt =====
-- What the program takes from the standard library and from crates and only calls: the arithmetic of
-- f64, its text, Unicode upper case, the debug print of a key, and the SHA-256 digest. A development
-- that needs one of their laws states it as a hypothesis.
use rust_redis.Prelude.{ℕ, Bool, Option, Bytes}
use rust_redis.Command.{F64, Key}

-- `f64`, as its 64 bits. `as_u32` and `as_u64` are the casts `x as u32` and `x as u64`, `of_u32` and
-- `of_u64` the casts back.
pub record Floats : Type 0 where
  pub add : F64 → F64 → F64
  pub sub : F64 → F64 → F64
  pub mul : F64 → F64 → F64
  pub div : F64 → F64 → F64
  pub sin : F64 → F64
  pub cos : F64 → F64
  pub asin : F64 → F64
  pub sqrt : F64 → F64
  pub to_radians : F64 → F64
  pub lt : F64 → F64 → Bool
  pub le : F64 → F64 → Bool
  pub as_u32 : F64 → ℕ
  pub as_u64 : F64 → ℕ
  pub of_u32 : ℕ → F64
  pub of_u64 : ℕ → F64
  pub parse : Bytes → Option F64
  pub to_string : F64 → Bytes

pub record Platform : Type 0 where
  pub floats : Floats
  pub to_uppercase : Bytes → Bytes
  pub debug_key : Key → Bytes
  pub sha256 : Bytes → Bytes
