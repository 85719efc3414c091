-- ===== src/Command/Read/Examples.antt =====
-- Runs of `from_resp` of src/command.rs, and its theorem at a concrete command.
use rust_redis.Prelude.{◌≡◌, refl, true, false, none, some, [], ◌∷◌, arith, codes}
use rust_redis.Prelude.Keys.{bytes_eq}
use rust_redis.Parser.{ok}
use rust_redis.Platform.{Platform, Floats}
use rust_redis.Resp.{Resp, array, vec, bulk_string}
use rust_redis.Resp.Wire.{IsWire}
use rust_redis.Command.{Command}
use rust_redis.Command.Wire.{to_resp, to_str}
use rust_redis.Command.Read.{from_resp, named}
use rust_redis.Command.Read.Args.{text, ascii_upper}
use rust_redis.Command.Read.Basic.{basic_command, set_command}
use rust_redis.Command.Read.RoundTrip.{IsSendable}
use rust_redis.Utf8.{is_utf8}
use rust_redis.Number.{decimal}

-- A platform whose floats are whole numbers of their bits.
abbrev plain_floats : Floats
plain_floats = record {
  add = λ x y. x;
  sub = λ x y. x;
  mul = λ x y. x;
  div = λ x y. x;
  sin = λ x. x;
  cos = λ x. x;
  asin = λ x. x;
  sqrt = λ x. x;
  to_radians = λ x. x;
  lt = λ x y. false;
  le = λ x y. true;
  as_u32 = λ x. 0;
  as_u64 = λ x. x;
  of_u32 = λ n. n;
  of_u64 = λ n. n;
  parse = λ s. none;
  to_string = λ x. [];
}

abbrev pub plain : Platform
plain = record {
  floats = plain_floats;
  to_uppercase = λ s. s;
  debug_key = λ key. key;
  sha256 = λ s. s;
}

-- SET k v PX 100
abbrev pub set_px : Command
set_px = Command.set (codes "k") (codes "v") none (some 100)

abbrev pub set_px_words : Resp
set_px_words = array (
    vec (
      bulk_string (codes "SET")
      ∷ bulk_string (codes "k")
      ∷ bulk_string (codes "v")
      ∷ bulk_string (codes "PX")
      ∷ bulk_string (codes "100")
      ∷ []))

pub set_px-IsSendable : IsSendable set_px
unfolding is_utf8
set_px-IsSendable = (refl, omega arith)

pub set_px-encoded : to_resp set_px ≡ ok (some set_px_words)
unfolding to_resp to_str decimal
set_px-encoded = refl

pub set_px-IsWire : IsWire set_px_words
unfolding IsWire
set_px-IsWire =
    (omega arith, (omega arith, (omega arith, (omega arith, (omega arith, (omega arith, tt))))))

-- Four words are no SET command, and the connection that unwraps the result panics.
four_words :
    from_resp plain (
      array (
        vec (
          bulk_string (codes "SET")
          ∷ bulk_string (codes "k")
          ∷ bulk_string (codes "v")
          ∷ bulk_string (codes "EX")
          ∷ [])))
    ≡ ok none
unfolding from_resp named text ascii_upper basic_command set_command bytes_eq
four_words = refl
