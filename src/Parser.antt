-- ===== src/Parser.antt =====
-- src/parser.rs: parser combinators on byte slices. A parser returns its value with the input that
-- is left, or an error; indexing out of range, a failed `assert!` and `unwrap` of an error are
-- `panic`. The text of an error's message is kept as the data that the message prints.
pub mod Slices
pub mod Combinators
pub mod Numeric
pub mod LengthEncoded
pub mod Reads
pub mod Shrinks
pub mod Float
pub mod Tests
use rust_redis.Prelude.{ℕ, List, Bytes}

pub data ParseError : Type 0 where
  no_byte : ℕ → ParseError
  no_tag : Bytes → ParseError
  too_few : ℕ → ℕ → ParseError
  no_match no_matches : ParseError
  no_delimiter : Bytes → ParseError
  not_a_number : Bytes → ParseError
  unknown_prefix : ℕ → ParseError
  unknown_first_byte : ℕ → ParseError
  end_of_array : ℕ → ParseError
  no_entry : ParseError

-- `out_of_fuel` belongs to the model: a loop was given too few rounds.
pub data Outcome {ℓ} (A : Type ℓ) : Type ℓ where
  ok : A → Outcome A
  err : ParseError → Outcome A
  panic out_of_fuel : Outcome A

infixl 5 ◌>>=◌
-- `let x = e?; …`
abbrev pub ◌>>=◌ {ℓ κ} : {A : Type ℓ} {B : Type κ} → Outcome A → (A → Outcome B) → Outcome B
ok a >>= f = f a
err e >>= f = err e
panic >>= f = panic
out_of_fuel >>= f = out_of_fuel

-- `match p.parse(input) { Ok(result) => Ok(result), _ => … }`: a panic is not caught.
abbrev pub or_else {ℓ} : {A : Type ℓ} → Outcome A → Outcome A → Outcome A
or_else (err e) other = other
or_else (ok a) other = ok a
or_else panic other = panic
or_else out_of_fuel other = out_of_fuel

abbrev pub Parser {ℓ} : Type ℓ → Type ℓ
Parser A = Bytes → Outcome (A × Bytes)
