-- ===== src/Parser/Float.antt =====
-- src/parser.rs: `float`, for any type that is read from a string: its `from_str` is the argument
-- `from_str`.
use rust_redis.Prelude.{Option, none, some, Bytes, codes}
use rust_redis.Utf8.{from_utf8}
use rust_redis.Parser.{Outcome, ok, panic, ◌>>=◌, Parser}
use rust_redis.Parser.Slices.{byte, tag}
use rust_redis.Parser.Numeric.{digits, sign, parsed}
use rust_redis.Parser.Combinators.{and2, and3, or2, or3, or4, opt, recognize}

abbrev dot : Parser Bytes
dot = recognize (byte b'.')

abbrev exp : Parser Bytes
exp = recognize (and3 (recognize (or2 (byte b'e') (byte b'E'))) (opt sign) digits)

abbrev number_digits : Parser Bytes
number_digits =
    or3 (recognize (and3 digits dot (opt digits))) (recognize (and3 (opt digits) dot digits))
      (recognize digits)

abbrev float_number : Parser Bytes
float_number = recognize (and2 number_digits (opt exp))

-- The literals are written as the source writes them.
abbrev special : Parser Bytes
special =
    or4 (recognize (tag (codes "inifinity"))) (recognize (tag (codes "inf")))
      (recognize (tag (codes "nan"))) float_number

-- The parser `f`: the text of a number.
unfoldable pub float_text : Parser Bytes
unfolding digits sign byte tag opt recognize
float_text = recognize (and2 (opt sign) special)

module _ {ℓ} {T : Type ℓ} (from_str : Bytes → Option T) where
  -- The rest after `from_utf8(bytes).unwrap()`.
  abbrev read_string : Bytes → Option Bytes → Outcome (T × Bytes)
  read_string rest none = panic
  read_string rest (some string) = do n ← parsed string (from_str string); ok (n, rest)

  unfoldable pub float : Parser T
  unfolding float_text from_utf8
  float input = do (bytes, rest) ← float_text input; read_string rest (from_utf8 bytes)
