-- ===== src/Resp/Decode.antt =====
-- src/resp.rs: the parsers of RESP.
use rust_redis.Prelude.{
  ℕ, zero, suc, Option, none, some, List, [], ◌∷◌, ◌++◌, codes, crlf, ◌==◌, if◌then◌else◌, length,
  drop,
}
use rust_redis.Parser.{
  Outcome, ok, err, panic, out_of_fuel, Parser, unknown_first_byte, end_of_array, ◌>>=◌, or_else,
}
use rust_redis.Parser.Slices.{starts_with, byte, tag, take, take_until}
use rust_redis.Parser.Combinators.{and2, and3}
use rust_redis.Parser.Numeric.{integer_u64, integer_i64}
use rust_redis.Resp.{
  Resp, Resps, null_bulk_string, null_array, simple_string, bulk_string, simple_error, integer,
  file, array, nil, cons,
}

unfoldable pub parse_simple_string : Parser (Option Resp)
parse_simple_string input = do
  (parts, rest) ← and3 (byte b'+') (take_until crlf) (tag crlf) input
  ok (some (simple_string parts.1), rest)

unfoldable pub parse_simple_error : Parser (Option Resp)
parse_simple_error input = do
  (parts, rest) ← and3 (byte b'-') (take_until crlf) (tag crlf) input
  ok (some (simple_error parts.1), rest)

unfoldable pub parse_integer : Parser (Option Resp)
parse_integer input = do
  (parts, rest) ← and3 (byte b':') integer_i64 (tag crlf) input
  ok (some (integer parts.1), rest)

unfoldable pub parse_bulk_string : Parser (Option Resp)
parse_bulk_string input = do
  (head, rest) ← and2 (byte b'$') integer_u64 input
  (parts, rest') ← and3 (tag crlf) (take head.1) (tag crlf) rest
  ok (some (bulk_string parts.1), rest')

unfoldable pub parse_rdb_file : Parser (Option Resp)
parse_rdb_file input = do
  (head, rest) ← and2 (byte b'$') integer_u64 input
  (parts, rest') ← and2 (tag crlf) (take head.1) rest
  ok (some (file parts.1), rest')

-- `if let Some(resp) = el`, else the error of `parse_array`
abbrev pub present : ℕ → Option Resp → Outcome Resp
present l (some resp) = ok resp
present l none = err (end_of_array l)

-- `for _ in 0..l`, with the rounds that are left; `parse` is `parse_single_resp`.
unfoldable pub parse_elements : Parser (Option Resp) → ℕ → ℕ → Parser Resps
parse_elements parse l zero input = ok (nil, input)
parse_elements parse l (suc rounds) input = do
  (el, rest) ← parse input
  resp ← present l el
  (more, rest') ← parse_elements parse l rounds rest
  ok (cons resp more, rest')

unfoldable pub parse_array : Parser (Option Resp) → Parser (Option Resp)
unfolding parse_elements
parse_array parse input = do
  (head, rest) ← and3 (byte b'*') integer_u64 (tag crlf) input
  (els, rest') ← parse_elements parse head.1 head.1 rest
  ok (some (array els), rest')

-- `match input[0]`
unfoldable pub dispatch : Parser (Option Resp) → ℕ → Parser (Option Resp)
unfolding parse_array parse_bulk_string parse_rdb_file parse_simple_string parse_simple_error
    parse_integer
dispatch parse first input =
    if first == b'$'
    then or_else (parse_bulk_string input) (parse_rdb_file input)
    else if first == b'+'
    then parse_simple_string input
    else if first == b'-'
    then parse_simple_error input
    else if first == b'*'
    then parse_array parse input
    else if first == b':'
    then parse_integer input
    else err (unknown_first_byte first)

-- Each level of nesting costs a unit of fuel.
unfoldable pub parse_nested : ℕ → Parser (Option Resp)
unfolding dispatch
parse_nested zero input = out_of_fuel
parse_nested (suc fuel) [] = ok (none, [])
parse_nested (suc fuel) (first ∷ tail) =
    let input = first ∷ tail in
    if starts_with (codes "$-1\r\n") input
    then ok (some null_bulk_string, drop 5 input)
    else if starts_with (codes "*-1\r\n") input
    then ok (some null_array, drop 5 input)
    else dispatch (parse_nested fuel) first input

unfoldable pub parse_single_resp : Parser (Option Resp)
unfolding parse_nested
parse_single_resp input = parse_nested (suc (length input)) input

-- The loop of `parse_resp`: an error is a panic, the end of the input ends it.
unfoldable pub resp_loop : ℕ → List Resp → Parser (List Resp)
resp_loop zero resp next_input = out_of_fuel
resp_loop (suc fuel) resp next_input = elim (parse_single_resp next_input) [
  | ok (some new_resp, new_input) ↦ resp_loop fuel (resp ++ new_resp ∷ []) new_input
  | ok (none, new_input) ↦ ok (resp, new_input)
  | err e ↦ panic
  | panic ↦ panic
  | out_of_fuel ↦ out_of_fuel
]

unfoldable pub parse_resp : Parser (List Resp)
unfolding resp_loop
parse_resp input = resp_loop (suc (length input)) [] input
