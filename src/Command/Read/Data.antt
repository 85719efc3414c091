-- ===== src/Command/Read/Data.antt =====
-- src/command.rs: `from_resp` for the commands on lists and on streams.
use rust_redis.Prelude.{
  ℕ, ◌+◌, ◌/◌, ◌%◌, ◌^◌, true, false, Option, none, some, List, [], ◌∷◌, Bytes, codes, ◌==◌,
  if◌then◌else◌, get_elem?, length, take, drop,
}
use rust_redis.Prelude.Int.{ℤ}
use rust_redis.Prelude.Keys.{bytes_eq}
use rust_redis.Number.{parse_u64, parse_unsigned, parse_signed}
use rust_redis.Parser.{Outcome, ok, panic, ◌>>=◌}
use rust_redis.Platform.{Platform}
use rust_redis.Resp.{Resp, get_str}
use rust_redis.Command.{Command, XreadStreamIdInput}
use rust_redis.Command.Read.Args.{unwrap, text, raw, parsed, raws, from, ascii_upper}
use rust_redis.Command.Read.Ids.{
  parse_input_stream_id, parse_xread_stream_id_input, range_start, range_end,
}

-- `match els.len() { 0 | 1 | 2 => None, _ => … }`
abbrev push_command : (Bytes → List Bytes → Command) → List Resp → Outcome (Option Command)
unfolding raw raws
push_command command (a ∷ b ∷ c ∷ els) = do
  key ← raw (a ∷ b ∷ c ∷ els) 1
  elements ← raws (c ∷ els)
  ok (some (command key elements))
push_command command _ = ok none

-- `els.get(2).map(|e| e.get_str().unwrap().parse().unwrap())`, a `u32`
abbrev pub optional_count : Option Resp → Outcome (Option ℕ)
unfolding get_str
optional_count none = ok none
optional_count (some el) = do
  s ← unwrap (get_str el)
  n ← unwrap (parse_unsigned (2 ^ 32) s)
  ok (some n)

-- `els[1..els.len() - 1]` and `els.last()`; without an argument the name is what does not parse.
abbrev blpop_command : Platform → List Resp → Outcome (Option Command)
unfolding text raws
blpop_command p (a ∷ b ∷ els) = do
  timeout ← parsed p.floats.parse (b ∷ els) (length els)
  keys ← raws (take (length els) (b ∷ els))
  ok (some (Command.blpop keys timeout))
blpop_command p _ = panic

-- An `i32`
abbrev pub i32_at : List Resp → ℕ → Outcome ℤ
i32_at els i = parsed (parse_signed (2 ^ 31)) els i

abbrev lrange_command : List Resp → Outcome (Option Command)
unfolding raw text
lrange_command els = do
  key ← raw els 1
  start ← i32_at els 2
  end ← i32_at els 3
  ok (some (Command.lrange key start end))

abbrev xadd_command : List Resp → Outcome (Option Command)
unfolding raw raws parse_input_stream_id
xadd_command els = do
  id_bytes ← raw els 2
  key ← raw els 1
  parsed_id ← parse_input_stream_id id_bytes
  id ← unwrap parsed_id
  rest ← from els 3
  field_values ← raws rest
  ok (some (Command.xadd key id field_values))

abbrev xrange_command : List Resp → Outcome (Option Command)
unfolding raw range_start range_end
xrange_command els = do
  key ← raw els 1
  s ← raw els 2
  e ← raw els 3
  start ← range_start s
  end ← range_end e
  ok (some (Command.xrange key start end))

-- `.map(|id| parse_xread_stream_id_input(…).unwrap()).collect()`
unfoldable pub xread_ids : List Bytes → Outcome (List XreadStreamIdInput)
unfolding parse_xread_stream_id_input
xread_ids [] = ok []
xread_ids (s ∷ ss) = do
  parsed_id ← parse_xread_stream_id_input s
  id ← unwrap parsed_id
  ids ← xread_ids ss
  ok (id ∷ ids)

-- From the word STREAMS on, which has to stand at `i`.
abbrev pub xread_streams : List Resp → ℕ → Option ℕ → Outcome (Option Command)
unfolding text raws xread_ids ascii_upper
xread_streams els i milliseconds = do
  word ← text els i
  rest ← (if bytes_eq (ascii_upper word) (codes "STREAMS") then from els (i + 1) else panic)
  half ← (if length rest % 2 == 0 then ok (length rest / 2) else panic)
  keys ← raws (take half rest)
  id_texts ← raws (drop half rest)
  ids ← xread_ids id_texts
  ok (some (Command.xread keys milliseconds ids))

abbrev xread_command : List Resp → Outcome (Option Command)
unfolding text ascii_upper
xread_command els = do
  word ← text els 1
  elim (bytes_eq (ascii_upper word) (codes "BLOCK")) [
    | true ↦ (do ms ← parsed parse_u64 els 2; xread_streams els 3 (some ms))
    | false ↦ xread_streams els 1 none
  ]

abbrev keyed : (Bytes → Command) → List Resp → Outcome (Option Command)
unfolding raw
keyed command els = do key ← raw els 1; ok (some (command key))

abbrev lpop_command : List Resp → Outcome (Option Command)
unfolding raw
lpop_command els = do
  key ← raw els 1
  count ← optional_count (get_elem? els 2)
  ok (some (Command.lpop key count))

unfoldable pub data_command :
    Platform → Bytes → List Resp → Outcome (Option Command) → Outcome (Option Command)
unfolding push_command lrange_command keyed lpop_command blpop_command xadd_command xrange_command
    xread_command
data_command p name els other =
    if bytes_eq name (codes "RPUSH")
    then push_command Command.rpush els
    else if bytes_eq name (codes "LRANGE")
    then lrange_command els
    else if bytes_eq name (codes "LPUSH")
    then push_command Command.lpush els
    else if bytes_eq name (codes "LLEN")
    then keyed Command.llen els
    else if bytes_eq name (codes "LPOP")
    then lpop_command els
    else if bytes_eq name (codes "BLPOP")
    then blpop_command p els
    else if bytes_eq name (codes "TYPE")
    then keyed Command.type_of els
    else if bytes_eq name (codes "XADD")
    then xadd_command els
    else if bytes_eq name (codes "XRANGE")
    then xrange_command els
    else if bytes_eq name (codes "XREAD")
    then xread_command els
    else other
