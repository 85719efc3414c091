-- ===== src/Command/Read/Basic.antt =====
-- src/command.rs: `from_resp` for ECHO, PING, SET, GET and the transactions.
use rust_redis.Prelude.{
  ℕ, Option, none, some, List, [], ◌∷◌, Bytes, codes, if◌then◌else◌, get_elem?,
}
use rust_redis.Prelude.Keys.{bytes_eq}
use rust_redis.Number.{parse_u64}
use rust_redis.Parser.{Outcome, ok, ◌>>=◌}
use rust_redis.Resp.{Resp, get_bytes}
use rust_redis.Command.{Command}
use rust_redis.Command.Read.Args.{text, raw, parsed, raws, from, ascii_upper}

-- `els.get(i).and_then(|el| el.get_bytes())`
abbrev pub optional : List Resp → ℕ → Option Bytes
optional els i = elim (get_elem? els i) [ none ↦ none | some el ↦ get_bytes el ]

-- `match els[3]… { "EX" => …, "PX" => …, _ => (None, None) }`
abbrev lifetimes : Bytes → ℕ → Option ℕ × Option ℕ
lifetimes option ttl =
    if bytes_eq option (codes "EX")
    then (some ttl, none)
    else if bytes_eq option (codes "PX")
    then (none, some ttl)
    else (none, none)

unfoldable pub set_command : List Resp → Outcome (Option Command)
unfolding raw text ascii_upper
set_command (a ∷ b ∷ c ∷ []) = do
  key ← raw (a ∷ b ∷ c ∷ []) 1
  value ← raw (a ∷ b ∷ c ∷ []) 2
  ok (some (Command.set key value none none))
set_command (a ∷ b ∷ c ∷ d ∷ e ∷ []) = do
  ttl ← parsed parse_u64 (a ∷ b ∷ c ∷ d ∷ e ∷ []) 4
  option ← text (a ∷ b ∷ c ∷ d ∷ e ∷ []) 3
  key ← raw (a ∷ b ∷ c ∷ d ∷ e ∷ []) 1
  value ← raw (a ∷ b ∷ c ∷ d ∷ e ∷ []) 2
  ok (let (ex, px) = lifetimes (ascii_upper option) ttl in some (Command.set key value ex px))
set_command _ = ok none

-- `els[1..].iter().map(|k| Key(k.get_bytes().unwrap())).collect()`
abbrev watched_keys : List Resp → Outcome (Option Command)
unfolding raws
watched_keys els = do rest ← from els 1; keys ← raws rest; ok (some (Command.watch keys))

abbrev keyed : (Bytes → Command) → List Resp → Outcome (Option Command)
unfolding raw
keyed command els = do key ← raw els 1; ok (some (command key))

unfoldable pub basic_command :
    Bytes → List Resp → Outcome (Option Command) → Outcome (Option Command)
unfolding set_command watched_keys keyed
basic_command name els other =
    if bytes_eq name (codes "ECHO")
    then keyed Command.echo els
    else if bytes_eq name (codes "PING")
    then ok (some (Command.ping (optional els 1)))
    else if bytes_eq name (codes "SET")
    then set_command els
    else if bytes_eq name (codes "GET")
    then keyed Command.get els
    else if bytes_eq name (codes "INCR")
    then keyed Command.incr els
    else if bytes_eq name (codes "MULTI")
    then ok (some Command.multi)
    else if bytes_eq name (codes "EXEC")
    then ok (some Command.exec)
    else if bytes_eq name (codes "DISCARD")
    then ok (some Command.discard)
    else if bytes_eq name (codes "WATCH")
    then watched_keys els
    else if bytes_eq name (codes "UNWATCH")
    then ok (some Command.unwatch)
    else other
