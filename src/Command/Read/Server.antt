-- ===== src/Command/Read/Server.antt =====
-- src/command.rs: `from_resp` for the commands on the server, on replicas and on channels.
use rust_redis.Prelude.{
  ◌^◌, ◌&&◌, ◌==◌, Option, none, some, List, [], ◌∷◌, Bytes, codes, if◌then◌else◌, length,
  get_elem?,
}
use rust_redis.Prelude.Keys.{bytes_eq}
use rust_redis.Number.{parse_u64, parse_i64, parse_unsigned}
use rust_redis.Utf8.{is_utf8}
use rust_redis.Parser.{Outcome, ok, panic, ◌>>=◌}
use rust_redis.Resp.{Resp, get_str, get_bytes}
use rust_redis.Command.{Command}
use rust_redis.Command.Read.Args.{unwrap, text, parsed, raws, from, ascii_upper}
use rust_redis.Command.Read.Basic.{optional}

abbrev capa_command : List Resp → Outcome (Option Command)
unfolding raws
capa_command els = do
  rest ← from els 2
  capabilites ← raws rest
  ok (some (Command.replconf_capa capabilites))

abbrev port_command : List Resp → Outcome (Option Command)
unfolding text
port_command els = do
  port ← parsed (parse_unsigned (2 ^ 16)) els 2
  ok (some (Command.replconf_listening_port port))

abbrev ack_command : List Resp → Outcome (Option Command)
unfolding text
ack_command els = do ack_bytes ← parsed parse_u64 els 2; ok (some (Command.replconf_ack ack_bytes))

-- `match els[1]…to_ascii_uppercase()`
abbrev pub replconf_word : Bytes → List Resp → Outcome (Option Command)
unfolding capa_command port_command ack_command
replconf_word word els =
    if bytes_eq word (codes "LISTENING-PORT")
    then port_command els
    else if bytes_eq word (codes "CAPA")
    then capa_command els
    else if bytes_eq word (codes "GETACK")
    then ok (some Command.replconf_get_ack)
    else if bytes_eq word (codes "ACK")
    then ack_command els
    else panic

abbrev replconf_command : List Resp → Outcome (Option Command)
unfolding text ascii_upper replconf_word
replconf_command els = do word ← text els 1; replconf_word (ascii_upper word) els

abbrev psync_command : List Resp → Outcome (Option Command)
unfolding text
psync_command els = do
  replication_id ← text els 1
  offset ← parsed parse_i64 els 2
  ok (some (Command.psync replication_id offset))

abbrev wait_command : List Resp → Outcome (Option Command)
unfolding text
wait_command els = do
  numreplicas ← parsed parse_u64 els 1
  timeout ← parsed parse_u64 els 2
  ok (some (Command.wait numreplicas timeout))

-- `if let Some(subcommand) = els[1].get_str()`
abbrev pub config_word : Option Bytes → List Resp → Outcome (Option Command)
unfolding text
config_word none els = ok none
config_word (some subcommand) els =
    if bytes_eq subcommand (codes "GET") && length els == 3
    then (do parameter ← text els 2; ok (some (Command.config_get parameter)))
    else ok none

abbrev config_command : List Resp → Outcome (Option Command)
unfolding get_str config_word
config_command els = do el ← unwrap (get_elem? els 1); config_word (get_str el) els

abbrev keys_command : List Resp → Outcome (Option Command)
unfolding text
keys_command els = do pattern_text ← text els 1; ok (some (Command.keys pattern_text))

-- `String::from_utf8(e.get_bytes().unwrap()).unwrap()`
abbrev utf8 : Bytes → Outcome Bytes
unfolding is_utf8
utf8 s = if is_utf8 s then ok s else panic

unfoldable pub strings : List Resp → Outcome (List Bytes)
unfolding get_bytes utf8
strings [] = ok []
strings (el ∷ els) = do b ← unwrap (get_bytes el); s ← utf8 b; rest ← strings els; ok (s ∷ rest)

abbrev channels_command : (List Bytes → Command) → List Resp → Outcome (Option Command)
unfolding strings
channels_command command els = do
  rest ← from els 1
  channels ← strings rest
  ok (some (command channels))

abbrev publish_command : List Resp → Outcome (Option Command)
unfolding text
publish_command els = do
  channel ← text els 1
  message ← text els 2
  ok (some (Command.publish channel message))

unfoldable pub server_command :
    Bytes → List Resp → Outcome (Option Command) → Outcome (Option Command)
unfolding replconf_command psync_command wait_command config_command keys_command channels_command
    publish_command
server_command name els other =
    if bytes_eq name (codes "INFO")
    then ok (some (Command.info (optional els 1)))
    else if bytes_eq name (codes "REPLCONF")
    then replconf_command els
    else if bytes_eq name (codes "PSYNC")
    then psync_command els
    else if bytes_eq name (codes "WAIT")
    then wait_command els
    else if bytes_eq name (codes "CONFIG")
    then config_command els
    else if bytes_eq name (codes "KEYS")
    then keys_command els
    else if bytes_eq name (codes "SUBSCRIBE")
    then channels_command Command.subscribe els
    else if bytes_eq name (codes "PUBLISH")
    then publish_command els
    else if bytes_eq name (codes "UNSUBSCRIBE")
    then channels_command Command.unsubscribe els
    else other
