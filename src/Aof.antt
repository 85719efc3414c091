-- ===== src/Aof.antt =====
-- src/aof.rs: the append-only file. The opened file is its bytes. What `read` gives
-- of the file is an argument where the commands are read back.
pub mod Manifest
pub mod Files
pub mod Start
pub mod RoundTrip
pub mod Examples
use rust_redis.Prelude.{Bool, Option, none, some, List, [], ◌∷◌, ◌++◌, Bytes, codes, if◌then◌else◌}
use rust_redis.Prelude.Keys.{bytes_eq}
use rust_redis.Parser.{Outcome, ok, ◌>>=◌}
use rust_redis.Resp.{Resp}
use rust_redis.Resp.Encode.{encode_resp}
use rust_redis.Resp.Decode.{parse_resp}
use rust_redis.Command.{Command}
use rust_redis.Command.Wire.{to_resp}
use rust_redis.Command.Read.{from_resp}
use rust_redis.Command.Read.Args.{unwrap}
use rust_redis.Platform.{Platform}
use rust_redis.Rdb.{unwrapped}

pub record Aof : Type 0 where
  pub dir : Bytes
  pub appendonly : Bytes
  pub appenddirname : Bytes
  pub appendfilename : Bytes
  pub appendfsync : Bytes
  pub aof : Option Bytes

unfoldable pub append : Resp → Aof → Aof
append r self = elim self.aof [
  | none ↦ self
  | some file ↦ record self { aof = some (file ++ encode_resp r) }
]

-- `if let Some(resp) = command.to_resp() { aof.append(resp).await; }` of `run_store`
unfoldable pub append_some : Option Resp → Aof → Aof
unfolding append
append_some none self = self
append_some (some r) self = append r self

unfoldable pub append_command : Command → Aof → Outcome Aof
unfolding append_some
append_command command self = do r ← to_resp command; ok (append_some r self)

-- `resps.iter().map(|r| Command::from_resp(r).unwrap()).collect()`
unfoldable pub commands_of : Platform → List Resp → Outcome (List Command)
unfolding from_resp
commands_of p [] = ok []
commands_of p (r ∷ rs) = do
  read ← from_resp p r
  command ← unwrap read
  commands ← commands_of p rs
  ok (command ∷ commands)

unfoldable pub get_initial_commands : Platform → Option Bytes → Aof → Outcome (List Command)
unfolding commands_of
get_initial_commands p read self =
    if bytes_eq self.appendonly (codes "yes")
    then (do bytes ← unwrap read; (resps, _) ← unwrapped (parse_resp bytes); commands_of p resps)
    else ok []
