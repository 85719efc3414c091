-- ===== src/Command/Read.antt =====
-- src/command.rs: `Command::from_resp`. An index out of range, `unwrap` of `None` or of an error, and
-- a failed `assert!` are panics. The one `match` on the name is a chain of families here, each of
-- which passes on the names that it does not know.
pub mod Args
pub mod Ids
pub mod Basic
pub mod Data
pub mod Server
pub mod Scored
pub mod RoundTrip
pub mod Examples
use rust_redis.Prelude.{ℕ, Option, none, some, List, [], ◌∷◌, Bytes}
use rust_redis.Parser.{Outcome, ok, panic, ◌>>=◌}
use rust_redis.Platform.{Platform}
use rust_redis.Resp.{Resp, array, elements}
use rust_redis.Command.{Command}
use rust_redis.Command.Read.Args.{text, ascii_upper}
use rust_redis.Command.Read.Basic.{basic_command}
use rust_redis.Command.Read.Data.{data_command}
use rust_redis.Command.Read.Server.{server_command}
use rust_redis.Command.Read.Scored.{scored_command}

-- `match name`
unfoldable pub named : Platform → Bytes → List Resp → Outcome (Option Command)
unfolding basic_command data_command server_command scored_command
named p name els =
    basic_command name els
      (data_command p name els (server_command name els (scored_command p name els (ok none))))

-- `Command::from_resp`
unfoldable pub from_resp : Platform → Resp → Outcome (Option Command)
unfolding text ascii_upper
from_resp p (array els) = do name ← text (elements els) 0; named p (ascii_upper name) (elements els)
from_resp p _ = ok none
