-- ===== src/Aof/Examples.antt =====
-- The theorem on the append-only file at concrete commands.
use rust_redis.Prelude.{◌≡◌, refl, none, some, List, [], ◌∷◌, Bytes, codes, arith}
use rust_redis.Parser.{ok}
use rust_redis.Resp.{vec, array, bulk_string}
use rust_redis.Resp.Wire.{IsWire}
use rust_redis.Command.{Command}
use rust_redis.Command.Wire.{to_resp}
use rust_redis.Command.Read.Examples.{
  plain, set_px, set_px_words, set_px-IsSendable, set_px-encoded, set_px-IsWire,
}
use rust_redis.Aof.{Aof, get_initial_commands}
use rust_redis.Aof.RoundTrip.{
  append_commands, IsLoggable, opened, get_initial_commands-append_commands,
}

abbrev log : Aof
log = record {
  dir = codes "/data";
  appendonly = codes "yes";
  appenddirname = codes "appendonlydir";
  appendfilename = codes "appendonly.aof.1.incr.aof";
  appendfsync = codes "everysec";
  aof = some [];
}

abbrev written : List Command
written = set_px ∷ Command.ping none ∷ set_px ∷ []

ping-IsLoggable : IsLoggable (Command.ping none)
unfolding to_resp IsWire
ping-IsLoggable =
    (tt, (array (vec (bulk_string (codes "PING") ∷ [])), refl, (omega arith, (omega arith, tt))))

set_px-IsLoggable : IsLoggable set_px
set_px-IsLoggable = (set_px-IsSendable, (set_px_words, set_px-encoded, set_px-IsWire))

get_initial_commands-append_commands_example :
    (file : Bytes) × (append_commands written (opened log []) ≡ ok (opened log file))
    × (get_initial_commands plain (some file) (opened log file) ≡ ok written)
get_initial_commands-append_commands_example =
    get_initial_commands-append_commands plain log written
      (set_px-IsLoggable, (ping-IsLoggable, (set_px-IsLoggable, tt)))
