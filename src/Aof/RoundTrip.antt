-- ===== src/Aof/RoundTrip.antt =====
-- src/aof.rs: `append`, and then `get_initial_commands` of the next start.
use rust_redis.Prelude.{
  ◌≡◌, refl, sym, ap, ◌∙◌, some, List, [], ◌∷◌, ◌++◌, append_assoc, append-nil, Bytes, codes, All,
}
use rust_redis.Prelude.Keys.{bytes_eq}
use rust_redis.Parser.{Outcome, ok, ◌>>=◌}
use rust_redis.Resp.{Resp, Resps, nil, cons, elements}
use rust_redis.Resp.Encode.{encode_resp, encode_all}
use rust_redis.Resp.Wire.{IsWire, AllWire}
use rust_redis.Resp.RoundTrip.{parse_resp-encode_all}
use rust_redis.Command.{Command}
use rust_redis.Command.Wire.{to_resp}
use rust_redis.Command.Read.{from_resp}
use rust_redis.Command.Read.RoundTrip.{IsSendable, from_resp-to_resp}
use rust_redis.Platform.{Platform}
use rust_redis.Aof.{Aof, append, append_some, append_command, commands_of, get_initial_commands}

-- One command after the other is appended.
unfoldable pub append_commands : List Command → Aof → Outcome Aof
append_commands [] self = ok self
append_commands (command ∷ commands) self = do
  self' ← append_command command self
  append_commands commands self'

-- The command has an encoding that fits the format.
abbrev pub IsLoggable : Command → Type 0
IsLoggable command = IsSendable command × ((r : Resp) × (to_resp command ≡ ok (some r)) × IsWire r)

-- The log with `appendonly` on and these bytes in its file.
abbrev pub opened : Aof → Bytes → Aof
opened log file = record log { appendonly = codes "yes"; aof = some file }

-- The values that stand for the commands in the file, and what is read of them.
record Logged (p : Platform) (log : Aof) (commands : List Command) (file : Bytes) : Type 0 where
  values : Resps
  wire : AllWire values
  appended :
      append_commands commands (opened log file) ≡ ok (opened log (file ++ encode_all values))
  read_back : commands_of p (elements values) ≡ ok commands

read_as :
    (p : Platform) (command : Command) (r : Resp)
    → IsSendable command
    → to_resp command ≡ ok (some r)
    → from_resp p r ≡ ok (some command)
read_as p command r u e = let (r', e', read) = from_resp-to_resp p command u in cc (e, e', read)

append_command-some :
    (log : Aof) (command : Command) (r : Resp) (file : Bytes)
    → to_resp command ≡ ok (some r)
    → append_command command (opened log file) ≡ ok (opened log (file ++ encode_resp r))
unfolding append_command append_some append
append_command-some log command r file e = rw (e, append_command) refl

append_commands-Logged :
    (p : Platform) (log : Aof) (commands : List Command) (file : Bytes)
    → All IsLoggable commands
    → Logged p log commands file
unfolding append_commands commands_of encode_all AllWire
append_commands-Logged p log [] file l = record {
  values = nil;
  wire = tt;
  appended = ap (λ f. ok (opened log f)) (sym (append-nil file));
  read_back = refl;
}
append_commands-Logged p log (command ∷ commands) file ((u, (r, e, w)), l) =
    let rest = append_commands-Logged p log commands (file ++ encode_resp r) l in
    record {
      values = cons r rest.values;
      wire = (w, rest.wire);
      appended = rw (append_command-some log command r file e) (
          rest.appended
          ∙ ap (λ f. ok (opened log f))
              (append_assoc file (encode_resp r) (encode_all rest.values)));
      read_back = rw (read_as p command r u e, rest.read_back) refl;
    }

-- The commands that were appended to a new file are the ones that the next start reads from it, all
-- of them and in order. Each has an encoding that fits the format: SET with one lifetime at most and
-- a key that is UTF-8, PING, or a command between a replica and its master.
pub get_initial_commands-append_commands :
    (p : Platform) (log : Aof) (commands : List Command)
    → All IsLoggable commands
    → (file : Bytes) × (append_commands commands (opened log []) ≡ ok (opened log file))
      × (get_initial_commands p (some file) (opened log file) ≡ ok commands)
unfolding get_initial_commands bytes_eq
get_initial_commands-append_commands p log commands l =
    let ran = append_commands-Logged p log commands [] l in
    (
      encode_all ran.values,
      ran.appended,
      rw (parse_resp-encode_all ran.values ran.wire, ran.read_back) refl,
    )
