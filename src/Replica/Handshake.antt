-- ===== src/Replica/Handshake.antt =====
-- src/main.rs: `read_resp_from_stream`, `replica_server_handshake` and the whole of
-- `run_replica_server`, over what the reads of the stream give. A list of reads that ends is a replica
-- that waits for more, and gives `out_of_fuel`.
use rust_redis.Prelude.{
  ℕ, ◌∷◌, ◌++◌, List, [], Option, none, some, Bytes, codes, Bool, false, if◌then◌else◌, leb, length,
  drop,
}
use rust_redis.Prelude.Int.{negsuc}
use rust_redis.Parser.{Outcome, ok, out_of_fuel, ◌>>=◌}
use rust_redis.Resp.{Resp}
use rust_redis.Resp.Decode.{parse_resp}
use rust_redis.Resp.Encode.{encode_resp}
use rust_redis.Command.{Command}
use rust_redis.Command.Read.Args.{unwrap}
use rust_redis.Command.Wire.{to_resp}
use rust_redis.Platform.{Platform}
use rust_redis.Rdb.{unwrapped}
use rust_redis.Replica.{Replica, run_replica_server}

-- The bytes that a read gives, of which none is the end of the stream, or an error.
abbrev pub Read : Type 0
Read = Option Bytes

-- `read_resp_from_stream`
unfoldable pub read_resp_from_stream : Read → Outcome (Option (List Resp))
read_resp_from_stream none = ok none
read_resp_from_stream (some []) = ok none
read_resp_from_stream (some (b ∷ bytes)) = do
  (inputs, _) ← unwrapped (parse_resp (b ∷ bytes))
  ok (some inputs)

-- What a replica has written, and the reads that are to come.
pub record Stream : Type 0 where
  pub written : Bytes
  pub reads : List Read

-- `write_command_to_stream`
unfoldable pub write_command : Command → Stream → Outcome Stream
write_command command self = do
  r ← to_resp command
  resp ← unwrap r
  ok (record self { written = self.written ++ encode_resp resp })

-- The answers to the first three commands are read and dropped.
unfoldable pub read_answer : Stream → Outcome Stream
unfolding read_resp_from_stream
read_answer self = elim self.reads [
  | [] ↦ out_of_fuel
  | read ∷ reads ↦ (do _ ← read_resp_from_stream read; ok (record self { reads = reads }))
]

abbrev pub extended : List Resp → Option (List Resp) → List Resp
extended queue none = queue
extended queue (some new_resp) = queue ++ new_resp

abbrev is_long : Option (List Resp) → List Resp → Bool
is_long none queue = false
is_long (some _) queue = leb 2 (length queue)

-- The loop that reads until there are two values, and `queue.pop_front(); queue.pop_front();`.
unfoldable pub read_queue : List Resp → List Read → Outcome (List Resp × List Read)
unfolding read_resp_from_stream
read_queue queue [] = out_of_fuel
read_queue queue (read ∷ reads) = do
  new_resp ← read_resp_from_stream read
  (let longer = extended queue new_resp in
      let rest = read_queue longer reads in
      if is_long new_resp longer then ok (drop 2 longer, reads) else rest)

unfoldable pub replica_server_handshake : ℕ → Stream → Outcome (List Resp × Stream)
unfolding write_command read_answer read_queue
replica_server_handshake port self = do
  asked ← write_command (Command.ping none) self
  answered ← read_answer asked
  asked' ← write_command (Command.replconf_listening_port port) answered
  answered' ← read_answer asked'
  asked'' ← write_command (Command.replconf_capa (codes "psync2" ∷ [])) answered'
  answered'' ← read_answer asked''
  last ← write_command (Command.psync (codes "?") (negsuc 0)) answered''
  (queue, reads) ← read_queue [] last.reads
  ok (queue, record last { reads = reads })

-- The loop after the handshake: the queue is worked off, and there is a read.
unfoldable pub replica_loop : Platform → List Resp → List Read → Replica → Outcome Replica
unfolding read_resp_from_stream run_replica_server
replica_loop p queue [] self = run_replica_server p queue self
replica_loop p queue (read ∷ reads) self = do
  self' ← run_replica_server p queue self
  new_inputs ← read_resp_from_stream read
  replica_loop p (extended [] new_inputs) reads self'

-- `run_replica_server`
unfoldable pub run_replica : Platform → ℕ → List Read → Outcome Replica
unfolding replica_server_handshake replica_loop
run_replica p port reads = do
  (queue, stream) ← replica_server_handshake port (record { written = []; reads = reads })
  replica_loop p queue stream.reads (record { replicated = []; written = []; ack_bytes = 0 })
