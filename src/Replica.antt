-- ===== src/Replica.antt =====
-- src/main.rs: `process_replica_message` and the loop of `run_replica_server` over the values that
-- have come from the master. What goes to the store's queue and what is written to the master are
-- kept in order. The handshake before it only writes and reads.
pub mod Offsets
pub mod Handshake
pub mod Hello
pub mod Attach
pub mod Examples
use rust_redis.Prelude.{ℕ, ◌+◌, ◌%◌, Option, none, some, List, [], ◌∷◌, ◌++◌, codes, u64_mod}
use rust_redis.Number.{decimal}
use rust_redis.Parser.{Outcome, ok, ◌>>=◌}
use rust_redis.Resp.{Resp, array, vec, bulk_string, len}
use rust_redis.Command.{Command, replconf_get_ack}
use rust_redis.Command.Read.{from_resp}
use rust_redis.Platform.{Platform}

-- `Envelope::Replicate` of each command, the replies to the master, and `ack_bytes`.
pub record Replica : Type 0 where
  pub replicated : List Command
  pub written : List Resp
  pub ack_bytes : ℕ

abbrev pub ack_reply : ℕ → Resp
ack_reply ack_bytes = array (
    vec (
      bulk_string (codes "REPLCONF")
      ∷ bulk_string (codes "ACK")
      ∷ bulk_string (decimal ack_bytes)
      ∷ []))

-- `process_replica_message`
unfoldable pub process : Option Command → Replica → Replica
process none self = self
process (some replconf_get_ack) self = record self {
  written = self.written ++ ack_reply self.ack_bytes ∷ [];
}
process (some command) self = record self { replicated = self.replicated ++ command ∷ [] }

-- `ack_bytes += l`
abbrev pub counted : Resp → Replica → Replica
counted input self = record self { ack_bytes = (self.ack_bytes + len input) % u64_mod }

unfoldable pub process_replica_message : Platform → Resp → Replica → Outcome Replica
unfolding from_resp process
process_replica_message p input self = do command ← from_resp p input; ok (process command self)

-- `while let Some(input) = inputs_queue.pop_front()`
unfoldable pub run_replica_server : Platform → List Resp → Replica → Outcome Replica
unfolding process_replica_message
run_replica_server p [] self = ok self
run_replica_server p (input ∷ inputs) self = do
  self' ← process_replica_message p input self
  run_replica_server p inputs (counted input self')
