-- ===== src/Store/Replicas.antt =====
-- src/main.rs: what the replicas have acknowledged, and the clients that WAIT blocks.
pub mod Acks
pub mod Examples
use rust_redis.Prelude.{
  ℕ, ◌+◌, ◌%◌, u64_mod, Bool, Option, none, some, List, [], ◌∷◌, ◌++◌, codes, leb, ◌==◌,
  if◌then◌else◌,
}
use rust_redis.Prelude.Int.{pos}
use rust_redis.Prelude.Keys.{Dict, nat_eq, lookup, insert, remove}
use rust_redis.Number.{decimal}
use rust_redis.Resp.{integer, bulk_string}
use rust_redis.ClientSets.{ClientId}
use rust_redis.Store.{Store, TryExecuteResult, done, wait_command, nothing, Channel, WaiterId}

unfoldable pub count_replicas : Dict ClientId Bool → ℕ
count_replicas [] = 0
count_replicas ((client_id, is_replica) ∷ clients) =
    let n = count_replicas clients in if is_replica then n + 1 else n

unfoldable pub count_at_least : ℕ → Dict ClientId ℕ → ℕ
count_at_least target [] = 0
count_at_least target ((client_id, ack) ∷ acks) =
    let n = count_at_least target acks in if leb target ack then n + 1 else n

-- `count_acked`
unfoldable pub count_acked : Store → ℕ → ℕ
unfolding count_replicas count_at_least
count_acked self target =
    if target == 0 then count_replicas self.clients else count_at_least target self.replica_acks

-- The waiters whose threshold is met, in the order of the table.
unfoldable pub met : Store → Dict WaiterId (Channel × ℕ × ℕ) → List WaiterId
met self [] = []
met self ((waiter_id, (channel, numreplicas, target)) ∷ waiters) =
    let rest = met self waiters in
    if leb numreplicas (count_acked self target) then waiter_id ∷ rest else rest

-- A waiter leaves the table with a reply; the ids come from the table, so `unwrap` succeeds.
abbrev pub released : WaiterId → Store → Option (Channel × ℕ × ℕ) → Store
unfolding count_acked
released waiter_id self none = self
released waiter_id self (some (channel, numreplicas, target)) = record self {
  wait_waiters = remove waiter_id self.wait_waiters;
  sent = self.sent ++ (channel, integer (pos (count_acked self target))) ∷ [];
}

unfoldable pub release : WaiterId → Store → Store
unfolding released
release waiter_id self = released waiter_id self (lookup waiter_id self.wait_waiters)

unfoldable pub release_loop : List WaiterId → Store → Store
unfolding release
release_loop [] self = self
release_loop (waiter_id ∷ waiters) self = release_loop waiters (release waiter_id self)

unfoldable pub command_replconf_ack : ClientId → ℕ → Store → Store × TryExecuteResult
unfolding met release_loop count_acked
command_replconf_ack client_id ack_bytes self =
    let acked = record self { replica_acks = insert client_id ack_bytes self.replica_acks } in
    (release_loop (met acked acked.wait_waiters) acked, nothing)

-- `Command::Wait`
unfoldable pub wait : ℕ → ℕ → Store → Store × TryExecuteResult
unfolding count_acked
wait numreplicas timeout self =
    let current_replicas = count_acked self self.master_ack in
    if leb numreplicas current_replicas then (self, done (integer (pos current_replicas))) else (
      record self { waiter_id = (self.waiter_id + 1) % u64_mod },
      wait_command ((self.waiter_id + 1) % u64_mod) numreplicas timeout,
    )

-- `Command::Info`
unfoldable pub info : Store → Store × TryExecuteResult
info self = (
  self,
  done (
      bulk_string (
        codes "# Replication\nrole:"
        ++ (if self.is_replica then codes "slave" else codes "master")
        ++ codes "\nmaster_replid:8371b4fb1155b71f4a04d3e1bc3e18c4a990aeeb\nmaster_repl_offset:"
        ++ decimal self.master_ack)),
)
