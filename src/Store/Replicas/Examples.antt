-- ===== src/Store/Replicas/Examples.antt =====
-- The theorem on acknowledgements at a concrete store.
use rust_redis.Prelude.{◌≡◌, refl, false, true, [], ◌∷◌, leb}
use rust_redis.Prelude.Keys.{nat_eq, lookup, insert, remove}
use rust_redis.Store.{Store, empty}
use rust_redis.Store.Replicas.{count_acked, count_at_least, met, release_loop, command_replconf_ack}
use rust_redis.Store.Replicas.Acks.{command_replconf_ack-IsMet}

-- Two clients wait for the offset 100: one for one replica, the other for two.
abbrev waiting : Store
waiting = record (empty false) {
  clients = (1, true) ∷ (2, true) ∷ [];
  wait_waiters = (4, (8, 1, 100)) ∷ (5, (9, 2, 100)) ∷ [];
}

command_replconf_ack-IsMet_example :
    leb 2 (count_acked (command_replconf_ack 1 120 waiting).0 100) ≡ false
unfolding lookup insert remove count_at_least met release_loop command_replconf_ack
command_replconf_ack-IsMet_example = command_replconf_ack-IsMet 1 120 waiting 5 9 2 100 refl
