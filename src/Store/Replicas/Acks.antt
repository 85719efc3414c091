-- ===== src/Store/Replicas/Acks.antt =====
-- src/main.rs: REPLCONF ACK and the clients that WAIT blocks.
use rust_redis.Prelude.{
  ℕ, ◌≡◌, refl, ◌∙◌, true, false, Bool-cases, inl, inr, Option, none, some, List, [], ◌∷◌, arith,
  leb, ◌==◌, ==_iff, if◌then◌else◌,
}
use rust_redis.Prelude.Keys.{Dict, nat_eq, lookup, insert, lookup-remove}
use rust_redis.ClientSets.{ClientId, has}
use rust_redis.Store.{Store, Channel, WaiterId}
use rust_redis.Store.Replicas.{
  count_acked, met, released, release, release_loop, command_replconf_ack,
}

lookup-release :
    (j i : WaiterId) (self : Store)
    → lookup j (release i self).wait_waiters ≡ (if i == j then none else lookup j self.wait_waiters)
unfolding release
lookup-release j i self = go (lookup i self.wait_waiters) refl
  where
    go :
        (o : Option (Channel × ℕ × ℕ))
        → lookup i self.wait_waiters ≡ o
        → lookup j (released i self o).wait_waiters
          ≡ (if i == j then none else lookup j self.wait_waiters)
    go none e = ground (arith, ==_iff i j)
    go (some w) e = lookup-remove i j self.wait_waiters

count_acked-release :
    (i : WaiterId) (self : Store) (target : ℕ)
    → count_acked (release i self) target ≡ count_acked self target
unfolding release count_acked
count_acked-release i self target = go (lookup i self.wait_waiters)
  where
    go :
        (o : Option (Channel × ℕ × ℕ))
        → count_acked (released i self o) target ≡ count_acked self target
    go none = refl
    go (some w) = refl

lookup-release_loop :
    (j : WaiterId) (ids : List WaiterId) (self : Store)
    → lookup j (release_loop ids self).wait_waiters
      ≡ (if has j ids then none else lookup j self.wait_waiters)
unfolding release_loop has
lookup-release_loop j [] self = refl
lookup-release_loop j (i ∷ ids) self =
    lookup-release_loop j ids (release i self)
    ∙ rw (lookup-release j i self) (ground (arith, ==_iff i j, ==_iff j i))

count_acked-release_loop :
    (ids : List WaiterId) (self : Store) (target : ℕ)
    → count_acked (release_loop ids self) target ≡ count_acked self target
unfolding release_loop
count_acked-release_loop [] self target = refl
count_acked-release_loop (i ∷ ids) self target =
    count_acked-release_loop ids (release i self) target ∙ count_acked-release i self target

has-met :
    (self : Store) (j : WaiterId) (channel : Channel) (n target : ℕ)
    (waiters : Dict WaiterId (Channel × ℕ × ℕ))
    → lookup j waiters ≡ some (channel, n, target)
    → leb n (count_acked self target) ≡ true
    → has j (met self waiters) ≡ true
unfolding met has lookup
has-met self j channel n target [] e h = cc e
has-met self j channel n target ((i, (c, m, t)) ∷ waiters) e h = elim (Bool-cases (i == j)) [
  | inl same ↦
      let e' : some (c, m, t) ≡ some (channel, n, target) = rw same at e in
      let first_met : leb m (count_acked self t) ≡ true = cc (e', h) in
      ground (arith, first_met, same)
  | inr other ↦
      let e' : lookup j waiters ≡ some (channel, n, target) = rw other at e in
      let rest = has-met self j channel n target waiters e' h in ground (arith, rest)
]

left_unmet :
    (self : Store) (j : WaiterId) (channel : Channel) (n target : ℕ)
    → lookup j (release_loop (met self self.wait_waiters) self).wait_waiters
      ≡ some (channel, n, target)
    → leb n (count_acked (release_loop (met self self.wait_waiters) self) target) ≡ false
left_unmet self j channel n target e =
    let ids = met self self.wait_waiters in
    let e' = rw (lookup-release_loop j ids self) at e in
    let here : lookup j self.wait_waiters ≡ some (channel, n, target) = ground (arith, e') in
    let stays : has j ids ≡ false = ground (arith, e') in
    rw (count_acked-release_loop ids self target)
      (elim (Bool-cases (leb n (count_acked self target))) [
        | inl enough ↦
            let gone = has-met self j channel n target self.wait_waiters here enough in
            cc (gone, stays)
        | inr few ↦ few
      ])

-- After REPLCONF ACK no client stays blocked by WAIT whose number of replicas has acknowledged its
-- offset.
pub command_replconf_ack-IsMet :
    (client_id : ClientId) (ack_bytes : ℕ) (self : Store) (j : WaiterId) (channel : Channel)
    (n target : ℕ)
    → lookup j (command_replconf_ack client_id ack_bytes self).0.wait_waiters
      ≡ some (channel, n, target)
    → leb n (count_acked (command_replconf_ack client_id ack_bytes self).0 target) ≡ false
unfolding command_replconf_ack
command_replconf_ack-IsMet client_id ack_bytes self j channel n target e =
    let acked = record self { replica_acks = insert client_id ack_bytes self.replica_acks } in
    left_unmet acked j channel n target e
