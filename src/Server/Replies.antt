-- ===== src/Server/Replies.antt =====
-- src/main.rs: the replies that the three timeouts of `run_store` send.
use rust_redis.Prelude.{
  ℕ, ◌≡◌, refl, ap, ◌∙◌, ◌⊎◌, inl, inr, Option, none, some, List, [], ◌∷◌, ◌++◌, ◌==◌, append_assoc,
  append-nil, ==_iff, Bool-cases,
}
use rust_redis.Prelude.Keys.{Dict, nat_eq, lookup, remove, lookup-remove}
use rust_redis.Prelude.Int.{pos}
use rust_redis.Store.Replicas.{count_acked}
use rust_redis.Resp.{Resp, null_array, integer}
use rust_redis.Command.{Key}
use rust_redis.Store.{Store, Channel, WaiterId, StreamKey}
use rust_redis.Server.{reply, expire_xread, expire_blpop, expire_wait}

-- The reply was sent on the channel.
abbrev pub Sent : Channel × Resp → List (Channel × Resp) → Type 0
Sent m [] = ⊥
Sent m (n ∷ sent) = (n ≡ m) ⊎ Sent m sent

Sent-left :
    (m : Channel × Resp) (sent sent' : List (Channel × Resp)) → Sent m sent → Sent m (sent ++ sent')
Sent-left m [] sent' h = absurd h
Sent-left m (x ∷ sent) sent' (inl h) = inl h
Sent-left m (x ∷ sent) sent' (inr h) = inr (Sent-left m sent sent' h)

Sent-right :
    (m : Channel × Resp) (sent sent' : List (Channel × Resp))
    → Sent m sent'
    → Sent m (sent ++ sent')
Sent-right m [] sent' h = h
Sent-right m (x ∷ sent) sent' h = inr (Sent-right m sent sent' h)

-- Whoever is in the first table is in the second one, or was sent its answer.
abbrev Handled {κ} :
    {V : Type κ}
    → (V → Channel × Resp)
    → Dict WaiterId V
    → Dict WaiterId V
    → List (Channel × Resp)
    → Type κ
Handled {V = V} answer m m' sent =
    (i : WaiterId) (v : V) → lookup i m ≡ some v → (lookup i m' ≡ some v) ⊎ Sent (answer v) sent

Handled-remove {κ} :
    {V : Type κ} (answer : V → Channel × Resp) (k : WaiterId) (w : V) (m : Dict WaiterId V)
    → lookup k m ≡ some w
    → Handled answer m (remove k m) (answer w ∷ [])
Handled-remove answer k w m e i v h = elim (Bool-cases (k == i)) [
  | inl same ↦ let one : w ≡ v = cc (e, h, (==_iff k i).0 same) in inr (inl (ap answer one))
  | inr other ↦ inl (lookup-remove k i m ∙ rw other h)
]

-- The answers to the clients that XREAD and BLPOP block, and to those of WAIT.
abbrev pub xread_to : Channel × List Key × List StreamKey → Channel × Resp
xread_to (channel, keys, ids) = (channel, null_array)

abbrev pub blpop_to : Channel × List Key → Channel × Resp
blpop_to (channel, keys) = (channel, null_array)

abbrev pub count_to : Store → Channel × ℕ × ℕ → Channel × Resp
count_to self (channel, numreplicas, target) = (channel, integer (pos (count_acked self target)))

-- From one store to the next the replies `fresh` are sent, and who is not blocked any more has got one
-- of them.
pub record Progress (self next : Store) : Type 0 where
  pub fresh : List (Channel × Resp)
  pub appended : next.sent ≡ self.sent ++ fresh
  counts : (target : ℕ) → count_acked next target ≡ count_acked self target
  pub readers : Handled xread_to self.stream_xread_waiters next.stream_xread_waiters fresh
  pub poppers : Handled blpop_to self.list_blpop_waiters next.list_blpop_waiters fresh
  pub waiters : Handled (count_to self) self.wait_waiters next.wait_waiters fresh

pub Progress-refl : (self : Store) → Progress self self
Progress-refl self = record {
  fresh = [];
  appended = rw append-nil refl;
  counts = λ target. refl;
  readers = λ i v h. inl h;
  poppers = λ i v h. inl h;
  waiters = λ i v h. inl h;
}

Handled-trans {κ} :
    {V : Type κ} (answer answer' : V → Channel × Resp) (a b c : Dict WaiterId V)
    (sent sent' : List (Channel × Resp))
    → ((v : V) → answer' v ≡ answer v)
    → Handled answer a b sent
    → Handled answer' b c sent'
    → Handled answer a c (sent ++ sent')
Handled-trans answer answer' a b c sent sent' q f g i v h = elim (f i v h) [
  | inl kept ↦ elim (g i v kept) [
    | inl still ↦ inl still
    | inr got ↦ inr (Sent-right (answer v) sent sent' (rw (q v) at got))
  ]
  | inr got ↦ inr (Sent-left (answer v) sent sent' got)
]

pub Progress-trans : (a b c : Store) → Progress a b → Progress b c → Progress a c
Progress-trans a b c f g = record {
  fresh = f.fresh ++ g.fresh;
  appended = rw (g.appended, f.appended) (append_assoc a.sent f.fresh g.fresh);
  counts = λ target. g.counts target ∙ f.counts target;
  readers = Handled-trans xread_to xread_to _ _ _ _ _ (λ v. refl) f.readers g.readers;
  poppers = Handled-trans blpop_to blpop_to _ _ _ _ _ (λ v. refl) f.poppers g.poppers;
  waiters =
      Handled-trans (count_to a) (count_to b) _ _ _ _ _
        (λ (channel, numreplicas, target).
          ap (λ (n : ℕ). (channel, integer (pos n))) (f.counts target))
        f.waiters g.waiters;
}

pub expire_xread-Progress : (i : WaiterId) (self : Store) → Progress self (expire_xread i self)
unfolding expire_xread count_acked
expire_xread-Progress i self = go (lookup i self.stream_xread_waiters) refl
  where
    go :
        (o : Option (Channel × List Key × List StreamKey))
        → lookup i self.stream_xread_waiters ≡ o
        → Progress self (elim o as (λ x. Store) [
          | none ↦ self
          | some (channel, keys, ids) ↦
              reply channel null_array
                (record self { stream_xread_waiters = remove i self.stream_xread_waiters })
        ])
    go none e = Progress-refl self
    go (some (channel, keys, ids)) e = record {
      fresh = (channel, null_array) ∷ [];
      appended = refl;
      counts = λ target. refl;
      readers = Handled-remove xread_to i (channel, keys, ids) self.stream_xread_waiters e;
      poppers = λ j v h. inl h;
      waiters = λ j v h. inl h;
    }

pub expire_blpop-Progress : (i : WaiterId) (self : Store) → Progress self (expire_blpop i self)
unfolding expire_blpop count_acked
expire_blpop-Progress i self = go (lookup i self.list_blpop_waiters) refl
  where
    go :
        (o : Option (Channel × List Key))
        → lookup i self.list_blpop_waiters ≡ o
        → Progress self (elim o as (λ x. Store) [
          | none ↦ self
          | some (channel, keys) ↦
              reply channel null_array
                (record self { list_blpop_waiters = remove i self.list_blpop_waiters })
        ])
    go none e = Progress-refl self
    go (some (channel, keys)) e = record {
      fresh = (channel, null_array) ∷ [];
      appended = refl;
      counts = λ target. refl;
      readers = λ j v h. inl h;
      poppers = Handled-remove blpop_to i (channel, keys) self.list_blpop_waiters e;
      waiters = λ j v h. inl h;
    }

pub expire_wait-Progress : (i : WaiterId) (self : Store) → Progress self (expire_wait i self)
unfolding expire_wait count_acked
expire_wait-Progress i self = go (lookup i self.wait_waiters) refl
  where
    go :
        (o : Option (Channel × ℕ × ℕ))
        → lookup i self.wait_waiters ≡ o
        → Progress self (elim o as (λ x. Store) [
          | none ↦ self
          | some (channel, numreplicas, target) ↦
              reply channel
                (integer (pos (count_acked self target)))
                (record self { wait_waiters = remove i self.wait_waiters })
        ])
    go none e = Progress-refl self
    go (some (channel, numreplicas, target)) e =
        let n = integer (pos (count_acked self target)) in
        record {
          fresh = (channel, n) ∷ [];
          appended = refl;
          counts = λ target. refl;
          readers = λ j v h. inl h;
          poppers = λ j v h. inl h;
          waiters =
              Handled-remove (count_to self) i (channel, numreplicas, target) self.wait_waiters e;
        }
