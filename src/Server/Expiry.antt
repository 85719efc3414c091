-- ===== src/Server/Expiry.antt =====
-- src/main.rs: what the timers of `run_store` do to the clients that are blocked, once all of them have
-- run out.
use rust_redis.Prelude.{
  ℕ, ◌≡◌, refl, sym, ◌⊎◌, inl, inr, ◌++◌, Option, none, some, List, [], ◌∷◌, ◌∙◌, ==-refl,
}
use rust_redis.Prelude.Int.{pos}
use rust_redis.Prelude.Keys.{nat_eq, lookup, remove, lookup-remove}
use rust_redis.Parser.{ok}
use rust_redis.Resp.{Resp, null_array, integer}
use rust_redis.Command.{Key}
use rust_redis.Platform.{Platform}
use rust_redis.Store.{Store, Channel, StreamKey, WaiterId}
use rust_redis.Store.Replicas.{count_acked}
use rust_redis.Store.Execute.Waiters.{NoNew, NoNew-trans, Same-NoNew}
use rust_redis.Server.{
  Envelope, timeout_xread, timeout_blpop, wait_command_timeout, Server, reply, with_store, step,
  run_store, expire_xread, expire_blpop, expire_wait,
}
use rust_redis.Server.Replies.{
  Sent, xread_to, blpop_to, count_to, Progress, Progress-refl, Progress-trans,
  expire_xread-Progress, expire_blpop-Progress, expire_wait-Progress,
}
use rust_redis.Server.Timers.{run_store-IsTimed}
use rust_redis.Server.Waiting.{
  Pending, IsTimed, expire_xread-NoNew, expire_blpop-NoNew, expire_wait-NoNew,
}

-- The envelopes of the timers, all at one time.
abbrev pub timeouts : ℕ → List (ℕ × Envelope) → List (ℕ × Envelope)
timeouts now [] = []
timeouts now ((ms, timeout_xread i) ∷ timers) = (now, timeout_xread i) ∷ timeouts now timers
timeouts now ((ms, timeout_blpop i) ∷ timers) = (now, timeout_blpop i) ∷ timeouts now timers
timeouts now ((ms, wait_command_timeout i) ∷ timers) =
    (now, wait_command_timeout i) ∷ timeouts now timers
timeouts now (_ ∷ timers) = timeouts now timers

-- The client that the timer is for is not blocked.
abbrev Gone : Envelope → Store → Type 0
Gone (timeout_xread i) self = lookup i self.stream_xread_waiters ≡ none
Gone (timeout_blpop i) self = lookup i self.list_blpop_waiters ≡ none
Gone (wait_command_timeout i) self = lookup i self.wait_waiters ≡ none
Gone _ self = Unit

Gone-NoNew : (e : Envelope) (self self' : Store) → NoNew self self' → Gone e self → Gone e self'
Gone-NoNew (timeout_xread i) self self' f h = f.readers i h
Gone-NoNew (timeout_blpop i) self self' f h = f.poppers i h
Gone-NoNew (wait_command_timeout i) self self' f h = f.waiters i h
Gone-NoNew _ self self' f h = tt

expire_xread-Gone : (i : WaiterId) (self : Store) → Gone (timeout_xread i) (expire_xread i self)
unfolding expire_xread
expire_xread-Gone i self = go (lookup i self.stream_xread_waiters) refl
  where
    go :
        (o : Option (Channel × List Key × List StreamKey))
        → lookup i self.stream_xread_waiters ≡ o
        → Gone (timeout_xread i) (elim o as (λ x. Store) [
          | none ↦ self
          | some (channel, keys, ids) ↦
              reply channel null_array
                (record self { stream_xread_waiters = remove i self.stream_xread_waiters })
        ])
    go none e = e
    go (some (channel, keys, ids)) e =
        lookup-remove i i self.stream_xread_waiters ∙ rw (==-refl i) refl

expire_blpop-Gone : (i : WaiterId) (self : Store) → Gone (timeout_blpop i) (expire_blpop i self)
unfolding expire_blpop
expire_blpop-Gone i self = go (lookup i self.list_blpop_waiters) refl
  where
    go :
        (o : Option (Channel × List Key))
        → lookup i self.list_blpop_waiters ≡ o
        → Gone (timeout_blpop i) (elim o as (λ x. Store) [
          | none ↦ self
          | some (channel, keys) ↦
              reply channel null_array
                (record self { list_blpop_waiters = remove i self.list_blpop_waiters })
        ])
    go none e = e
    go (some (channel, keys)) e = lookup-remove i i self.list_blpop_waiters ∙ rw (==-refl i) refl

expire_wait-Gone :
    (i : WaiterId) (self : Store) → Gone (wait_command_timeout i) (expire_wait i self)
unfolding expire_wait
expire_wait-Gone i self = go (lookup i self.wait_waiters) refl
  where
    go :
        (o : Option (Channel × ℕ × ℕ))
        → lookup i self.wait_waiters ≡ o
        → Gone (wait_command_timeout i) (elim o as (λ x. Store) [
          | none ↦ self
          | some (channel, numreplicas, target) ↦
              reply channel
                (integer (pos (count_acked self target)))
                (record self { wait_waiters = remove i self.wait_waiters })
        ])
    go none e = e
    go (some (channel, numreplicas, target)) e =
        lookup-remove i i self.wait_waiters ∙ rw (==-refl i) refl

-- A run of timers: it gets through, blocks nobody, whoever had one of them is not blocked, and whoever
-- is not blocked any more has got a reply.
record Fired (p : Platform) (now : ℕ) (timers : List (ℕ × Envelope)) (self : Server) : Type 0 where
  final : Server
  run : run_store p (timeouts now timers) self ≡ ok final
  no_new : NoNew self.store final.store
  progress : Progress self.store final.store
  gone : (e : Envelope) → Pending e timers → Gone e final.store

-- One timer before the others.
fire :
    (p : Platform) (now ms : ℕ) (f : Envelope) (timers : List (ℕ × Envelope)) (self next : Server)
    → (rest : Fired p now timers next)
    → run_store p (timeouts now ((ms, f) ∷ timers)) self ≡ ok rest.final
    → NoNew self.store next.store
    → Progress self.store next.store
    → Gone f next.store
    → Fired p now ((ms, f) ∷ timers) self
fire p now ms f timers self next rest run new sent g = record {
  final = rest.final;
  run = run;
  no_new = NoNew-trans self.store next.store rest.final.store new rest.no_new;
  progress = Progress-trans self.store next.store rest.final.store sent rest.progress;
  gone = λ e h. elim h [
    | inl same ↦ rw (sym same) (Gone-NoNew f next.store rest.final.store rest.no_new g)
    | inr later ↦ rest.gone e later
  ];
}

fired :
    (p : Platform) (now : ℕ) (timers : List (ℕ × Envelope)) (self : Server)
    → Fired p now timers self
unfolding run_store step
fired p now [] self = record {
  final = self;
  run = refl;
  no_new = Same-NoNew self.store self.store (refl, refl, refl);
  progress = Progress-refl self.store;
  gone = λ e h. absurd h;
}
fired p now ((ms, timeout_xread i) ∷ timers) self =
    let next = with_store self (expire_xread i self.store) in
    let rest = fired p now timers next in
    fire p now ms (timeout_xread i) timers self next rest rest.run (expire_xread-NoNew i self.store)
      (expire_xread-Progress i self.store) (expire_xread-Gone i self.store)
fired p now ((ms, timeout_blpop i) ∷ timers) self =
    let next = with_store self (expire_blpop i self.store) in
    let rest = fired p now timers next in
    fire p now ms (timeout_blpop i) timers self next rest rest.run (expire_blpop-NoNew i self.store)
      (expire_blpop-Progress i self.store) (expire_blpop-Gone i self.store)
fired p now ((ms, wait_command_timeout i) ∷ timers) self =
    let next = with_store self (expire_wait i self.store) in
    let rest = fired p now timers next in
    fire p now ms (wait_command_timeout i) timers self next rest rest.run
      (expire_wait-NoNew i self.store) (expire_wait-Progress i self.store)
      (expire_wait-Gone i self.store)
fired p now ((ms, f) ∷ timers) self =
    let rest = fired p now timers self in
    fire p now ms f timers self self rest rest.run
      (Same-NoNew self.store self.store (refl, refl, refl)) (Progress-refl self.store) tt

-- No client is blocked.
pub record IsUnblocked (self : Store) : Type 0 where
  pub readers : (i : WaiterId) → lookup i self.stream_xread_waiters ≡ none
  pub poppers : (i : WaiterId) → lookup i self.list_blpop_waiters ≡ none
  pub waiters : (i : WaiterId) → lookup i self.wait_waiters ≡ none

Fired-IsUnblocked :
    (p : Platform) (now : ℕ) (timers : List (ℕ × Envelope)) (self : Server)
    → IsTimed self.store timers
    → (f : Fired p now timers self) → IsUnblocked f.final.store
Fired-IsUnblocked p now timers self t f = record {
  readers =
      λ i. elim (t.readers i) [ inl h ↦ f.no_new.readers i h | inr h ↦ f.gone (timeout_xread i) h ];
  poppers =
      λ i. elim (t.poppers i) [ inl h ↦ f.no_new.poppers i h | inr h ↦ f.gone (timeout_blpop i) h ];
  waiters = λ i. elim (t.waiters i) [
    | inl h ↦ f.no_new.waiters i h
    | inr h ↦ f.gone (wait_command_timeout i) h
  ];
}

-- From a server on which every blocked client has a timer, over any envelopes that the loop gets
-- through: when then all the timers that were started send their envelopes, the loop gets through these
-- too, and no client is left blocked by BLPOP, XREAD or WAIT.
pub run_store-IsUnblocked :
    (p : Platform) (now : ℕ) (envelopes : List (ℕ × Envelope)) (self self' : Server)
    → IsTimed self.store self.timers
    → run_store p envelopes self ≡ ok self'
    → (self'' : Server) × (run_store p (timeouts now self'.timers) self' ≡ ok self'')
      × IsUnblocked self''.store
run_store-IsUnblocked p now envelopes self self' t e =
    let f = fired p now self'.timers self' in
    (
      f.final,
      f.run,
      Fired-IsUnblocked p now self'.timers self' (run_store-IsTimed p envelopes self self' t e) f,
    )

-- Among the replies `fresh` that are sent between the two stores, every client that is blocked in the
-- first one has its answer: null after XREAD and BLPOP, and after WAIT the number of replicas that have
-- reached its offset.
pub record IsAnswered (self final : Store) : Type 0 where
  pub fresh : List (Channel × Resp)
  pub appended : final.sent ≡ self.sent ++ fresh
  pub readers :
      (i : WaiterId) (w : Channel × List Key × List StreamKey)
      → lookup i self.stream_xread_waiters ≡ some w
      → Sent (xread_to w) fresh
  pub poppers :
      (i : WaiterId) (w : Channel × List Key)
      → lookup i self.list_blpop_waiters ≡ some w
      → Sent (blpop_to w) fresh
  pub waiters :
      (i : WaiterId) (w : Channel × ℕ × ℕ)
      → lookup i self.wait_waiters ≡ some w
      → Sent (count_to self w) fresh

Sent-gone {κ} :
    {V : Type κ} (o : Option V) (v : V) (m : Channel × Resp) (sent : List (Channel × Resp))
    → o ≡ none
    → (o ≡ some v) ⊎ Sent m sent
    → Sent m sent
Sent-gone o v m sent gone (inl still) = cc (gone, still)
Sent-gone o v m sent gone (inr got) = got

-- From a server on which every blocked client has a timer, over any envelopes that the loop gets
-- through: when then all the timers that were started send their envelopes, the loop gets through
-- these too, and every client that was still blocked before them is sent a reply by them on its
-- channel: null after XREAD and BLPOP, and after WAIT the number of replicas that have reached its
-- offset.
pub run_store-IsAnswered :
    (p : Platform) (now : ℕ) (envelopes : List (ℕ × Envelope)) (self self' : Server)
    → IsTimed self.store self.timers
    → run_store p envelopes self ≡ ok self'
    → (self'' : Server) × (run_store p (timeouts now self'.timers) self' ≡ ok self'')
      × IsAnswered self'.store self''.store
run_store-IsAnswered p now envelopes self self' t e =
    let f = fired p now self'.timers self' in
    let u =
      Fired-IsUnblocked p now self'.timers self' (run_store-IsTimed p envelopes self self' t e) f in
    (
      f.final,
      f.run,
      record {
        fresh = f.progress.fresh;
        appended = f.progress.appended;
        readers = λ i w h. Sent-gone _ w (xread_to w) _ (u.readers i) (f.progress.readers i w h);
        poppers = λ i w h. Sent-gone _ w (blpop_to w) _ (u.poppers i) (f.progress.poppers i w h);
        waiters = λ i w h.
            Sent-gone _ w (count_to self'.store w) _ (u.waiters i) (f.progress.waiters i w h);
      },
    )
