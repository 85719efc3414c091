-- ===== src/Server/Waiting.antt =====
-- src/main.rs: the tables of blocked clients and their timers, and the arms of `run_store` that are no
-- command.
use rust_redis.Prelude.{
  ℕ, ◌≡◌, refl, sym, ap, ◌∙◌, ◌⊎◌, inl, inr, Bool, true, false, Option, none, some, List, [], ◌∷◌,
  ◌++◌, ◌==◌, ==_iff, Bool-cases,
}
use rust_redis.Prelude.Keys.{Dict, nat_eq, lookup, insert, lookup-insert, remove}
use rust_redis.Prelude.Int.{pos}
use rust_redis.Store.Replicas.{count_acked}
use rust_redis.Resp.{null_array, integer}
use rust_redis.Command.{Command, Key}
use rust_redis.Store.{Store, Channel, WaiterId, StreamKey}
use rust_redis.Store.Execute.Waiters.{Fewer, remove-Fewer, NoNew, Same-NoNew}
use rust_redis.Server.{
  Envelope, timeout_xread, timeout_blpop, wait_command_timeout, reply, push_all, replicated,
  ask_replicas, expire_xread, expire_blpop, expire_wait,
}

-- A task was started that sends the envelope when it wakes up.
abbrev pub Pending : Envelope → List (ℕ × Envelope) → Type 0
Pending e [] = ⊥
Pending e ((ms, f) ∷ timers) = (f ≡ e) ⊎ Pending e timers

Pending-old :
    (e f : Envelope) (ms : ℕ) (timers : List (ℕ × Envelope))
    → Pending e timers
    → Pending e (timers ++ (ms, f) ∷ [])
Pending-old e f ms [] h = absurd h
Pending-old e f ms ((n, g) ∷ timers) (inl h) = inl h
Pending-old e f ms ((n, g) ∷ timers) (inr h) = inr (Pending-old e f ms timers h)

Pending-new :
    (e : Envelope) (ms : ℕ) (timers : List (ℕ × Envelope)) → Pending e (timers ++ (ms, e) ∷ [])
Pending-new e ms [] = inl refl
Pending-new e ms ((n, g) ∷ timers) = inr (Pending-new e ms timers)

-- For each client in the table its timer was started.
abbrev pub Covered {κ} :
    {V : Type κ} → (WaiterId → Envelope) → Dict WaiterId V → List (ℕ × Envelope) → Type κ
Covered timeout m timers = (i : WaiterId) → (lookup i m ≡ none) ⊎ Pending (timeout i) timers

-- For every blocked client a timer was started, in the table for its command.
pub record IsTimed (store : Store) (timers : List (ℕ × Envelope)) : Type 0 where
  pub readers : Covered timeout_xread store.stream_xread_waiters timers
  pub poppers : Covered timeout_blpop store.list_blpop_waiters timers
  pub waiters : Covered wait_command_timeout store.wait_waiters timers

pub Covered-Fewer {κ} :
    {V : Type κ} (timeout : WaiterId → Envelope) (m m' : Dict WaiterId V)
    (timers : List (ℕ × Envelope))
    → Fewer m m'
    → Covered timeout m timers
    → Covered timeout m' timers
Covered-Fewer timeout m m' timers f c i = elim (c i) [ inl h ↦ inl (f i h) | inr h ↦ inr h ]

pub Covered-old {κ} :
    {V : Type κ} (timeout : WaiterId → Envelope) (m : Dict WaiterId V)
    (timers : List (ℕ × Envelope)) (ms : ℕ) (f : Envelope)
    → Covered timeout m timers
    → Covered timeout m (timers ++ (ms, f) ∷ [])
Covered-old timeout m timers ms f c i = elim (c i) [
  | inl h ↦ inl h
  | inr h ↦ inr (Pending-old (timeout i) f ms timers h)
]

pub Covered-insert {κ} :
    {V : Type κ} (timeout : WaiterId → Envelope) (m : Dict WaiterId V)
    (timers : List (ℕ × Envelope)) (ms : ℕ) (k : WaiterId) (v : V)
    → Covered timeout m timers
    → Covered timeout (insert k v m) (timers ++ (ms, timeout k) ∷ [])
Covered-insert timeout m timers ms k v c i = elim (Bool-cases (k == i)) [
  | inl h ↦
      let same : k ≡ i = (==_iff k i).0 h in
      inr (rw (ap timeout (sym same)) (Pending-new (timeout k) ms timers))
  | inr h ↦ elim (c i) [
    | inl gone ↦ inl (lookup-insert k i v m ∙ rw h gone)
    | inr pending ↦ inr (Pending-old (timeout i) (timeout k) ms timers pending)
  ]
]

pub IsTimed-NoNew :
    (self self' : Store) (timers : List (ℕ × Envelope))
    → NoNew self self'
    → IsTimed self timers
    → IsTimed self' timers
IsTimed-NoNew self self' timers f t = record {
  readers = Covered-Fewer timeout_xread _ _ timers f.readers t.readers;
  poppers = Covered-Fewer timeout_blpop _ _ timers f.poppers t.poppers;
  waiters = Covered-Fewer wait_command_timeout _ _ timers f.waiters t.waiters;
}

pub replicated-NoNew :
    (w : Bool) (command : Command) (self : Store) → NoNew self (replicated w command self)
unfolding push_all
replicated-NoNew true command self = Same-NoNew self _ (refl, refl, refl)
replicated-NoNew false command self = Same-NoNew self _ (refl, refl, refl)

pub ask_replicas-NoNew : (asked : Bool) (self : Store) → NoNew self (ask_replicas asked self)
unfolding push_all
ask_replicas-NoNew true self = Same-NoNew self _ (refl, refl, refl)
ask_replicas-NoNew false self = Same-NoNew self _ (refl, refl, refl)

-- The arms that are no command.
pub expire_xread-NoNew : (i : WaiterId) (self : Store) → NoNew self (expire_xread i self)
unfolding expire_xread
expire_xread-NoNew i self = go (lookup i self.stream_xread_waiters)
  where
    go :
        (o : Option (Channel × List Key × List StreamKey))
        → NoNew self (elim o as (λ x. Store) [
          | none ↦ self
          | some (channel, keys, ids) ↦
              reply channel null_array
                (record self { stream_xread_waiters = remove i self.stream_xread_waiters })
        ])
    go none = Same-NoNew self self (refl, refl, refl)
    go (some (channel, keys, ids)) = record {
      readers = remove-Fewer i self.stream_xread_waiters;
      poppers = λ j h. h;
      waiters = λ j h. h;
    }

pub expire_blpop-NoNew : (i : WaiterId) (self : Store) → NoNew self (expire_blpop i self)
unfolding expire_blpop
expire_blpop-NoNew i self = go (lookup i self.list_blpop_waiters)
  where
    go :
        (o : Option (Channel × List Key))
        → NoNew self (elim o as (λ x. Store) [
          | none ↦ self
          | some (channel, keys) ↦
              reply channel null_array
                (record self { list_blpop_waiters = remove i self.list_blpop_waiters })
        ])
    go none = Same-NoNew self self (refl, refl, refl)
    go (some (channel, keys)) = record {
      readers = λ j h. h;
      poppers = remove-Fewer i self.list_blpop_waiters;
      waiters = λ j h. h;
    }

pub expire_wait-NoNew : (i : WaiterId) (self : Store) → NoNew self (expire_wait i self)
unfolding expire_wait
expire_wait-NoNew i self = go (lookup i self.wait_waiters)
  where
    go :
        (o : Option (Channel × ℕ × ℕ))
        → NoNew self (elim o as (λ x. Store) [
          | none ↦ self
          | some (channel, numreplicas, target) ↦
              reply channel
                (integer (pos (count_acked self target)))
                (record self { wait_waiters = remove i self.wait_waiters })
        ])
    go none = Same-NoNew self self (refl, refl, refl)
    go (some (channel, numreplicas, target)) = record {
      readers = λ j h. h;
      poppers = λ j h. h;
      waiters = remove-Fewer i self.wait_waiters;
    }
