-- ===== src/Server/Timers.antt =====
-- src/main.rs: the timers that `run_store` starts, and the clients that it blocks.
use rust_redis.Prelude.{ℕ, ◌≡◌, refl, Bool, true, false, Option, none, some, List, [], ◌∷◌, ◌++◌}
use rust_redis.Prelude.Keys.{nat_eq}
use rust_redis.Parser.{Outcome, ok, err, panic, out_of_fuel, ◌>>=◌}
use rust_redis.Resp.{Resp}
use rust_redis.Command.{Command, block_timeout, is_replicatable}
use rust_redis.Command.Wire.{to_resp}
use rust_redis.Platform.{Platform}
use rust_redis.ClientSets.{ClientId}
use rust_redis.Aof.{append_some}
use rust_redis.Store.{
  Store, Channel, TryExecuteResult, done, blocking_xread, blocking_blpop, wait_command, nothing,
}
use rust_redis.Store.Execute.{try_execute}
use rust_redis.Store.Execute.Waiters.{NoNew-trans, Same-NoNew, Safe}
use rust_redis.Store.Execute.Handlers.{store_of}
use rust_redis.Store.Execute.Unblocking.{try_execute-Safe}
use rust_redis.Server.{
  Envelope, timeout_xread, timeout_blpop, wait_command_timeout, Server, reply, ask_replicas,
  with_reply, add_replica, register_client, unregister_client, count_write, spawn, finish, execute,
  step, run_store, to_millis, attach, register, unregister,
}
use rust_redis.Server.Waiting.{
  Covered-insert, Covered-old, IsTimed, IsTimed-NoNew, ask_replicas-NoNew, expire_blpop-NoNew,
  expire_wait-NoNew, expire_xread-NoNew, replicated-NoNew,
}

-- What a computation leaves is timed, if it leaves something.
abbrev pub Timed : Outcome Server → Type 0
Timed (ok self) = IsTimed self.store self.timers
Timed (err e) = Unit
Timed panic = Unit
Timed out_of_fuel = Unit

-- A timer is spawned for the client that has been put into a table.
Timed-spawn :
    (ms : Option ℕ) (e : Envelope) (self : Server)
    → ((n : ℕ) → IsTimed self.store (self.timers ++ (n, e) ∷ []))
    → Timed (spawn ms e self)
Timed-spawn none e self h = tt
Timed-spawn (some n) e self h = h n

finish-Timed :
    (w : Bool) (command : Command) (channel : Channel) (timeout : Option ℕ) (self : Server)
    (store : Store) (r : TryExecuteResult)
    → IsTimed store self.timers
    → Timed (finish w command channel timeout self store r)
unfolding finish
finish-Timed w command channel timeout self store (done r) t =
    let replied = reply channel r store in
    IsTimed-NoNew store _ self.timers
      (NoNew-trans store replied _ (Same-NoNew store replied (refl, refl, refl))
        (replicated-NoNew w command replied))
      t
finish-Timed w command channel timeout self store (blocking_xread i keys ids) t =
    Timed-spawn timeout (timeout_xread i) _ (λ n. record {
      readers = Covered-insert timeout_xread _ self.timers n i (channel, keys, ids) t.readers;
      poppers = Covered-old timeout_blpop _ self.timers n (timeout_xread i) t.poppers;
      waiters = Covered-old wait_command_timeout _ self.timers n (timeout_xread i) t.waiters;
    })
finish-Timed w command channel timeout self store (blocking_blpop i keys) t =
    Timed-spawn timeout (timeout_blpop i) _ (λ n. record {
      readers = Covered-old timeout_xread _ self.timers n (timeout_blpop i) t.readers;
      poppers = Covered-insert timeout_blpop _ self.timers n i (channel, keys) t.poppers;
      waiters = Covered-old wait_command_timeout _ self.timers n (timeout_blpop i) t.waiters;
    })
finish-Timed w command channel timeout self store (wait_command i numreplicas ms) t =
    let asked = ask_replicas store.pending_write_commands_for_wait store in
    let t' =
      IsTimed-NoNew store asked self.timers
        (ask_replicas-NoNew store.pending_write_commands_for_wait store) t in
    record {
      readers = Covered-old timeout_xread _ self.timers ms (wait_command_timeout i) t'.readers;
      poppers = Covered-old timeout_blpop _ self.timers ms (wait_command_timeout i) t'.poppers;
      waiters =
          Covered-insert wait_command_timeout _ self.timers ms i
            (channel, numreplicas, asked.master_ack) t'.waiters;
    }
finish-Timed w command channel timeout self store nothing t = t

-- One computation after the other: the first without the store, or on it.
Timed-pure {κ} :
    {A : Type κ} (o : Outcome A) (f : A → Outcome Server)
    → ((a : A) → Timed (f a))
    → Timed (o >>= f)
Timed-pure (ok a) f h = h a
Timed-pure (err e) f h = tt
Timed-pure panic f h = tt
Timed-pure out_of_fuel f h = tt

Timed-bind {κ} :
    {A : Type κ} (left_by : A → Store) (self : Store) (timers : List (ℕ × Envelope)) (o : Outcome A)
    (f : A → Outcome Server)
    → IsTimed self timers
    → Safe left_by self o
    → ((a : A) → IsTimed (left_by a) timers → Timed (f a))
    → Timed (o >>= f)
Timed-bind left_by self timers (ok a) f t s h = h a (IsTimed-NoNew self (left_by a) timers s t)
Timed-bind left_by self timers (err e) f t s h = tt
Timed-bind left_by self timers panic f t s h = tt
Timed-bind left_by self timers out_of_fuel f t s h = tt

count_write-Safe :
    (w : Bool) (r : Option Resp) (self : Store) → Safe (λ s. s) self (count_write w r self)
unfolding count_write
count_write-Safe false r self = Same-NoNew self self (refl, refl, refl)
count_write-Safe true none self = tt
count_write-Safe true (some r) self = Same-NoNew self _ (refl, refl, refl)

execute-Timed :
    (p : Platform) (now : ℕ) (c : ClientId) (command : Command) (channel : Channel) (self : Server)
    → IsTimed self.store self.timers
    → Timed (execute p now c command channel self)
unfolding execute
execute-Timed p now c command channel self t = Timed-pure (to_resp command) _ (λ r.
    Timed-bind (λ s. s) self.store self.timers (count_write (is_replicatable command) r self.store)
      _ t (count_write-Safe (is_replicatable command) r self.store)
      (λ counted t'.
        Timed-bind store_of counted self.timers (try_execute p now c command counted) _ t'
          (try_execute-Safe p now c command counted)
          (λ (store, result) t''.
            finish-Timed (is_replicatable command) command channel
              (block_timeout (to_millis p) command) (record self { aof = append_some r self.aof })
              store result t'')))

step-Timed :
    (p : Platform) (now : ℕ) (e : Envelope) (self : Server)
    → IsTimed self.store self.timers
    → Timed (step p now e self)
unfolding step attach register unregister
step-Timed p now (with_reply c command channel) self t =
    execute-Timed p now c command channel self t
step-Timed p now (timeout_xread i) self t =
    IsTimed-NoNew self.store _ self.timers (expire_xread-NoNew i self.store) t
step-Timed p now (timeout_blpop i) self t =
    IsTimed-NoNew self.store _ self.timers (expire_blpop-NoNew i self.store) t
step-Timed p now (wait_command_timeout i) self t =
    IsTimed-NoNew self.store _ self.timers (expire_wait-NoNew i self.store) t
step-Timed p now (Envelope.replicate command) self t =
    Timed-bind store_of self.store self.timers (try_execute p now 0 command self.store) _ t
      (try_execute-Safe p now 0 command self.store) (λ (store, r) h. h)
step-Timed p now (add_replica c channel) self t =
    IsTimed-NoNew self.store _ self.timers (Same-NoNew self.store _ (refl, refl, refl)) t
step-Timed p now (register_client c channel) self t =
    IsTimed-NoNew self.store _ self.timers (Same-NoNew self.store _ (refl, refl, refl)) t
step-Timed p now (unregister_client c) self t =
    IsTimed-NoNew self.store _ self.timers (Same-NoNew self.store _ (refl, refl, refl)) t

Timed-then :
    (o : Outcome Server) (f : Server → Outcome Server)
    → Timed o
    → ((self : Server) → IsTimed self.store self.timers → Timed (f self))
    → Timed (o >>= f)
Timed-then (ok self) f t h = h self t
Timed-then (err e) f t h = tt
Timed-then panic f t h = tt
Timed-then out_of_fuel f t h = tt

run_store-Timed :
    (p : Platform) (envelopes : List (ℕ × Envelope)) (self : Server)
    → IsTimed self.store self.timers
    → Timed (run_store p envelopes self)
unfolding run_store
run_store-Timed p [] self t = t
run_store-Timed p ((now, e) ∷ envelopes) self t =
    Timed-then (step p now e self) (run_store p envelopes) (step-Timed p now e self t)
      (run_store-Timed p envelopes)

-- When for every blocked client a timer was started for its id and command, this stays so over any
-- envelopes that the loop gets through. A timer that has run out counts: `timers` keeps it.
pub run_store-IsTimed :
    (p : Platform) (envelopes : List (ℕ × Envelope)) (self self' : Server)
    → IsTimed self.store self.timers
    → run_store p envelopes self ≡ ok self'
    → IsTimed self'.store self'.timers
run_store-IsTimed p envelopes self self' t e = rw e at (run_store-Timed p envelopes self t)
