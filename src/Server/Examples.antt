-- ===== src/Server/Examples.antt =====
-- The theorems on blocked clients at a concrete one.
use rust_redis.Prelude.{◌≡◌, refl, false, none, List, [], ◌∷◌, codes}
use rust_redis.Parser.{ok}
use rust_redis.Command.Wire.{to_resp}
use rust_redis.Command.Read.Examples.{plain}
use rust_redis.Aof.{Aof}
use rust_redis.Aof.RoundTrip.{opened}
use rust_redis.Store.{empty}
use rust_redis.Prelude.{ℕ, inl}
use rust_redis.Command.{Command, modified_keys}
use rust_redis.Prelude.Keys.{lookup, insert}
use rust_redis.Store.{list_at}
use rust_redis.Store.Lists.{blpop}
use rust_redis.Store.Watches.{modified_loop}
use rust_redis.Store.Execute.{try_execute, handle}
use rust_redis.Server.{Server, Envelope, with_reply, timeout_blpop, run_store, step, execute}
use rust_redis.Server.Waiting.{IsTimed}
use rust_redis.Server.Expiry.{
  timeouts, IsUnblocked, IsAnswered, run_store-IsUnblocked, run_store-IsAnswered,
}

abbrev log : Aof
log = record {
  dir = codes "/data";
  appendonly = codes "yes";
  appenddirname = codes "appendonlydir";
  appendfilename = codes "appendonly.aof.1.incr.aof";
  appendfsync = codes "everysec";
  aof = none;
}

abbrev started : Server
started = record { store = empty false; aof = opened log []; timers = []; welcomed = [] }

-- A client that pops from an empty list, with a timeout.
abbrev popping : List (ℕ × Envelope)
popping = (3, with_reply 1 (Command.blpop (codes "k" ∷ []) 250) 5) ∷ []

-- The client is in the table, and its timer sleeps.
abbrev blocked : Server
blocked = record started {
  store = record (empty false) {
    waiter_id = 1;
    list_blpop_waiters = (1, (5, codes "k" ∷ [])) ∷ [];
  };
  timers = (250, timeout_blpop 1) ∷ [];
}

blocked_lem : run_store plain popping started ≡ ok blocked
unfolding run_store step execute to_resp try_execute handle blpop list_at lookup modified_loop
    insert modified_keys
blocked_lem = refl

started-IsTimed : IsTimed (empty false) []
unfolding lookup
started-IsTimed = record {
  readers = λ i. inl refl;
  poppers = λ i. inl refl;
  waiters = λ i. inl refl;
}

run_store-IsUnblocked_example :
    (self'' : Server) × (run_store plain (timeouts 400 ((250, timeout_blpop 1) ∷ [])) blocked
      ≡ ok self'')
    × IsUnblocked self''.store
run_store-IsUnblocked_example =
    run_store-IsUnblocked plain 400 popping started blocked started-IsTimed blocked_lem

run_store-IsAnswered_example :
    (self'' : Server) × (run_store plain (timeouts 400 ((250, timeout_blpop 1) ∷ [])) blocked
      ≡ ok self'')
    × IsAnswered blocked.store self''.store
run_store-IsAnswered_example =
    run_store-IsAnswered plain 400 popping started blocked started-IsTimed blocked_lem
