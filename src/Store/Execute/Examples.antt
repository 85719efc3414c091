-- ===== src/Store/Execute/Examples.antt =====
-- The theorem on transactions under `try_execute` at a concrete store.
use rust_redis.Prelude.{◌≡◌, refl, true, false, none, List, [], ◌∷◌, codes}
use rust_redis.Prelude.Keys.{bytes_eq, bytes_keys, lookup, insert}
use rust_redis.Parser.{ok}
use rust_redis.Resp.{null_array}
use rust_redis.Command.{Key, Command, augo_gen, commands, modified_keys}
use rust_redis.Command.Read.Examples.{plain}
use rust_redis.ClientSets.{has}
use rust_redis.Store.{Store, empty, TryExecuteResult, done, stream_at}
use rust_redis.Store.Lists.{contains}
use rust_redis.Store.Streams.Readers.{IsAligned}
use rust_redis.Store.Streams.Ensured.{IsValid}
use rust_redis.Store.Watches.{cleaned, watch, watch_loop}
use rust_redis.Store.Watches.Members.{watches}
use rust_redis.Store.Execute.{try_execute}
use rust_redis.Store.Execute.Transactions.{try_execute-modified}

abbrev jobs : Key
jobs = codes "jobs"

-- Client 1 watches the key.
abbrev watching : Store
watching = (watch 1 (jobs ∷ []) (empty false)).0

abbrev add_job : Command
add_job = Command.xadd jobs augo_gen (codes "name" ∷ codes "a" ∷ [])

abbrev pops : List Command
pops = Command.lpop jobs none ∷ []

one_watches : watches 1 jobs watching.watched_keys ≡ true
unfolding watch watch_loop lookup insert bytes_eq has
one_watches = refl

jobs_modified : contains jobs (modified_keys add_job) ≡ true
unfolding contains modified_keys bytes_eq
jobs_modified = refl

watching-IsValid : IsValid watching
unfolding watch stream_at lookup
watching-IsValid key = tt

watching-IsAligned : IsAligned watching
unfolding watch lookup
watching-IsAligned id channel keys ids e = cc e

try_execute-modified_example :
    (self' : Store) × (r : TryExecuteResult) × (try_execute plain 5 2 add_job watching
      ≡ ok (self', r))
    × (try_execute plain 6 1 (Command.internal_execute_tx (commands pops)) self'
        ≡ ok (cleaned 1 self', done null_array))
try_execute-modified_example =
    try_execute-modified plain 5 6 add_job pops 1 2 jobs watching refl one_watches watching-IsValid
      watching-IsAligned jobs_modified
