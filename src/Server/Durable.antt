-- ===== src/Server/Durable.antt =====
-- src/main.rs and src/aof.rs: the strings of `run_store`, and those of a restart from its file.
use rust_redis.Prelude.{ℕ, ◌≡◌, refl, sym, ap, ◌∙◌, none, some, List, [], ◌∷◌, Bytes, codes, All}
use rust_redis.Prelude.Keys.{Dict, bytes_keys, insert}
use rust_redis.Parser.{ok}
use rust_redis.Resp.{Resp, simple_string}
use rust_redis.Command.{Command, Key, modified_keys, is_replicatable}
use rust_redis.Command.Wire.{to_resp}
use rust_redis.Platform.{Platform}
use rust_redis.ClientSets.{ClientId}
use rust_redis.Aof.{Aof, append_some, append_command, get_initial_commands}
use rust_redis.Aof.RoundTrip.{
  append_commands, IsLoggable, opened, get_initial_commands-append_commands,
}
use rust_redis.Store.{Store, StorePush, Channel, Value, str}
use rust_redis.Store.Strings.{command_set, ok_done}
use rust_redis.Store.Watches.{track}
use rust_redis.Store.Execute.{handle, try_execute}
use rust_redis.Server.{
  Server, Envelope, with_reply, count_write, finish, execute, step, run_store, replay, counted,
  reply, push_all,
}

-- A client's SET without a lifetime, and when it comes.
pub record Request : Type 0 where
  pub at_ms : ℕ
  pub client_id : ClientId
  pub key : Key
  pub value : Bytes
  pub channel : Channel

abbrev pub command_of : Request → Command
command_of r = Command.set r.key r.value none none

abbrev pub commands : List Request → List Command
commands [] = []
commands (r ∷ rs) = command_of r ∷ commands rs

abbrev pub envelopes : List Request → List (ℕ × Envelope)
envelopes [] = []
envelopes (r ∷ rs) = (r.at_ms, with_reply r.client_id (command_of r) r.channel) ∷ envelopes rs

abbrev written : Request → Dict Key Value → Dict Key Value
written r m = insert r.key (record { value = str r.value; expire_ms = none }) m

abbrev inserts : List Request → Dict Key Value → Dict Key Value
inserts [] m = m
inserts (r ∷ rs) m = inserts rs (written r m)

try_execute-set :
    (p : Platform) (now : ℕ) (client_id : ClientId) (r : Request) (self : Store)
    → (self' : Store) × (try_execute p now client_id (command_of r) self ≡ ok (self', ok_done))
      × (self'.entries ≡ written r self.entries)
unfolding try_execute handle command_set
try_execute-set p now client_id r self = (_, refl, refl)

abbrev executed : Request → Resp → Store → Store
unfolding command_set
executed r value self =
    (command_set r.at_ms r.key r.value none none
      (track r.client_id (r.key ∷ []) (counted value self))).0

abbrev after_set : Request → Resp → Server → Server
unfolding append_some executed
after_set r value self = record self {
  aof = append_some (some value) self.aof;
  store =
      push_all (StorePush.replicate (command_of r))
        (reply r.channel (simple_string (codes "OK")) (executed r value self.store));
}

step-set :
    (p : Platform) (r : Request) (value : Resp) (self : Server)
    → to_resp (command_of r) ≡ ok (some value)
    → step p r.at_ms (with_reply r.client_id (command_of r) r.channel) self
      ≡ ok (after_set r value self)
unfolding step execute try_execute handle count_write finish is_replicatable modified_keys after_set
step-set p r value self e = rw e refl

append_command-set :
    (r : Request) (value : Resp) (self : Server)
    → to_resp (command_of r) ≡ ok (some value)
    → append_command (command_of r) self.aof ≡ ok (after_set r value self).aof
unfolding append_command after_set
append_command-set r value self e = rw e refl

entries-set :
    (r : Request) (value : Resp) (self : Server)
    → (after_set r value self).store.entries ≡ written r self.store.entries
unfolding after_set executed command_set insert push_all
entries-set r value self = refl

-- What a run over such requests leaves: its file and its table.
record Ran (p : Platform) (rs : List Request) (self : Server) : Type 0 where
  final : Server
  run : run_store p (envelopes rs) self ≡ ok final
  log : append_commands (commands rs) self.aof ≡ ok final.aof
  table : final.store.entries ≡ inserts rs self.store.entries

run_store-Ran :
    (p : Platform) (rs : List Request) (self : Server)
    → All IsLoggable (commands rs)
    → Ran p rs self
unfolding run_store append_commands
run_store-Ran p [] self l = record { final = self; run = refl; log = refl; table = refl }
run_store-Ran p (r ∷ rs) self ((u, (value, e, w)), l) =
    let rest = run_store-Ran p rs (after_set r value self) l in
    record {
      final = rest.final;
      run = rw (step-set p r value self e) rest.run;
      log = rw (append_command-set r value self e) rest.log;
      table = rest.table ∙ ap (inserts rs) (entries-set r value self);
    }

replay-set :
    (p : Platform) (now : ℕ) (rs : List Request) (self : Store)
    → (self' : Store) × (replay p now (commands rs) self ≡ ok self')
      × (self'.entries ≡ inserts rs self.entries)
unfolding replay
replay-set p now [] self = (self, refl, refl)
replay-set p now (r ∷ rs) self =
    let (first, e, table) = try_execute-set p now 0 r self in
    let (final, e', table') = replay-set p now rs first in
    (final, rw e e', table' ∙ ap (inserts rs) table)

-- Clients set strings without a lifetime, each SET with a key that is UTF-8 and words below 2^64
-- bytes, on a server whose append-only file is new. The server executes them all, and the next start
-- reads their commands from the file and makes the same table of them, if it starts from the table
-- that the server had before.
pub replay-run_store :
    (p : Platform) (rs : List Request) (self : Server) (log : Aof) (now : ℕ) (restarted : Store)
    → self.aof ≡ opened log []
    → All IsLoggable (commands rs)
    → restarted.entries ≡ self.store.entries
    → (self' : Server) × (file : Bytes) × (restored : Store) × (run_store p (envelopes rs) self
        ≡ ok self')
      × (self'.aof ≡ opened log file)
      × (get_initial_commands p (some file) self'.aof ≡ ok (commands rs))
      × (replay p now (commands rs) restarted ≡ ok restored)
      × (restored.entries ≡ self'.store.entries)
replay-run_store p rs self log now restarted fresh l same =
    let ran = run_store-Ran p rs self l in
    let (file, logged, read) = get_initial_commands-append_commands p log (commands rs) l in
    let (restored, replayed, table) = replay-set p now rs restarted in
    let kept : ran.final.aof ≡ opened log file = cc (fresh, logged, ran.log) in
    (
      ran.final,
      file,
      restored,
      ran.run,
      kept,
      rw kept read,
      replayed,
      table ∙ ap (inserts rs) same ∙ sym ran.table,
    )
