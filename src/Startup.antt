-- ===== src/Startup.antt =====
-- src/main.rs: what `main` makes of the arguments, and the start of the store: the append-only file, the
-- RDB file, and the commands that are executed before the first envelope. Reading the command line is a
-- crate's; listening, and the counter that numbers the connections, is input and output.
pub mod Restart
pub mod Examples
use rust_redis.Prelude.{
  ℕ, Bool, true, false, Option, none, some, List, [], ◌∷◌, ◌++◌, Bytes, codes, ◌==◌, if◌then◌else◌,
}
use rust_redis.Parser.{Outcome, ok, ◌>>=◌}
use rust_redis.Platform.{Platform}
use rust_redis.Rdb.{Rdb, deserialize}
use rust_redis.Aof.{Aof, get_initial_commands}
use rust_redis.Aof.Files.{FileSystem, from_config}
use rust_redis.Store.{Store, Config, with_data}
use rust_redis.Store.Saved.{from_rdb}
use rust_redis.Server.{Server, replay}

-- The fields that the crate fills from the command line.
pub record Args : Type 0 where
  pub port : ℕ
  pub replicaof : Option Bytes
  pub dir : Bytes
  pub dbfilename : Option Bytes
  pub appendonly : Bytes
  pub appenddirname : Bytes
  pub appendfilename : Bytes
  pub appendfsync : Bytes

-- `Config::from_args`
unfoldable pub from_args : Args → Config
from_args args = record {
  port = args.port;
  replicaof = args.replicaof;
  dir = args.dir;
  dbfilename = args.dbfilename;
  appendonly = args.appendonly;
  appenddirname = args.appenddirname;
  appendfilename = args.appendfilename;
  appendfsync = args.appendfsync;
}

-- `v.replace(" ", ":")`
abbrev pub with_colons : Bytes → Bytes
with_colons [] = []
with_colons (c ∷ s) = (if c == b' ' then b':' else c) ∷ with_colons s

unfoldable pub master_addr : Config → Option Bytes
master_addr config = elim config.replicaof [ some v ↦ some (with_colons v) | none ↦ none ]

abbrev pub is_some {ℓ} : {A : Type ℓ} → Option A → Bool
is_some (some _) = true
is_some none = false

-- `Rdb::read_from_file(&filename).await.ok()`: the file, unless it cannot be read.
unfoldable pub read_from_file : Option Bytes → Outcome (Option Rdb)
read_from_file none = ok none
read_from_file (some bytes) = do rdb ← deserialize bytes; ok (some rdb)

abbrev stored : Bool → Config → Option Rdb → Store
stored is_replica config none = with_data is_replica config []
stored is_replica config (some rdb) = from_rdb is_replica config rdb

-- `self.dir`, `self.appenddirname` and `self.appendfilename`
abbrev pub log_path : Aof → Bytes
log_path aof = aof.dir ++ codes "/" ++ aof.appenddirname ++ codes "/" ++ aof.appendfilename

module _ {S : Type 0} (fs : FileSystem S) where
  -- `Store::new`
  abbrev loaded : Config → Option Bytes → S → Outcome (Option Rdb)
  unfolding read_from_file
  loaded config none disk = ok none
  loaded config (some f) disk = read_from_file (fs.read (config.dir ++ codes "/" ++ f) disk)

  unfoldable pub new : Bool → Config → S → Outcome Store
  unfolding loaded
  new is_replica config disk = do
    rdb ← loaded config config.dbfilename disk
    ok (stored is_replica config rdb)

  -- From `main` to the first envelope of `run_store`.
  unfoldable pub start : Platform → ℕ → Args → S → Outcome (Server × S)
  unfolding from_args master_addr new
  start p now args disk =
      let config = from_args args in
      do
        (aof, opened) ← from_config fs config disk
        store ← new (is_some (master_addr config)) config opened
        commands ← get_initial_commands p (fs.read (log_path aof) opened) aof
        restored ← replay p now commands store
        ok (record { store = restored; aof = aof; timers = []; welcomed = [] }, opened)
