-- ===== src/Startup/Examples.antt =====
-- The theorem on a restart at a concrete disk.
use rust_redis.Prelude.{◌≡◌, refl, true, false, none, some, [], ◌∷◌, Bytes, codes, arith}
use rust_redis.Parser.{ok}
use rust_redis.Resp.{Resp, vec, array, bulk_string, simple_string}
use rust_redis.Resp.Encode.{encode_resp}
use rust_redis.Resp.Wire.{IsWire}
use rust_redis.Utf8.{is_utf8}
use rust_redis.Command.Wire.{to_resp, to_str}
use rust_redis.Command.Read.Examples.{plain}
use rust_redis.Aof.{Aof}
use rust_redis.Aof.RoundTrip.{IsLoggable, opened}
use rust_redis.Aof.Files.{from_config}
use rust_redis.Aof.Start.Disk.{Disk, disk_files, among, text}
use rust_redis.Store.{empty, str}
use rust_redis.Prelude.Keys.{bytes_eq, insert, lookup}
use rust_redis.Store.Watches.{modified_loop}
use rust_redis.Resp.{len}
use rust_redis.Command.{modified_keys}
use rust_redis.Number.{decimal}
use rust_redis.Store.Strings.{command_set}
use rust_redis.Store.Execute.{try_execute, handle}
use rust_redis.Server.{Server, push_all, push_replicas, run_store, step, execute}
use rust_redis.Server.Durable.{Request, command_of, envelopes}
use rust_redis.Startup.{Args, from_args, start}
use rust_redis.Startup.Restart.{start-run_store}

abbrev args : Args
args = record {
  port = 6379;
  replicaof = none;
  dir = codes "/data";
  dbfilename = none;
  appendonly = codes "yes";
  appenddirname = codes "log";
  appendfilename = codes "a";
  appendfsync = codes "everysec";
}

abbrev request : Request
request = record { at_ms = 5; client_id = 1; key = codes "k"; value = codes "v"; channel = 7 }

abbrev words : Resp
words =
    array (vec (bulk_string (codes "SET") ∷ bulk_string (codes "k") ∷ bulk_string (codes "v") ∷ []))

abbrev file : Bytes
file = codes "*3\r\n$3\r\nSET\r\n$1\r\nk\r\n$1\r\nv\r\n"

abbrev log : Aof
log = record {
  dir = codes "/data";
  appendonly = codes "yes";
  appenddirname = codes "log";
  appendfilename = codes "a.1.incr.aof";
  appendfsync = codes "everysec";
  aof = some [];
}

abbrev first : Server
first = record { store = empty false; aof = log; timers = []; welcomed = [] }

-- The first server after its client's SET.
abbrev written : Server
written = record first {
  store = record (empty false) {
    entries = (codes "k", record { value = str (codes "v"); expire_ms = none }) ∷ [];
    pending_write_commands_for_wait = true;
    master_ack = 27;
    sent = (7, simple_string (codes "OK")) ∷ [];
  };
  aof = opened log file;
}

written_lem : run_store plain (envelopes (request ∷ [])) first ≡ ok written
unfolding run_store step execute to_resp try_execute handle command_set encode_resp decimal push_all
    push_replicas insert modified_loop len modified_keys lookup
written_lem = refl

abbrev disk : Disk
disk = record {
  dirs = codes "/data/log/" ∷ [];
  files =
      (codes "/data/log/a.1.incr.aof", file)
      ∷ (codes "/data/log/a.manifest", codes "file a.1.incr.aof seq 1 type i")
      ∷ [];
}

disk_lem : from_config disk_files (from_args args) disk ≡ ok (opened log file, disk)
unfolding from_config disk_files bytes_eq from_args among text is_utf8
disk_lem = refl

request-IsLoggable : IsLoggable (command_of request)
unfolding to_resp to_str is_utf8 IsWire
request-IsLoggable =
    (refl, (words, refl, (omega arith, (omega arith, (omega arith, (omega arith, tt))))))

start-run_store_example :
    (second : Server) × (start disk_files plain 90 args disk ≡ ok (second, disk))
    × (second.store.entries ≡ written.store.entries)
unfolding disk_files bytes_eq
start-run_store_example =
    start-run_store disk_files plain (request ∷ []) first written log file 90 args disk disk refl
      refl (request-IsLoggable, tt) written_lem refl refl disk_lem refl
