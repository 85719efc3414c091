-- ===== src/Startup/Restart.antt =====
-- src/main.rs: a server that starts on the disk of another, and the strings of both.
use rust_redis.Prelude.{ℕ, ◌≡◌, refl, sym, ap, ◌∙◌, none, some, List, [], Bytes, All}
use rust_redis.Parser.{ok}
use rust_redis.Command.{Command}
use rust_redis.Platform.{Platform}
use rust_redis.Aof.{Aof, get_initial_commands}
use rust_redis.Aof.Files.{FileSystem, from_config}
use rust_redis.Aof.RoundTrip.{IsLoggable, opened}
use rust_redis.Store.{Store, with_data}
use rust_redis.Server.{Server, run_store, replay}
use rust_redis.Server.Durable.{Request, commands, envelopes, replay-run_store}
use rust_redis.Startup.{Args, from_args, master_addr, is_some, new, log_path, start}

module _ {S : Type 0} (fs : FileSystem S) where
  -- The parts of a start without an RDB file.
  start-parts :
      (p : Platform) (now : ℕ) (args : Args) (disk disk' : S) (aof : Aof) (cs : List Command)
      (restored : Store)
      → args.dbfilename ≡ none
      → from_config fs (from_args args) disk ≡ ok (aof, disk')
      → get_initial_commands p (fs.read (log_path aof) disk') aof ≡ ok cs
      → replay p now cs (with_data (is_some (master_addr (from_args args))) (from_args args) [])
        ≡ ok restored
      → start fs p now args disk
        ≡ ok (record { store = restored; aof = aof; timers = []; welcomed = [] }, disk')
  unfolding start new from_args
  start-parts p now args disk disk' aof cs restored no_file opens read replayed =
      rw (opens, new_empty, read, replayed) refl
    where
      new_empty :
          new fs (is_some (master_addr (from_args args))) (from_args args) disk'
          ≡ ok (with_data (is_some (master_addr (from_args args))) (from_args args) [])
      new_empty = rw no_file refl

  -- A server with an empty table and a new append-only file executes the SETs of its clients, each
  -- without a lifetime, with a key that is UTF-8 and words below 2^64 bytes. A start without an RDB
  -- file, on a disk that holds the append-only file as this server has left it, gets through and has the
  -- same strings.
  pub start-run_store :
      (p : Platform) (rs : List Request) (first self : Server) (log : Aof) (file : Bytes) (now : ℕ)
      (args : Args) (disk disk' : S)
      → first.aof ≡ opened log []
      → first.store.entries ≡ []
      → All IsLoggable (commands rs)
      → run_store p (envelopes rs) first ≡ ok self
      → self.aof ≡ opened log file
      → args.dbfilename ≡ none
      → from_config fs (from_args args) disk ≡ ok (self.aof, disk')
      → fs.read (log_path self.aof) disk' ≡ some file
      → (second : Server) × (start fs p now args disk ≡ ok (second, disk'))
        × (second.store.entries ≡ self.store.entries)
  start-run_store p rs first self log file now args disk disk' fresh none_yet l ran left no_file
        opens read =
      let store = with_data (is_some (master_addr (from_args args))) (from_args args) [] in
      let (self', file', restored, run, kept, reads, replayed, table) =
        replay-run_store p rs first log now store fresh l (sym none_yet) in
      let same : self ≡ self' = cc (ran, run) in
      let bytes : some file ≡ some file' =
        ap (λ aof. aof.aof) (sym left ∙ ap (λ s. s.aof) same ∙ kept) in
      let commands_read : get_initial_commands p (fs.read (log_path self.aof) disk') self.aof
          ≡ ok (commands rs) =
        ap (λ b. get_initial_commands p b self.aof) (read ∙ bytes)
        ∙ ap (λ s. get_initial_commands p (some file') s.aof) same
        ∙ reads in
      (
        record { store = restored; aof = self.aof; timers = []; welcomed = [] },
        start-parts p now args disk disk' self.aof (commands rs) restored no_file opens
            commands_read replayed,
        table ∙ ap (λ s. s.store.entries) (sym same),
      )
