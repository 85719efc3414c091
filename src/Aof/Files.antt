-- ===== src/Aof/Files.antt =====
-- src/aof.rs: how the append-only file is found or made. The file system is a parameter: the calls of
-- tokio that the code makes, each with the state of the disk before and after it, `none` for an error.
use rust_redis.Prelude.{Bool, Option, none, some, ◌++◌, Bytes, codes, if◌then◌else◌}
use rust_redis.Prelude.Keys.{bytes_eq}
use rust_redis.Parser.{Outcome, ok, ◌>>=◌}
use rust_redis.Store.{Config}
use rust_redis.Aof.{Aof}
use rust_redis.Aof.Manifest.{manifest_line, filename_in}
use rust_redis.Command.Read.Args.{unwrap}

-- `create` is `File::create`, `write_all` writes to a file that has just been created, `open_append` opens a
-- file to append to it and gives its bytes, `read` and `read_to_string` open a file and read it.
pub record FileSystem (S : Type 0) : Type 0 where
  pub is_dir : Bytes → S → Bool
  pub exists : Bytes → S → Bool
  pub create_dir : Bytes → S → Option S
  pub create : Bytes → S → Option S
  pub write_all : Bytes → Bytes → S → Option S
  pub open_append : Bytes → S → Option (Bytes × S)
  pub read : Bytes → S → Option Bytes
  pub read_to_string : Bytes → S → Option Bytes

abbrev pub dirname_of : Config → Bytes
dirname_of config = config.dir ++ codes "/" ++ config.appenddirname ++ codes "/"

abbrev pub base_filename_of : Config → Bytes
base_filename_of config = config.appendfilename ++ codes ".1.incr.aof"

abbrev pub mf_base_filename_of : Config → Bytes
mf_base_filename_of config = config.appendfilename ++ codes ".manifest"

abbrev pub manifest_of : Config → Bytes
manifest_of config = dirname_of config ++ mf_base_filename_of config

abbrev pub file_of : Config → Bytes
file_of config = dirname_of config ++ base_filename_of config

module _ {S : Type 0} (fs : FileSystem S) where
  unfoldable pub create_dir : Bytes → S → Outcome S
  create_dir dirname disk =
      if fs.is_dir dirname disk then ok disk else unwrap (fs.create_dir dirname disk)

  unfoldable pub create_aof_file : Bytes → S → Outcome S
  create_aof_file filename disk =
      if fs.exists filename disk then ok disk else unwrap (fs.create filename disk)

  unfoldable pub create_manifest_file : Bytes → Bytes → S → Outcome S
  create_manifest_file mf_filename aof_base_filename disk =
      if fs.exists mf_filename disk then ok disk else (do
        created ← unwrap (fs.create mf_filename disk)
        unwrap (fs.write_all mf_filename (manifest_line aof_base_filename) created))

  unfoldable pub get_aof_filename : Bytes → S → Outcome (Option Bytes)
  unfolding filename_in
  get_aof_filename mf_filename disk = do
    buffer ← unwrap (fs.read_to_string mf_filename disk)
    ok (filename_in buffer)

  abbrev pub built : Config → Bytes → Option Bytes → Aof
  built config aof_filename aof = record {
    dir = config.dir;
    appendonly = config.appendonly;
    appenddirname = config.appenddirname;
    appendfilename = aof_filename;
    appendfsync = config.appendfsync;
    aof = aof;
  }

  unfoldable pub from_config : Config → S → Outcome (Aof × S)
  unfolding create_dir create_aof_file create_manifest_file get_aof_filename
  from_config config disk =
      if bytes_eq config.appendonly (codes "yes")
      then (do
        with_dir ← create_dir (dirname_of config) disk
        with_file ← create_aof_file (file_of config) with_dir
        with_manifest ←
            create_manifest_file (manifest_of config) (base_filename_of config) with_file
        found ← get_aof_filename (manifest_of config) with_manifest
        aof_filename ← unwrap found
        (file, opened) ← unwrap (fs.open_append (dirname_of config ++ aof_filename) with_manifest)
        ok (built config aof_filename (some file), opened))
      else ok (built config config.appendfilename none, disk)
