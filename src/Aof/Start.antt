-- ===== src/Aof/Start.antt =====
-- src/aof.rs: a start that makes the append-only file and its manifest, and the next start, on the disk
-- that this one left.
pub mod Disk
pub mod Examples
use rust_redis.Prelude.{
  ◌<◌, length, ◌≡◌, refl, sym, ap, ◌∙◌, ◌==◌, Bool, true, false, ◌||◌, some, List, [], ◌∷◌, ◌++◌,
  Bytes, codes, All, All-append, append_assoc, Bool-cases, inl, inr, arith, if◌then◌else◌,
}
use rust_redis.Prelude.Keys.{bytes_eq, bytes_eq_iff}
use rust_redis.Parser.{ok, ◌>>=◌}
use rust_redis.Utf8.{is_utf8}
use rust_redis.Command.Read.Args.{unwrap}
use rust_redis.Store.{Config}
use rust_redis.Aof.{Aof}
use rust_redis.Aof.Manifest.{manifest_line, IsPlain, filename_in, filename_in-manifest_line}
use rust_redis.Aof.Files.{
  FileSystem, dirname_of, mf_base_filename_of, file_of, base_filename_of, manifest_of, create_dir,
  create_aof_file, create_manifest_file, get_aof_filename, built, from_config,
}

-- The text names a file of a directory: it has neither a slash nor a zero byte, and is longer than
-- `.` and `..` are.
abbrev pub IsFileName : Bytes → Type 0
IsFileName s = (2 < length s) × All (λ c. ((c == b'/') ≡ false) × ((c == 0) ≡ false)) s

-- What the calls do when none of them fails: a directory can take files, a new file is empty and is
-- written to, and opening a file to append to it changes nothing.
pub record IsWorking {S : Type 0} (fs : FileSystem S) : Type 0 where
  pub makes_dir :
      (dirname : Bytes) (disk made : S)
      → fs.create_dir dirname disk ≡ some made
      → fs.is_dir dirname made ≡ true
  pub creates :
      (dirname name : Bytes) (disk : S)
      → fs.is_dir dirname disk ≡ true
      → fs.exists (dirname ++ name) disk ≡ false
      → IsFileName name
      → (made : S) × (fs.create (dirname ++ name) disk ≡ some made)
  pub keeps_dirs :
      (dirname path : Bytes) (disk made : S)
      → fs.create path disk ≡ some made
      → fs.is_dir dirname made ≡ fs.is_dir dirname disk
  pub has_new :
      (path : Bytes) (disk made : S)
      → fs.create path disk ≡ some made
      → (fs.exists path made ≡ true) × (fs.is_dir path made ≡ false)
  pub keeps_others :
      (dirname name other : Bytes) (disk made : S)
      → fs.is_dir dirname disk ≡ true
      → fs.create (dirname ++ name) disk ≡ some made
      → IsFileName name
      → IsFileName other
      → bytes_eq name other ≡ false
      → fs.exists (dirname ++ other) made ≡ fs.exists (dirname ++ other) disk
  pub keeps_files :
      (path other : Bytes) (disk made : S)
      → fs.create path disk ≡ some made
      → fs.exists other disk ≡ true
      → fs.exists other made ≡ true
  pub writes :
      (path bytes : Bytes) (disk made : S)
      → fs.create path disk ≡ some made
      → (written : S) × (fs.write_all path bytes made ≡ some written)
        × ((other : Bytes) → fs.exists other written ≡ fs.exists other made)
        × ((dirname : Bytes) → fs.is_dir dirname written ≡ fs.is_dir dirname made)
        × (is_utf8 bytes ≡ true → fs.read_to_string path written ≡ some bytes)
  pub opens :
      (path : Bytes) (disk : S)
      → fs.exists path disk ≡ true
      → fs.is_dir path disk ≡ false
      → (file : Bytes) × (fs.open_append path disk ≡ some (file, disk))

pub bytes_eq-append : (d a b : Bytes) → bytes_eq (d ++ a) (d ++ b) ≡ bytes_eq a b
unfolding bytes_eq
bytes_eq-append [] a b = refl
bytes_eq-append (c ∷ d) a b = ground (arith, bytes_eq-append d a b)

distinct :
    (config : Config) → bytes_eq (base_filename_of config) (mf_base_filename_of config) ≡ false
unfolding bytes_eq
distinct config = bytes_eq-append config.appendfilename (codes ".1.incr.aof") (codes ".manifest")

-- What the starts need of the configuration: names of files, without a space or a line feed, and a
-- line for the manifest that is UTF-8.
pub record IsSuitable (config : Config) : Type 0 where
  pub asked : config.appendonly ≡ codes "yes"
  pub file_name : IsFileName (base_filename_of config)
  pub manifest_name : IsFileName (mf_base_filename_of config)
  pub plain : IsPlain (base_filename_of config)
  pub text : is_utf8 (manifest_line (base_filename_of config)) ≡ true

module _ {S : Type 0} (fs : FileSystem S) (w : IsWorking fs) where
  create_dir-is_dir :
      (dirname : Bytes) (disk with_dir : S)
      → create_dir fs dirname disk ≡ ok with_dir
      → fs.is_dir dirname with_dir ≡ true
  unfolding create_dir
  create_dir-is_dir dirname disk with_dir e = ground (arith, w.makes_dir dirname disk with_dir)

  -- A file that is wanted in a directory is there afterwards.
  record Made (dirname name : Bytes) (disk : S) : Type 0 where
    made : S
    run : create_aof_file fs (dirname ++ name) disk ≡ ok made
    is_dir : fs.is_dir dirname made ≡ true
    there : fs.exists (dirname ++ name) made ≡ true
    is_file : fs.is_dir (dirname ++ name) made ≡ false
    others :
        (other : Bytes)
        → IsFileName other
        → bytes_eq name other ≡ false
        → fs.exists (dirname ++ other) made ≡ fs.exists (dirname ++ other) disk

  create_aof_file-Made :
      (dirname name : Bytes) (disk : S)
      → fs.is_dir dirname disk ≡ true
      → fs.is_dir (dirname ++ name) disk ≡ false
      → IsFileName name
      → Made dirname name disk
  unfolding create_aof_file
  create_aof_file-Made dirname name disk d f h =
      elim (Bool-cases (fs.exists (dirname ++ name) disk)) [
        | inl there ↦ record {
          made = disk;
          run = rw there refl;
          is_dir = d;
          there = there;
          is_file = f;
          others = λ other o ne. refl;
        }
        | inr missing ↦
            let (made, e) = w.creates dirname name disk d missing h in
            record {
              made = made;
              run = rw (missing, e) refl;
              is_dir = w.keeps_dirs dirname (dirname ++ name) disk made e ∙ d;
              there = (w.has_new (dirname ++ name) disk made e).0;
              is_file = (w.has_new (dirname ++ name) disk made e).1;
              others = λ other o ne. w.keeps_others dirname name other disk made d e h o ne;
            }
      ]

  -- A new manifest, which gives back the name that was written to it.
  record Listed (dirname path name : Bytes) (disk : S) : Type 0 where
    written : S
    run : create_manifest_file fs path name disk ≡ ok written
    is_dir : fs.is_dir dirname written ≡ true
    there : fs.exists path written ≡ true
    others :
        (other : Bytes)
        → fs.exists other disk ≡ true
        → fs.is_dir other disk ≡ false
        → (fs.exists other written ≡ true) × (fs.is_dir other written ≡ false)
    found : get_aof_filename fs path written ≡ ok (some name)

  create_manifest_file-Listed :
      (dirname mf_name name : Bytes) (disk : S)
      → fs.is_dir dirname disk ≡ true
      → fs.exists (dirname ++ mf_name) disk ≡ false
      → IsFileName mf_name
      → IsPlain name
      → is_utf8 (manifest_line name) ≡ true
      → Listed dirname (dirname ++ mf_name) name disk
  unfolding create_manifest_file get_aof_filename
  create_manifest_file-Listed dirname mf_name name disk d fresh h plain u =
      let path = dirname ++ mf_name in
      let (made, e) = w.creates dirname mf_name disk d fresh h in
      let (written, e', same, dirs, reads) = w.writes path (manifest_line name) disk made e in
      record {
        written = written;
        run = rw (fresh, e, e') refl;
        is_dir = dirs dirname ∙ w.keeps_dirs dirname path disk made e ∙ d;
        there = same path ∙ (w.has_new path disk made e).0;
        others = λ other t f. (
          same other ∙ w.keeps_files path other disk made e t,
          dirs other ∙ w.keeps_dirs other path disk made e ∙ f,
        );
        found = rw (reads u, filename_in-manifest_line name plain) refl;
      }

  from_config-steps :
      (config : Config) (file : Bytes) (disk with_dir with_file listed : S)
      → config.appendonly ≡ codes "yes"
      → create_dir fs (dirname_of config) disk ≡ ok with_dir
      → create_aof_file fs (file_of config) with_dir ≡ ok with_file
      → create_manifest_file fs (manifest_of config) (base_filename_of config) with_file ≡ ok listed
      → get_aof_filename fs (manifest_of config) listed ≡ ok (some (base_filename_of config))
      → fs.open_append (file_of config) listed ≡ some (file, listed)
      → from_config fs config disk
        ≡ ok (built fs config (base_filename_of config) (some file), listed)
  unfolding from_config bytes_eq
  from_config-steps config file disk with_dir with_file listed on e e' e'' found opened =
      rw (on, e, e', e'', found, opened) refl

  create_dir-there :
      (dirname : Bytes) (disk : S)
      → fs.is_dir dirname disk ≡ true
      → create_dir fs dirname disk ≡ ok disk
  unfolding create_dir
  create_dir-there dirname disk h = rw h refl

  create_aof_file-there :
      (path : Bytes) (disk : S)
      → fs.exists path disk ≡ true
      → create_aof_file fs path disk ≡ ok disk
  unfolding create_aof_file
  create_aof_file-there path disk h = rw h refl

  create_manifest_file-there :
      (path name : Bytes) (disk : S)
      → fs.exists path disk ≡ true
      → create_manifest_file fs path name disk ≡ ok disk
  unfolding create_manifest_file
  create_manifest_file-there path name disk h = rw h refl

  -- On a disk where no call fails, with a directory that is there or can be made, in which there is no
  -- manifest and the log is not a directory, and with file names without a slash, a zero byte, a space
  -- or a line feed whose manifest is UTF-8: the first start
  -- makes the files and opens `<appendfilename>.1.incr.aof`, and a start on the disk that it leaves
  -- opens the same file, with the same bytes, and leaves the disk as it is.
  pub from_config-from_config :
      (config : Config) (disk with_dir : S)
      → IsSuitable config
      → create_dir fs (dirname_of config) disk ≡ ok with_dir
      → fs.is_dir (file_of config) with_dir ≡ false
      → fs.exists (manifest_of config) with_dir ≡ false
      → (aof : Aof) × (disk' : S) × (from_config fs config disk ≡ ok (aof, disk'))
        × (from_config fs config disk' ≡ ok (aof, disk'))
        × (aof.appendfilename ≡ base_filename_of config)
  from_config-from_config config disk with_dir s made is_file fresh =
      let d = create_dir-is_dir (dirname_of config) disk with_dir made in
      let log =
        create_aof_file-Made (dirname_of config) (base_filename_of config) with_dir d is_file
          s.file_name in
      let list =
        create_manifest_file-Listed (dirname_of config) (mf_base_filename_of config)
          (base_filename_of config) log.made log.is_dir
          (log.others (mf_base_filename_of config) s.manifest_name (distinct config) ∙ fresh)
          s.manifest_name s.plain s.text in
      let (has_file, not_dir) = list.others (file_of config) log.there log.is_file in
      let (file, opened) = w.opens (file_of config) list.written has_file not_dir in
      let end = list.written in
      (
        built fs config (base_filename_of config) (some file),
        end,
        from_config-steps config file disk with_dir log.made end s.asked made log.run list.run
            list.found opened,
        from_config-steps config file end end end end s.asked
            (create_dir-there (dirname_of config) end list.is_dir)
            (create_aof_file-there (file_of config) end has_file)
            (create_manifest_file-there (manifest_of config) (base_filename_of config) end
              list.there)
            list.found opened,
        refl,
      )
