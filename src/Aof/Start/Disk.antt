-- ===== src/Aof/Start/Disk.antt =====
-- A concrete disk, a list of directories and a table of files, on which no call fails: an instance of
-- the file system that src/aof.rs calls.
use rust_redis.Prelude.{
  ◌≡◌, refl, sym, ap, ◌∙◌, Bool, true, false, ◌||◌, Option, none, some, List, [], ◌∷◌, ◌++◌, Bytes,
  arith, if◌then◌else◌,
}
use rust_redis.Prelude.Keys.{
  Dict, bytes_keys, bytes_eq, bytes_eq_iff, lookup, insert, lookup-insert,
}
use rust_redis.Utf8.{is_utf8}
use rust_redis.Aof.Files.{FileSystem}
use rust_redis.Aof.Start.{IsWorking, bytes_eq-append}

pub record Disk : Type 0 where
  pub dirs : List Bytes
  pub files : Dict Bytes Bytes

abbrev pub has : Option Bytes → Bool
has none = false
has (some _) = true

unfoldable pub among : Bytes → List Bytes → Bool
among path [] = false
among path (other ∷ paths) = bytes_eq path other || among path paths

-- A new file, unless there is a directory of this name.
abbrev pub created : Bool → Bytes → Disk → Option Disk
unfolding insert
created true path disk = none
created false path disk = some (record disk { files = insert path [] disk.files })

-- The bytes at the end of a file, if it is there.
abbrev pub extended : Bytes → Option Bytes → Bytes
extended bytes (some file) = file ++ bytes
extended bytes none = bytes

abbrev pub opened_at : Disk → Option Bytes → Option (Bytes × Disk)
opened_at disk (some file) = some (file, disk)
opened_at disk none = none

unfoldable pub text : Option Bytes → Option Bytes
unfolding is_utf8
text (some file) = if is_utf8 file then some file else none
text none = none

unfoldable pub disk_files : FileSystem Disk
unfolding lookup insert
disk_files = record {
  is_dir = λ path disk. among path disk.dirs;
  exists = λ path disk. has (lookup path disk.files) || among path disk.dirs;
  create_dir = λ path disk. some (record disk { dirs = path ∷ disk.dirs });
  create = λ path disk. created (among path disk.dirs) path disk;
  write_all = λ path bytes disk.
      some
        (record disk { files = insert path (extended bytes (lookup path disk.files)) disk.files });
  open_append = λ path disk. opened_at disk (lookup path disk.files);
  read = λ path disk. lookup path disk.files;
  read_to_string = λ path disk. text (lookup path disk.files);
}

bytes_eq_refl : (a : Bytes) → bytes_eq a a ≡ true
bytes_eq_refl a = (bytes_eq_iff a a).1 refl

or_else : Disk → Option Disk → Disk
or_else disk none = disk
or_else disk (some other) = other

-- What a successful creation says.
created-some :
    (d : Bool) (path : Bytes) (disk made : Disk)
    → created d path disk ≡ some made
    → (d ≡ false) × (made ≡ record disk { files = insert path [] disk.files })
unfolding or_else created
created-some true path disk made e = ground arith
created-some false path disk made e = (refl, sym (ap (λ o. or_else disk o) e))

has-lookup-insert :
    (path other : Bytes) (v : Bytes) (files : Dict Bytes Bytes)
    → has (lookup other (insert path v files)) ≡ (bytes_eq path other || has (lookup other files))
has-lookup-insert path other v files = ground (arith, lookup-insert path other v files)

or_false : (a b : Bool) → (a || b) ≡ false → (a ≡ false) × (b ≡ false)
or_false true b h = ground arith
or_false false b h = (refl, h)

created-free :
    (path : Bytes) (disk : Disk)
    → among path disk.dirs ≡ false
    → created (among path disk.dirs) path disk
      ≡ some (record disk { files = insert path [] disk.files })
unfolding created
created-free path disk h = rw h refl

new_file :
    (path : Bytes) (disk made : Disk)
    → disk_files.create path disk ≡ some made
    → (disk_files.exists path made ≡ true) × (disk_files.is_dir path made ≡ false)
unfolding disk_files
new_file path disk made h =
    let (d, e) = created-some (among path disk.dirs) path disk made h in
    rw e (rw (has-lookup-insert path path [] disk.files, bytes_eq_refl path) refl, d)

others :
    (path other : Bytes) (disk made : Disk)
    → disk_files.create path disk ≡ some made
    → disk_files.exists other made ≡ (bytes_eq path other || disk_files.exists other disk)
unfolding disk_files
others path other disk made h =
    let (d, e) = created-some (among path disk.dirs) path disk made h in
    rw e (
      rw (has-lookup-insert path other [] disk.files)
        (or_assoc (bytes_eq path other) (has (lookup other disk.files)) (among other disk.dirs)))
  where
    or_assoc : (a b c : Bool) → (a || b || c) ≡ (a || (b || c))
    or_assoc true b c = refl
    or_assoc false b c = refl

-- What a file that has just been made holds once it is written to.
after_write : Bytes → Bytes → Disk → Disk
after_write path bytes disk = record disk { files = insert path bytes (insert path [] disk.files) }

write_new :
    (path bytes : Bytes) (disk made : Disk)
    → disk_files.create path disk ≡ some made
    → disk_files.write_all path bytes made ≡ some (after_write path bytes disk)
unfolding disk_files after_write
write_new path bytes disk made h =
    let (d, e) = created-some (among path disk.dirs) path disk made h in
    rw e (rw (lookup-insert path path [] disk.files, bytes_eq_refl path) refl)

exists-after_write :
    (path bytes other : Bytes) (disk made : Disk)
    → disk_files.create path disk ≡ some made
    → disk_files.exists other (after_write path bytes disk) ≡ disk_files.exists other made
unfolding disk_files after_write
exists-after_write path bytes other disk made h =
    let (d, e) = created-some (among path disk.dirs) path disk made h in
    rw e (
      ap (λ b. b || among other disk.dirs)
        (has-lookup-insert path other bytes (insert path [] disk.files)
          ∙ rw (has-lookup-insert path other [] disk.files)
              (twice (bytes_eq path other) (has (lookup other disk.files)))))
  where
    twice : (a b : Bool) → (a || (a || b)) ≡ (a || b)
    twice true b = refl
    twice false b = refl

is_dir-after_write :
    (path bytes dirname : Bytes) (disk made : Disk)
    → disk_files.create path disk ≡ some made
    → disk_files.is_dir dirname (after_write path bytes disk) ≡ disk_files.is_dir dirname made
unfolding disk_files after_write
is_dir-after_write path bytes dirname disk made h =
    rw ((created-some (among path disk.dirs) path disk made h).1) refl

read-after_write :
    (path bytes : Bytes) (disk : Disk)
    → is_utf8 bytes ≡ true
    → disk_files.read_to_string path (after_write path bytes disk) ≡ some bytes
unfolding disk_files after_write text
read-after_write path bytes disk u =
    rw (lookup-insert path path bytes (insert path [] disk.files), bytes_eq_refl path) (rw u refl)

open_there :
    (path : Bytes) (disk : Disk)
    → disk_files.exists path disk ≡ true
    → disk_files.is_dir path disk ≡ false
    → (file : Bytes) × (disk_files.open_append path disk ≡ some (file, disk))
unfolding disk_files
open_there path disk h f = go (lookup path disk.files) h f
  where
    go :
        (o : Option Bytes)
        → (has o || among path disk.dirs) ≡ true
        → among path disk.dirs ≡ false
        → (file : Bytes) × (opened_at disk o ≡ some (file, disk))
    go none h f = ground arith
    go (some file) h f = (file, refl)

made_dir :
    (dirname : Bytes) (disk made : Disk)
    → disk_files.create_dir dirname disk ≡ some made
    → disk_files.is_dir dirname made ≡ true
unfolding disk_files among or_else
made_dir dirname disk made h =
    let e : made ≡ record disk { dirs = dirname ∷ disk.dirs } = sym (ap (λ o. or_else disk o) h) in
    rw (e, bytes_eq_refl dirname) refl

pub disk_files-IsWorking : IsWorking disk_files
unfolding disk_files among
disk_files-IsWorking = record {
  makes_dir = made_dir;
  creates = λ dirname name disk d free h. (
    record disk { files = insert (dirname ++ name) [] disk.files },
    created-free (dirname ++ name) disk (
        (or_false (has (lookup (dirname ++ name) disk.files)) (among (dirname ++ name) disk.dirs)
          free).1),
  );
  keeps_dirs = λ dirname path disk made e.
      rw ((created-some (among path disk.dirs) path disk made e).1) refl;
  has_new = new_file;
  keeps_others = λ dirname name other disk made d e h o ne.
      others (dirname ++ name) (dirname ++ other) disk made e
      ∙ rw (bytes_eq-append dirname name other, ne) refl;
  keeps_files = λ path other disk made e h.
      others path other disk made e ∙ rw h (or_true (bytes_eq path other));
  writes = λ path bytes disk made e. (
    after_write path bytes disk,
    write_new path bytes disk made e,
    λ other. exists-after_write path bytes other disk made e,
    λ dirname. is_dir-after_write path bytes dirname disk made e,
    read-after_write path bytes disk,
  );
  opens = open_there;
}
  where
    or_true : (b : Bool) → (b || true) ≡ true
    or_true true = refl
    or_true false = refl
