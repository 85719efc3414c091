-- ===== src/Aof/Start/Examples.antt =====
-- The theorem on the starts at a concrete disk.
use rust_redis.Prelude.{
  ℕ, ◌==◌, All, ◌≡◌, refl, Bool, true, false, [], ◌∷◌, Bytes, codes, arith, not, ◌&&◌,
}
use rust_redis.Prelude.Keys.{bytes_keys, bytes_eq}
use rust_redis.Parser.{ok}
use rust_redis.Aof.Start.Disk.{Disk, disk_files, disk_files-IsWorking, among}
use rust_redis.Utf8.{is_utf8}
use rust_redis.Store.{Config, default_config}
use rust_redis.Aof.{Aof}
use rust_redis.Aof.Files.{base_filename_of, mf_base_filename_of, create_dir, from_config}
use rust_redis.Aof.Start.{IsSuitable, from_config-from_config}

-- Neither of two bytes is in the text.
abbrev avoids : ℕ → ℕ → Bytes → Bool
avoids a b [] = true
avoids a b (c ∷ s) = not (c == a) && not (c == b) && avoids a b s

avoids-All :
    (a b : ℕ) (s : Bytes)
    → avoids a b s ≡ true
    → All (λ c. ((c == a) ≡ false) × ((c == b) ≡ false)) s
avoids-All a b [] h = tt
avoids-All a b (c ∷ s) h = ground (arith, avoids-All a b s)

abbrev config : Config
config = record default_config { appendonly = codes "yes" }

abbrev new_disk : Disk
new_disk = record { dirs = codes "/data" ∷ []; files = [] }

abbrev with_dir : Disk
with_dir = record { dirs = codes "/data/appendonlydir/" ∷ codes "/data" ∷ []; files = [] }

config-IsSuitable : IsSuitable config
unfolding is_utf8
config-IsSuitable = record {
  asked = refl;
  file_name = (omega arith, avoids-All b'/' 0 (base_filename_of config) refl);
  manifest_name = (omega arith, avoids-All b'/' 0 (mf_base_filename_of config) refl);
  plain = avoids-All b' ' b'\n' (base_filename_of config) refl;
  text = refl;
}

from_config-from_config_example :
    (aof : Aof) × (disk' : Disk) × (from_config disk_files config new_disk ≡ ok (aof, disk'))
    × (from_config disk_files config disk' ≡ ok (aof, disk'))
    × (aof.appendfilename ≡ codes "appendonly.aof.1.incr.aof")
unfolding create_dir disk_files among bytes_eq
from_config-from_config_example =
    from_config-from_config disk_files disk_files-IsWorking config new_disk with_dir
      config-IsSuitable refl refl refl
