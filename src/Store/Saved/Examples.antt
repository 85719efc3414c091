-- ===== src/Store/Saved/Examples.antt =====
-- The theorem on saved stores at a concrete store.
use rust_redis.Prelude.{◌≡◌, refl, true, none, some, [], ◌∷◌, arith, codes}
use rust_redis.Prelude.Keys.{bytes_keys, bytes_eq, lookup}
use rust_redis.Parser.{ok}
use rust_redis.Command.{Key}
use rust_redis.Rdb.{Rdb, deserialize, serialize}
use rust_redis.Store.{Store, default_config, with_data, str, list}
use rust_redis.Store.Saved.{from_rdb, to_rdb}
use rust_redis.Store.Saved.RoundTrip.{string_in, from_rdb-to_rdb}

abbrev master : Store
master = with_data true default_config (
    (codes "apple", record { value = str (codes "red"); expire_ms = some 1700000000000 })
    ∷ (codes "queue", record { value = list (codes "a" ∷ []); expire_ms = none })
    ∷ (codes "plum", record { value = str (codes "blue"); expire_ms = none })
    ∷ [])

from_rdb-to_rdb_example :
    (rdb : Rdb) × (deserialize (serialize (to_rdb master)) ≡ ok rdb)
    × ((key : Key)
        → lookup key (from_rdb true default_config rdb).entries
          ≡ string_in (lookup key master.entries))
unfolding lookup bytes_eq
from_rdb-to_rdb_example =
    from_rdb-to_rdb true default_config master (refl, (refl, (refl, tt)))
      ((omega arith, omega arith, omega arith), (tt, ((omega arith, omega arith, tt), tt)))
      (omega arith)
