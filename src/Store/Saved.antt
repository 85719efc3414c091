-- ===== src/Store/Saved.antt =====
-- src/main.rs: `Store::to_rdb` and `Store::from_rdb`, the store as an RDB file has it.
pub mod RoundTrip
pub mod Examples
use rust_redis.Prelude.{ℕ, ◌*◌, Bool, Option, none, some, List, [], ◌∷◌, Bytes}
use rust_redis.Prelude.Keys.{Dict, bytes_keys, insert}
use rust_redis.Command.{Key}
use rust_redis.Rdb.{Rdb, RdbString, RdbValueExpiration, never, seconds, milliseconds, set}
use rust_redis.Store.{Store, Config, Value, str, list, stream, with_data}

-- `match v { RdbString { expire: … } => … }`
abbrev pub expire_ms_of : RdbValueExpiration → Option ℕ
expire_ms_of never = none
expire_ms_of (milliseconds ms) = some ms
expire_ms_of (seconds secs) = some (secs * 1000)

abbrev pub restored : RdbString → Value
restored v = record { value = str v.value; expire_ms = expire_ms_of v.expire }

-- `for (k, v) in &rdb.data { …; data.insert(k, v); }`
unfoldable pub restore_loop : Dict Key RdbString → Dict Key Value → Dict Key Value
restore_loop [] m = m
restore_loop ((k, v) ∷ entries) m = restore_loop entries (insert k (restored v) m)

unfoldable pub from_rdb : Bool → Config → Rdb → Store
unfolding restore_loop
from_rdb is_replica config rdb = with_data is_replica config (restore_loop rdb.data_ [])

-- `match expire_ms { Some(ms) => …, None => … }`
abbrev pub saved_expire : Option ℕ → RdbValueExpiration
saved_expire (some ms) = milliseconds ms
saved_expire none = never

-- Only strings are saved.
abbrev pub saved : Value → Option RdbString
saved v = elim v.value [
  | str s ↦ some (record { encoding = 0; value = s; expire = saved_expire v.expire_ms })
  | list l ↦ none
  | stream s ↦ none
]

abbrev pub save : Key → Option RdbString → Rdb → Rdb
unfolding set
save k none rdb = rdb
save k (some r) rdb = set rdb k r

-- `for (k, v) in &self.data`
unfoldable pub save_loop : Dict Key Value → Rdb → Rdb
unfolding save
save_loop [] rdb = rdb
save_loop ((k, v) ∷ entries) rdb = save_loop entries (save k (saved v) rdb)

unfoldable pub to_rdb : Store → Rdb
unfolding save_loop
to_rdb self = save_loop self.entries (record { metadata = []; data_ = [] })
