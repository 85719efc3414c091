-- ===== src/Command.antt =====
-- src/command.rs: the commands and what they say of themselves. A `String` is its UTF-8 bytes, a
-- signed number a ℤ, an `f64` the number whose binary digits are its 64 bits.
pub mod Wire
pub mod Read
use rust_redis.Prelude.{
  ℕ, Bool, true, false, Option, none, some, List, [], ◌∷◌, ◌++◌, Bytes, codes, u64_mod, ◌==◌, ◌||◌,
  ◌-◌, if◌then◌else◌,
}
use rust_redis.Prelude.Int.{ℤ}

abbrev pub F64 : Type 0
F64 = ℕ

-- `x == 0.`: the bits of 0.0 or of -0.0
unfoldable pub is_zero : F64 → Bool
is_zero x = x == 0 || x == 0x8000000000000000

-- `types.rs`: `struct Key(pub Vec<u8>)`
abbrev pub Key : Type 0
Key = Bytes

pub data XaddStreamIdInput : Type 0 where
  explicit : ℕ → ℕ → XaddStreamIdInput
  auto_gen_seq : ℕ → XaddStreamIdInput
  augo_gen : XaddStreamIdInput

pub data XreadStreamIdInput : Type 0 where
  explicit : ℕ → ℕ → XreadStreamIdInput
  dollar_id : XreadStreamIdInput

-- `Commands` is the `Vec<Command>` of a transaction. A constructor takes the fields of the variant
-- in their order.
mutual
  pub data Command : Type 0 where
    echo : Bytes → Command
    ping : Option Bytes → Command
    set : Key → Bytes → Option ℕ → Option ℕ → Command
    get : Key → Command
    rpush : Key → List Bytes → Command
    lrange : Key → ℤ → ℤ → Command
    lpush : Key → List Bytes → Command
    llen : Key → Command
    lpop : Key → Option ℕ → Command
    blpop : List Key → F64 → Command
    type_of : Key → Command
    xadd : Key → XaddStreamIdInput → List Bytes → Command
    xrange : Key → ℕ × ℕ → ℕ × ℕ → Command
    xread : List Key → Option ℕ → List XreadStreamIdInput → Command
    incr : Key → Command
    multi exec discard : Command
    watch : List Key → Command
    unwatch : Command
    internal_execute_tx : Commands → Command
    info : Option Bytes → Command
    replconf_listening_port : ℕ → Command
    replconf_capa : List Bytes → Command
    psync : Bytes → ℤ → Command
    replconf_get_ack : Command
    replconf_ack : ℕ → Command
    wait : ℕ → ℕ → Command
    config_get : Bytes → Command
    keys : Bytes → Command
    subscribe : List Bytes → Command
    publish : Bytes → Bytes → Command
    unsubscribe : List Bytes → Command
    zadd : Bytes → F64 → Bytes → Command
    zrank : Bytes → Bytes → Command
    zrange : Bytes → ℤ → ℤ → Command
    zcard : Bytes → Command
    zscore : Bytes → Bytes → Command
    zrem : Bytes → Bytes → Command
    geoadd : Bytes → F64 → F64 → Bytes → Command
    geopos : Bytes → List Bytes → Command
    geodist : Bytes → Bytes → Bytes → Command
    geosearch : Bytes → F64 → F64 → F64 → Bytes → Command
    acl_whoami : Command
    acl_getuser : Bytes → Command
    acl_setuser : Bytes → Bytes → Command
    auth : Bytes → Bytes → Command

  pub data Commands : Type 0 where
    nil : Commands
    cons : Command → Commands → Commands

abbrev pub commands : List Command → Commands
commands [] = nil
commands (c ∷ cs) = cons c (commands cs)

-- `Command::name`
unfoldable pub name : Command → Bytes
name (echo _) = codes "echo"
name (ping _) = codes "ping"
name (set _ _ _ _) = codes "set"
name (get _) = codes "get"
name (rpush _ _) = codes "rpush"
name (lrange _ _ _) = codes "lrange"
name (lpush _ _) = codes "lpush"
name (llen _) = codes "llen"
name (lpop _ _) = codes "lpop"
name (blpop _ _) = codes "blpop"
name (type_of _) = codes "type"
name (xadd _ _ _) = codes "xadd"
name (xrange _ _ _) = codes "xrange"
name (xread _ _ _) = codes "xread"
name (incr _) = codes "incr"
name multi = codes "multi"
name exec = codes "exec"
name discard = codes "discard"
name (watch _) = codes "watch"
name unwatch = codes "unwatch"
name (internal_execute_tx _) = codes "exec"
name (info _) = codes "info"
name (replconf_listening_port _) = codes "replconf"
name (replconf_capa _) = codes "replconf"
name replconf_get_ack = codes "replconf"
name (replconf_ack _) = codes "replconf"
name (psync _ _) = codes "psync"
name (wait _ _) = codes "wait"
name (config_get _) = codes "config|get"
name (keys _) = codes "keys"
name (subscribe _) = codes "subscribe"
name (publish _ _) = codes "publish"
name (unsubscribe _) = codes "unsubscribe"
name (zadd _ _ _) = codes "zadd"
name (zrank _ _) = codes "zrank"
name (zrange _ _ _) = codes "zrange"
name (zcard _) = codes "zcard"
name (zscore _ _) = codes "zscore"
name (zrem _ _) = codes "zrem"
name (geoadd _ _ _ _) = codes "geoadd"
name (geopos _ _) = codes "geopos"
name (geodist _ _ _) = codes "geodist"
name (geosearch _ _ _ _ _) = codes "geosearch"
name acl_whoami = codes "aclwhoami"
name (acl_getuser _) = codes "aclgetuser"
name (acl_setuser _ _) = codes "aclsetuser"
name (auth _ _) = codes "auth"

-- `Command::modified_keys`
unfoldable pub modified_keys : Command → List Key
modified_keys (set key _ _ _) = key ∷ []
modified_keys (lpush key _) = key ∷ []
modified_keys (rpush key _) = key ∷ []
modified_keys (incr key) = key ∷ []
modified_keys (xadd key _ _) = key ∷ []
modified_keys _ = []

-- `u64::MAX` for the timeout 0, which waits for ever.
abbrev forever : ℕ
forever = u64_mod - 1

-- `Command::block_timeout`; `to_millis` is `|timeout| (timeout * 1_000.) as u64` on floats.
unfoldable pub block_timeout : (F64 → ℕ) → Command → Option ℕ
unfolding is_zero
block_timeout to_millis (blpop _ timeout) =
    if is_zero timeout then some forever else some (to_millis timeout)
block_timeout to_millis (xread _ (some ms) _) = if ms == 0 then some forever else some ms
block_timeout to_millis _ = none

-- `Command::is_replicatable`
unfoldable pub is_replicatable : Command → Bool
is_replicatable (set _ _ _ _) = true
is_replicatable replconf_get_ack = true
is_replicatable _ = false
