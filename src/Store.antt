-- ===== src/Store.antt =====
-- src/main.rs: the store, which one task owns and every command goes through. Each handler takes
-- the store and returns the new one with its result. The clock is an argument, in milliseconds.
-- A `oneshot::Sender` is a number that names the request it answers; what is sent on channels is
-- kept in `sent`, in order. Arithmetic on machine words wraps, as in the release build.
pub mod Strings
pub mod Lists
pub mod Streams
pub mod Watches
pub mod Zsets
pub mod Channels
pub mod Users
pub mod Replicas
pub mod Settings
pub mod Execute
pub mod Saved
pub mod Examples
use rust_redis.Prelude.{
  ℕ, suc, ◌+◌, Bool, true, false, not, Option, none, some, List, [], ◌∷◌, ◌++◌, Bytes, codes, ◌==◌,
  if◌then◌else◌,
}
use rust_redis.Prelude.Keys.{Dict, bytes_keys, lookup, insert}
use rust_redis.Resp.{Resp}
use rust_redis.Command.{Key, Command}
use rust_redis.SortedSets.{SortedSets}
use rust_redis.ClientSets.{ClientId}
use rust_redis.PubSub.{PubSub}

-- `types.rs`: milliseconds and sequence number.
abbrev pub StreamKey : Type 0
StreamKey = ℕ × ℕ

-- A `BTreeMap` as the list of its entries, by rising key.
abbrev pub RedisStream : Type 0
RedisStream = List (StreamKey × List Bytes)

pub data PrimitiveValue : Type 0 where
  str : Bytes → PrimitiveValue
  list : List Bytes → PrimitiveValue
  stream : RedisStream → PrimitiveValue

pub record Value : Type 0 where
  pub value : PrimitiveValue
  pub expire_ms : Option ℕ

abbrev pub WaiterId : Type 0
WaiterId = ℕ

abbrev pub Channel : Type 0
Channel = ℕ

pub data TryExecuteResult : Type 0 where
  done : Resp → TryExecuteResult
  blocking_xread : WaiterId → List Key → List StreamKey → TryExecuteResult
  blocking_blpop : WaiterId → List Key → TryExecuteResult
  wait_command : WaiterId → ℕ → ℕ → TryExecuteResult
  nothing : TryExecuteResult

-- What the store sends to connected clients: commands to replicas, messages to subscribers.
pub data StorePush : Type 0 where
  replicate : Command → StorePush
  message : Resp → StorePush

pub record Config : Type 0 where
  pub port : ℕ
  pub replicaof : Option Bytes
  pub dir : Bytes
  pub dbfilename : Option Bytes
  pub appendonly : Bytes
  pub appenddirname : Bytes
  pub appendfilename : Bytes
  pub appendfsync : Bytes

-- A client of the table `clients` is whether it is a replica; what is sent on the channel that it is
-- registered with is kept in `pushed`, in order.
pub record Store : Type 0 where
  pub is_replica : Bool
  pub clients : Dict ClientId Bool
  pub entries : Dict Key Value
  pub waiter_id : WaiterId
  pub watched_keys : Dict Key (List ClientId)
  pub stream_xread_waiters : Dict WaiterId (Channel × List Key × List StreamKey)
  pub list_blpop_waiters : Dict WaiterId (Channel × List Key)
  pub wait_waiters : Dict WaiterId (Channel × ℕ × ℕ)
  pub master_ack : ℕ
  pub replica_acks : Dict ClientId ℕ
  pub pending_write_commands_for_wait : Bool
  pub config : Config
  pub pubsub : PubSub
  pub sorted_sets : SortedSets
  pub users : Dict Bytes (List Bytes)
  pub pushed : List (ClientId × StorePush)
  pub sent : List (Channel × Resp)

-- The store that `Store::new` and `Store::from_rdb` make, with its data.
abbrev pub with_data : Bool → Config → Dict Key Value → Store
with_data is_replica config entries = record {
  is_replica = is_replica;
  clients = [];
  entries = entries;
  waiter_id = 0;
  watched_keys = [];
  stream_xread_waiters = [];
  list_blpop_waiters = [];
  wait_waiters = [];
  master_ack = 0;
  replica_acks = [];
  pending_write_commands_for_wait = false;
  config = config;
  pubsub = [];
  sorted_sets = [];
  users = (codes "default", []) ∷ [];
  pushed = [];
  sent = [];
}

-- The configuration without arguments, in the directory /data.
abbrev pub default_config : Config
default_config = record {
  port = 6379;
  replicaof = none;
  dir = codes "/data";
  dbfilename = none;
  appendonly = codes "no";
  appenddirname = codes "appendonlydir";
  appendfilename = codes "appendonly.aof";
  appendfsync = codes "everysec";
}

abbrev pub empty : Bool → Store
empty is_replica = with_data is_replica default_config []

abbrev pub with_entries : Store → Dict Key Value → Store
with_entries self m = record self { entries = m }

-- `list_of`, `stream_of`: what the patterns `PrimitiveValue::List` and `PrimitiveValue::Stream`
-- take out of `self.data.get(key)`.
abbrev list_in : Option Value → Option (List Bytes)
list_in none = none
list_in (some v) = elim v.value [ list l ↦ some l | str s ↦ none | stream s ↦ none ]

abbrev stream_in : Option Value → Option RedisStream
stream_in none = none
stream_in (some v) = elim v.value [ stream s ↦ some s | str s ↦ none | list l ↦ none ]

abbrev str_in : Option Value → Option Bytes
str_in none = none
str_in (some v) = elim v.value [ str s ↦ some s | list l ↦ none | stream s ↦ none ]

unfoldable pub list_at : Key → Store → Option (List Bytes)
list_at key self = list_in (lookup key self.entries)

unfoldable pub stream_at : Key → Store → Option RedisStream
stream_at key self = stream_in (lookup key self.entries)

unfoldable pub str_at : Key → Store → Option Bytes
str_at key self = str_in (lookup key self.entries)

-- An update through `get_mut` keeps the expiration.
abbrev expire_in : Option Value → Option ℕ
expire_in none = none
expire_in (some v) = v.expire_ms

unfoldable pub expire_at : Key → Store → Option ℕ
expire_at key self = expire_in (lookup key self.entries)

-- The handlers that change one entry of the table write it so.
unfoldable pub put : Key → PrimitiveValue → Option ℕ → Store → Store
put key value expire_ms self =
    with_entries self (insert key (record { value = value; expire_ms = expire_ms }) self.entries)
