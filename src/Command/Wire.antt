-- ===== src/Command/Wire.antt =====
-- src/command.rs: `Command::to_resp`. `Key::to_str` unwraps `from_utf8`, so it can panic.
use rust_redis.Prelude.{ℕ, Option, none, some, List, [], ◌∷◌, ◌++◌, Bytes, codes}
use rust_redis.Number.{decimal, decimal_i64}
use rust_redis.Utf8.{from_utf8}
use rust_redis.Parser.{Outcome, ok, panic, ◌>>=◌}
use rust_redis.Resp.{Resp, bulk_string, array, vec}
use rust_redis.Command.{
  Command, Key, set, replconf_get_ack, replconf_listening_port, replconf_capa, psync, ping,
}

abbrev unwrap : Option Bytes → Outcome Bytes
unwrap (some s) = ok s
unwrap none = panic

-- `types.rs`: `Key::to_str`
unfoldable pub to_str : Key → Outcome Bytes
unfolding from_utf8
to_str key = unwrap (from_utf8 key)

-- `if let Some(ex) = ex { push("EX"); push(ex) }`
abbrev option_part : Bytes → Option ℕ → List Resp
option_part word none = []
option_part word (some n) = bulk_string word ∷ bulk_string (decimal n) ∷ []

abbrev pub bulks : List Bytes → List Resp
bulks [] = []
bulks (c ∷ cs) = bulk_string c ∷ bulks cs

abbrev message_part : Option Bytes → List Resp
message_part none = []
message_part (some msg) = bulk_string msg ∷ []

unfoldable pub to_resp : Command → Outcome (Option Resp)
unfolding to_str
to_resp (set key value ex px) = do
  k ← to_str key
  ok (
      some (
        array (
          vec (
            bulk_string (codes "SET")
            ∷ bulk_string k
            ∷ bulk_string value
            ∷ (option_part (codes "EX") ex ++ option_part (codes "PX") px)))))
to_resp replconf_get_ack = ok (
    some (
      array (
        vec (
          bulk_string (codes "REPLCONF")
          ∷ bulk_string (codes "GETACK")
          ∷ bulk_string (codes "*")
          ∷ []))))
to_resp (replconf_listening_port port) = ok (
    some (
      array (
        vec (
          bulk_string (codes "REPLCONF")
          ∷ bulk_string (codes "listening-port")
          ∷ bulk_string (decimal port)
          ∷ []))))
to_resp (replconf_capa capabilites) = ok (
    some (
      array
        (vec (bulk_string (codes "REPLCONF") ∷ bulk_string (codes "capa") ∷ bulks capabilites))))
to_resp (psync replication_id offset) = ok (
    some (
      array (
        vec (
          bulk_string (codes "PSYNC")
          ∷ bulk_string replication_id
          ∷ bulk_string (decimal_i64 offset)
          ∷ []))))
to_resp (ping message) = ok (some (array (vec (bulk_string (codes "PING") ∷ message_part message))))
to_resp _ = ok none
