-- ===== src/Replica/Examples.antt =====
-- The theorem on a replica's offset at a concrete stream of commands.
use rust_redis.Prelude.{
  ◌%◌, ◌≡◌, refl, Bool, true, not, ◌&&◌, ◌==◌, none, some, List, [], ◌∷◌, Bytes, codes, u64_mod,
  length, All, arith,
}
use rust_redis.Parser.{ok}
use rust_redis.Parser.Slices.{starts_with}
use rust_redis.Parser.Reads.{IsLine}
use rust_redis.Resp.{Resp, array, vec, bulk_string, simple_string, cons, nil}
use rust_redis.Resp.Encode.{encode_resp}
use rust_redis.Resp.RoundTrip.{parse_resp-encode_all}
use rust_redis.Resp.Wire.{IsWire}
use rust_redis.Command.{Command, replconf_get_ack}
use rust_redis.Command.Wire.{to_resp}
use rust_redis.Command.Read.Examples.{
  plain, set_px, set_px_words, set_px-IsSendable, set_px-encoded, set_px-IsWire,
}
use rust_redis.Connection.{full_resync}
use rust_redis.Replica.Offsets.{writes, acks, bytes}
use rust_redis.Replica.Handshake.{read_resp_from_stream, run_replica}
use rust_redis.Replica.Hello.{Written, greeting, read_some}
use rust_redis.Replica.Attach.{packets_read, run_replica-values}

abbrev get_ack_words : Resp
get_ack_words = array (
    vec (
      bulk_string (codes "REPLCONF") ∷ bulk_string (codes "GETACK") ∷ bulk_string (codes "*") ∷ []))

-- A write, the question for the offset, and a write.
abbrev inputs : List (Command × Resp)
inputs = (set_px, set_px_words) ∷ (replconf_get_ack, get_ack_words) ∷ (set_px, set_px_words) ∷ []

abbrev packets : List ((Command × Resp) × List (Command × Resp))
packets = ((replconf_get_ack, get_ack_words), (set_px, set_px_words) ∷ []) ∷ []

inputs-Written : All Written inputs
unfolding to_resp IsWire
inputs-Written = (
  ((set_px-IsSendable, set_px-encoded), set_px-IsWire),
  (
    ((tt, refl), (omega arith, (omega arith, (omega arith, (omega arith, tt))))),
    (((set_px-IsSendable, set_px-encoded), set_px-IsWire), tt),
  ),
)

abbrev has_no_return : Bytes → Bool
has_no_return [] = true
has_no_return (c ∷ s) = not (c == b'\r') && has_no_return s

has_no_return-IsLine : (s : Bytes) → has_no_return s ≡ true → IsLine s
unfolding starts_with
has_no_return-IsLine [] h = tt
has_no_return-IsLine (c ∷ s) h = ground (arith, has_no_return-IsLine s)

full_resync-IsWire : IsWire full_resync
unfolding IsWire
full_resync-IsWire =
    has_no_return-IsLine (codes "FULLRESYNC 8371b4fb1155b71f4a04d3e1bc3e18c4a990aeeb 0") refl

-- The three answers: PONG, an error of the read, and OK.
abbrev pong_read : Bytes
pong_read = codes "+PONG\r\n"

abbrev ok_read : Bytes
ok_read = codes "+OK\r\n"

pong_read_lem :
    read_resp_from_stream (some pong_read) ≡ ok (some (simple_string (codes "PONG") ∷ []))
unfolding encode_resp IsWire
pong_read_lem = read_some pong_read (simple_string (codes "PONG") ∷ []) (omega arith) (
    parse_resp-encode_all (cons (simple_string (codes "PONG")) nil)
      (has_no_return-IsLine (codes "PONG") refl, tt))

ok_read_lem : read_resp_from_stream (some ok_read) ≡ ok (some (simple_string (codes "OK") ∷ []))
unfolding encode_resp IsWire
ok_read_lem = read_some ok_read (simple_string (codes "OK") ∷ []) (omega arith) (
    parse_resp-encode_all (cons (simple_string (codes "OK")) nil)
      (has_no_return-IsLine (codes "OK") refl, tt))

-- The first write comes in the read of the RDB file, the other two inputs in another.
run_replica-values_example :
    run_replica plain 6380 (
      some pong_read
      ∷ none
      ∷ some ok_read
      ∷ some (greeting full_resync (codes "REDIS") ((set_px, set_px_words) ∷ []))
      ∷ packets_read packets)
    ≡ ok (record {
      replicated = writes inputs;
      written = acks 0 inputs;
      ack_bytes = length (bytes inputs) % u64_mod;
    })
run_replica-values_example =
    run_replica-values plain 6380 (some pong_read) none (some ok_read)
      (some (simple_string (codes "PONG") ∷ [])) none (some (simple_string (codes "OK") ∷ []))
      full_resync (codes "REDIS") ((set_px, set_px_words) ∷ []) packets pong_read_lem
      (unfold read_resp_from_stream in refl) ok_read_lem full_resync-IsWire (omega arith)
      inputs-Written
