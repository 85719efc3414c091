-- ===== src/Replica/Hello.antt =====
-- src/main.rs: `replica_server_handshake` with a master that answers.
use rust_redis.Prelude.{
  ℕ, ◌<◌, ◌≡◌, refl, sym, ap, ◌∙◌, Option, none, some, List, [], ◌∷◌, ◌++◌, append_assoc, Bytes,
  arith, u64_mod, length, length-append, le→leb, All, codes,
}
use rust_redis.Prelude.Int.{negsuc}
use rust_redis.Number.{decimal, decimal_i64}
use rust_redis.Parser.{ok}
use rust_redis.Resp.{Resp, Resps, nil, cons, elements, file, array, vec, bulk_string}
use rust_redis.Resp.Encode.{encode_resp, encode_all}
use rust_redis.Resp.Decode.{parse_resp}
use rust_redis.Resp.Wire.{IsWire, AllWire}
use rust_redis.Resp.RoundTrip.{parse_resp-encode_all, encode_resp_pos}
use rust_redis.Resp.Greeting.{parse_resp-file}
use rust_redis.Command.{Command}
use rust_redis.Command.Wire.{to_resp}
use rust_redis.Replica.Offsets.{Sent, bytes, values}
use rust_redis.Replica.Handshake.{
  Read, Stream, read_resp_from_stream, read_answer, write_command, read_queue,
  replica_server_handshake,
}

-- The values of commands that a master writes, which fit the format.
abbrev pub Written : Command × Resp → Type 0
Written (command, value) = Sent (command, value) × IsWire value

abbrev pub resps : List (Command × Resp) → Resps
resps [] = nil
resps ((_, value) ∷ inputs) = cons value (resps inputs)

elements-resps : (inputs : List (Command × Resp)) → elements (resps inputs) ≡ values inputs
elements-resps [] = refl
elements-resps ((_, value) ∷ inputs) = ap (λ r. value ∷ r) (elements-resps inputs)

encode_all-resps : (inputs : List (Command × Resp)) → encode_all (resps inputs) ≡ bytes inputs
unfolding encode_all
encode_all-resps [] = refl
encode_all-resps ((_, value) ∷ inputs) = ap (λ r. encode_resp value ++ r) (encode_all-resps inputs)

AllWire-resps : (inputs : List (Command × Resp)) → All Written inputs → AllWire (resps inputs)
unfolding AllWire
AllWire-resps [] w = tt
AllWire-resps ((command, value) ∷ inputs) ((_, w), ws) = (w, AllWire-resps inputs ws)

parse_resp-bytes :
    (inputs : List (Command × Resp))
    → All Written inputs
    → parse_resp (bytes inputs) ≡ ok (values inputs, [])
parse_resp-bytes inputs w =
    ap parse_resp (sym (encode_all-resps inputs))
    ∙ parse_resp-encode_all (resps inputs) (AllWire-resps inputs w)
    ∙ ap (λ r. ok (r, [])) (elements-resps inputs)

-- What a master writes when a replica attaches, and the commands that follow at once.
abbrev pub greeting : Resp → Bytes → List (Command × Resp) → Bytes
greeting line rdb inputs = encode_resp line ++ (encode_resp (file rdb) ++ bytes inputs)

parse_resp-greeting :
    (line : Resp) (rdb : Bytes) (inputs : List (Command × Resp))
    → IsWire line
    → length rdb < u64_mod
    → All Written inputs
    → parse_resp (greeting line rdb inputs) ≡ ok (line ∷ file rdb ∷ values inputs, [])
parse_resp-greeting line rdb inputs wire l w =
    ap (λ b. parse_resp (encode_resp line ++ (encode_resp (file rdb) ++ b)))
      (sym (encode_all-resps inputs))
    ∙ parse_resp-file line rdb (resps inputs) wire l (AllWire-resps inputs w)
    ∙ ap (λ r. ok (line ∷ file rdb ∷ r, [])) (elements-resps inputs)

-- A read that gives bytes gives the values in them.
pub read_some :
    (b : Bytes) (vs : List Resp)
    → 0 < length b
    → parse_resp b ≡ ok (vs, [])
    → read_resp_from_stream (some b) ≡ ok (some vs)
unfolding read_resp_from_stream
read_some [] vs h e = elim h [ ]
read_some (c ∷ b) vs h e = rw e refl

pub read_bytes :
    (input : Command × Resp) (inputs : List (Command × Resp))
    → All Written (input ∷ inputs)
    → read_resp_from_stream (some (bytes (input ∷ inputs))) ≡ ok (some (values (input ∷ inputs)))
read_bytes input inputs w =
    read_some (bytes (input ∷ inputs)) (values (input ∷ inputs))
      (omega (arith, encode_resp_pos input.1, length-append (encode_resp input.1) (bytes inputs)))
      (parse_resp-bytes (input ∷ inputs) w)

read_greeting :
    (line : Resp) (rdb : Bytes) (inputs : List (Command × Resp))
    → IsWire line
    → length rdb < u64_mod
    → All Written inputs
    → read_resp_from_stream (some (greeting line rdb inputs))
      ≡ ok (some (line ∷ file rdb ∷ values inputs))
read_greeting line rdb inputs wire l w =
    read_some (greeting line rdb inputs) (line ∷ file rdb ∷ values inputs)
      (omega (
        arith,
        encode_resp_pos line,
        length-append (encode_resp line) (encode_resp (file rdb) ++ bytes inputs),
      ))
      (parse_resp-greeting line rdb inputs wire l w)

-- The commands of the handshake, with the values that are sent for them.
abbrev pub ping_input : Command × Resp
ping_input = (Command.ping none, array (vec (bulk_string (codes "PING") ∷ [])))

abbrev pub port_input : ℕ → Command × Resp
port_input port = (
  Command.replconf_listening_port port,
  array (
      vec (
        bulk_string (codes "REPLCONF")
        ∷ bulk_string (codes "listening-port")
        ∷ bulk_string (decimal port)
        ∷ [])),
)

abbrev pub capa_input : Command × Resp
capa_input = (
  Command.replconf_capa (codes "psync2" ∷ []),
  array (
      vec (
        bulk_string (codes "REPLCONF")
        ∷ bulk_string (codes "capa")
        ∷ bulk_string (codes "psync2")
        ∷ [])),
)

abbrev pub psync_input : Command × Resp
psync_input = (
  Command.psync (codes "?") (negsuc 0),
  array
      (vec (bulk_string (codes "PSYNC") ∷ bulk_string (codes "?") ∷ bulk_string (codes "-1") ∷ [])),
)

write_input :
    (command : Command) (value : Resp) (self : Stream)
    → to_resp command ≡ ok (some value)
    → write_command command self ≡ ok (record self { written = self.written ++ encode_resp value })
unfolding write_command
write_input command value self e = rw e refl

answer_read :
    (written : Bytes) (a : Read) (va : Option (List Resp)) (reads : List Read)
    → read_resp_from_stream a ≡ ok va
    → read_answer (record { written = written; reads = a ∷ reads })
      ≡ ok (record { written = written; reads = reads })
unfolding read_answer
answer_read written a va reads e = rw e refl

-- The bytes that the replica writes.
abbrev pub hello : ℕ → Bytes
hello port =
    encode_resp ping_input.1
    ++ (encode_resp (port_input port).1 ++ (encode_resp capa_input.1 ++ encode_resp psync_input.1))

handshake-steps :
    (port : ℕ) (s0 s1 s2 s3 s4 s5 s6 s7 : Stream) (queue : List Resp) (reads : List Read)
    → write_command ping_input.0 s0 ≡ ok s1
    → read_answer s1 ≡ ok s2
    → write_command (port_input port).0 s2 ≡ ok s3
    → read_answer s3 ≡ ok s4
    → write_command capa_input.0 s4 ≡ ok s5
    → read_answer s5 ≡ ok s6
    → write_command psync_input.0 s6 ≡ ok s7
    → read_queue [] s7.reads ≡ ok (queue, reads)
    → replica_server_handshake port s0 ≡ ok (queue, record s7 { reads = reads })
unfolding replica_server_handshake
handshake-steps port s0 s1 s2 s3 s4 s5 s6 s7 queue reads e1 e2 e3 e4 e5 e6 e7 e8 =
    rw (e1, e2, e3, e4, e5, e6, e7, e8) refl

queue-greeting :
    (line : Resp) (rdb : Bytes) (inputs : List (Command × Resp)) (reads : List Read)
    → IsWire line
    → length rdb < u64_mod
    → All Written inputs
    → read_queue [] (some (greeting line rdb inputs) ∷ reads) ≡ ok (values inputs, reads)
unfolding read_queue
queue-greeting line rdb inputs reads wire l w =
    rw
      (
        read_greeting line rdb inputs wire l w,
        le→leb 2 (length (line ∷ file rdb ∷ values inputs)) (omega arith),
      )
      refl

hello-parts :
    (port : ℕ)
    → ((encode_resp ping_input.1 ++ encode_resp (port_input port).1) ++ encode_resp capa_input.1)
        ++ encode_resp psync_input.1
      ≡ hello port
hello-parts port = simp append_assoc

psync-encoded : to_resp psync_input.0 ≡ ok (some psync_input.1)
unfolding to_resp decimal_i64 decimal
psync-encoded = refl

-- What the handshake leaves: the values behind the first two, and the later reads.
pub handshake-greeting :
    (port : ℕ) (a b c : Read) (va vb vc : Option (List Resp)) (line : Resp) (rdb : Bytes)
    (inputs : List (Command × Resp)) (reads : List Read)
    → read_resp_from_stream a ≡ ok va
    → read_resp_from_stream b ≡ ok vb
    → read_resp_from_stream c ≡ ok vc
    → IsWire line
    → length rdb < u64_mod
    → All Written inputs
    → replica_server_handshake port
        (record { written = []; reads = a ∷ b ∷ c ∷ some (greeting line rdb inputs) ∷ reads })
      ≡ ok (values inputs, record { written = hello port; reads = reads })
unfolding to_resp
handshake-greeting port a b c va vb vc line rdb inputs reads ea eb ec wire l w =
    let last = some (greeting line rdb inputs) ∷ reads in
    handshake-steps port _ _ _ _ _ _ _ _ (values inputs) reads
      (write_input ping_input.0 ping_input.1 (record { written = []; reads = a ∷ b ∷ c ∷ last })
        refl)
      (answer_read _ a va (b ∷ c ∷ last) ea)
      (write_input (port_input port).0 (port_input port).1 _ refl)
      (answer_read _ b vb (c ∷ last) eb) (write_input capa_input.0 capa_input.1 _ refl)
      (answer_read _ c vc last ec) (write_input psync_input.0 psync_input.1 _ psync-encoded)
      (queue-greeting line rdb inputs reads wire l w)
    ∙ ap (λ t. ok (values inputs, record { written = t; reads = reads })) (hello-parts port)
