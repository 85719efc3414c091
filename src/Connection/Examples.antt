-- ===== src/Connection/Examples.antt =====
-- The theorems on connections at concrete bytes.
use rust_redis.Prelude.{
  ℕ, suc, ◌+◌, ◌≡◌, refl, false, true, Option, none, some, List, [], ◌∷◌, ◌++◌, Bytes, codes, All,
  arith,
}
use rust_redis.Parser.{ok}
use rust_redis.Resp.{Resp, array, vec, bulk_string, simple_string}
use rust_redis.Resp.Encode.{encode_resp, encode_all}
use rust_redis.Resp.Wire.{IsWire}
use rust_redis.Command.{Command, commands, multi, exec, internal_execute_tx}
use rust_redis.Prelude.Keys.{bytes_eq}
use rust_redis.Command.Read.{from_resp, named}
use rust_redis.Command.Read.Args.{text, ascii_upper}
use rust_redis.Command.Read.Basic.{basic_command}
use rust_redis.Command.Read.Data.{data_command}
use rust_redis.Command.Read.Server.{server_command}
use rust_redis.Command.Read.Examples.{plain}
use rust_redis.Store.{Channel}
use rust_redis.Client.{normal}
use rust_redis.Client.Transactions.{commands_of, in_mode}
use rust_redis.Server.{with_reply, register_client, unregister_client}
use rust_redis.Connection.{Connection, bytes_read, connect, receive, handle_client}
use rust_redis.Connection.Rounds.{values, answered, Reads, after}
use rust_redis.Connection.Packets.{packets_read, handle_client-session_trace}
use rust_redis.Connection.Transactions.{transaction_inputs, queued_bytes, receive-multi_exec}

abbrev word : Bytes → Resp
word w = array (vec (bulk_string w ∷ []))

abbrev get_words : Resp
get_words = array (vec (bulk_string (codes "GET") ∷ bulk_string (codes "k") ∷ []))

abbrev inputs : List (Command × Resp)
inputs = (Command.ping none, word (codes "PING")) ∷ (Command.get (codes "k"), get_words) ∷ []

abbrev all_inputs : List (Command × Resp)
all_inputs = transaction_inputs (word (codes "MULTI")) inputs (word (codes "EXEC"))

-- The channels are numbered from 100 on.
abbrev channels : ℕ → Channel
channels n = 100 + n

abbrev answer : ℕ → Resp
answer n = simple_string (codes "done")

abbrev answers : Channel → Option Resp
answers channel = some (simple_string (codes "done"))

abbrev connected : Connection
connected = record {
  session = in_mode normal;
  round = 0;
  envelopes = register_client 4 50 ∷ [];
  written = [];
  is_open = true;
}

connected_lem : connect 4 50 (some false) ≡ ok connected
unfolding connect
connected_lem = refl

all_inputs-Reads : All (Reads plain) all_inputs
unfolding from_resp named text ascii_upper basic_command data_command server_command bytes_eq IsWire
all_inputs-Reads = (
  ((omega arith, (omega arith, tt)), refl),
  (
    ((omega arith, (omega arith, tt)), refl),
    (
      ((omega arith, (omega arith, (omega arith, tt))), refl),
      (((omega arith, (omega arith, tt)), refl), tt),
    ),
  ),
)

-- MULTI and PING in one read, GET and EXEC in another.
abbrev packets : List ((Command × Resp) × List (Command × Resp))
packets =
    ((multi, word (codes "MULTI")), (Command.ping none, word (codes "PING")) ∷ [])
    ∷ ((Command.get (codes "k"), get_words), (exec, word (codes "EXEC")) ∷ [])
    ∷ []

handle_client-session_trace_example :
    handle_client plain 4 channels answers (packets_read packets) connected
    ≡ ok (after 4 channels (answered answer 0 all_inputs) connected)
handle_client-session_trace_example =
    handle_client-session_trace plain 4 channels answers answer packets connected (λ n. refl)
      all_inputs-Reads

receive-multi_exec_example :
    (self' : Connection) × (receive plain 4 channels answers
        (encode_all (values all_inputs))
        connected
      ≡ ok self')
    × (self'.envelopes
        ≡ register_client 4 50
          ∷ with_reply 4
              (internal_execute_tx (commands (commands_of inputs)))
              (channels (suc 0 + 2))
          ∷ [])
    × (self'.written
        ≡ []
          ++ (encode_resp (simple_string (codes "OK"))
              ++ (queued_bytes inputs ++ encode_resp (answer (suc 0 + 2)))))
receive-multi_exec_example =
    receive-multi_exec plain 4 channels answers answer (word (codes "MULTI")) (word (codes "EXEC"))
      inputs connected refl (λ n. refl) all_inputs-Reads (tt, (tt, tt))

-- A client that closes its connection at once.
closed :
    handle_client plain 4 channels answers (bytes_read [] ∷ bytes_read (b'*' ∷ []) ∷ []) connected
    ≡ ok (record connected {
      envelopes = register_client 4 50 ∷ unregister_client 4 ∷ [];
      is_open = false;
    })
unfolding handle_client
closed = refl
