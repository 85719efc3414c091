-- ===== src/Connection.antt =====
-- src/main.rs: `handle_client`, the task of one connection. What it sends to the store's queue and what
-- it writes to its stream are kept in order. The `oneshot` channel of the n-th command is
-- `channels n`, and what comes on a channel is a parameter, `none` if its sender is dropped. A write
-- to the stream takes all its bytes.
pub mod Rounds
pub mod Packets
pub mod Transactions
pub mod Examples
use rust_redis.Prelude.{
  ℕ, suc, Bool, true, false, Option, none, some, List, [], ◌∷◌, ◌++◌, Bytes, codes,
}
use rust_redis.Parser.{Outcome, ok, ◌>>=◌}
use rust_redis.Resp.{Resp, simple_string}
use rust_redis.Resp.Encode.{encode_resp}
use rust_redis.Resp.Decode.{parse_resp}
use rust_redis.Command.{Command, auth}
use rust_redis.Command.Read.{from_resp}
use rust_redis.Command.Read.Args.{unwrap}
use rust_redis.Command.Wire.{to_resp}
use rust_redis.Platform.{Platform}
use rust_redis.Rdb.{unwrapped}
use rust_redis.ClientSets.{ClientId}
use rust_redis.Store.{Channel, StorePush}
use rust_redis.Client.{
  ClientDispatch, execute, execute_no_reply, reply, start_replica, must_auth, ClientRunMode, normal,
  run, Session, still_needed,
}
use rust_redis.Server.{Envelope, with_reply, add_replica, register_client, unregister_client}

-- What `select!` gives: a read of bytes, of which none is the end of the stream; an error of the read;
-- what the store pushes, or the end of its channel.
pub data Event : Type 0 where
  bytes_read : Bytes → Event
  read_error : Event
  store_push : Option StorePush → Event

-- `round` counts the commands.
pub record Connection : Type 0 where
  pub session : Session
  pub round : ℕ
  pub envelopes : List Envelope
  pub written : Bytes
  pub is_open : Bool

abbrev pub send : Envelope → Connection → Connection
send envelope self = record self { envelopes = self.envelopes ++ envelope ∷ [] }

-- `write_resp`
unfoldable pub write_resp : Resp → Connection → Connection
write_resp resp self = record self { written = self.written ++ encode_resp resp }

-- `write_command_to_stream`
unfoldable pub write_command_to_stream : Command → Connection → Outcome Connection
unfolding write_resp
write_command_to_stream command self = do
  r ← to_resp command
  resp ← unwrap r
  ok (write_resp resp self)

-- `store_push.unwrap()` and what follows
unfoldable pub push : Option StorePush → Connection → Outcome Connection
unfolding write_command_to_stream
push none self = unwrap none
push (some (StorePush.replicate command)) self = write_command_to_stream command self
push (some (StorePush.message resp)) self = ok (write_resp resp self)

abbrev pub full_resync : Resp
full_resync = simple_string (codes "FULLRESYNC 8371b4fb1155b71f4a04d3e1bc3e18c4a990aeeb 0")

abbrev authenticated : Resp → Connection → Connection
authenticated resp self = record self {
  session = record self.session { need_auth = still_needed resp self.session.need_auth };
}

-- `RegisterClient`, and the answer whether the client must authenticate.
unfoldable pub connect : ClientId → Channel → Option Bool → Outcome Connection
connect client_id tx answer = do
  need_auth ← unwrap answer
  ok (record {
    session = record { mode = normal; need_auth = need_auth };
    round = 0;
    envelopes = register_client client_id tx ∷ [];
    written = [];
    is_open = true;
  })

module _ (p : Platform) (client_id : ClientId) (channels : ℕ → Channel)
    (answers : Channel → Option Resp) where
  -- `match dispatch`, on the channel of this command.
  unfoldable pub dispatch_on : Channel → ClientDispatch → Connection → Outcome Connection
  unfolding write_resp
  dispatch_on channel (execute command) self = do
    resp ← unwrap (answers channel)
    ok (write_resp resp (send (with_reply client_id command channel) self))
  dispatch_on channel (execute_no_reply command) self =
      ok (send (with_reply client_id command channel) self)
  dispatch_on channel (reply resp) self = ok (write_resp resp self)
  dispatch_on channel (start_replica command) self = do
    rdb ← unwrap (answers channel)
    ok (write_resp rdb (write_resp full_resync (send (add_replica client_id channel) self)))
  dispatch_on channel (must_auth username password) self = do
    resp ← unwrap (answers channel)
    ok (
        write_resp resp
          (authenticated resp (send (with_reply client_id (auth username password) channel) self)))

  -- `mode.run(need_auth, command)`, `mode = next_mode` and `match dispatch`
  unfoldable pub run_command : Command → Connection → Outcome Connection
  unfolding dispatch_on run
  run_command command self =
      let (next_mode, dispatch) = run self.session.mode self.session.need_auth command in
      dispatch_on (channels self.round) dispatch
        (record self { session = record self.session { mode = next_mode }; round = suc self.round })

  -- `for input in inputs`
  unfoldable pub run_inputs : List Resp → Connection → Outcome Connection
  unfolding run_command
  run_inputs [] self = ok self
  run_inputs (input ∷ inputs) self = do
    read ← from_resp p input
    command ← unwrap read
    self' ← run_command command self
    run_inputs inputs self'

  unfoldable pub receive : Bytes → Connection → Outcome Connection
  unfolding run_inputs
  receive buffer self = do (inputs, _) ← unwrapped (parse_resp buffer); run_inputs inputs self

  -- What follows the loop.
  unfoldable pub disconnect : Connection → Connection
  disconnect self = record (send (unregister_client client_id) self) { is_open = false }

  -- `loop { select! { … } }`, over the events that come.
  unfoldable pub handle_client : List Event → Connection → Outcome Connection
  unfolding receive disconnect push
  handle_client [] self = ok self
  handle_client (bytes_read [] ∷ events) self = ok (disconnect self)
  handle_client (bytes_read (b ∷ bytes) ∷ events) self = do
    self' ← receive (b ∷ bytes) self
    handle_client events self'
  handle_client (read_error ∷ events) self = handle_client events self
  handle_client (store_push e ∷ events) self = do self' ← push e self; handle_client events self'
