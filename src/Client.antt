-- ===== src/Client.antt =====
-- src/client.rs: how a connection routes a command, in its three modes, and the part of
-- `handle_client` (src/main.rs) that carries the mode and the authentication flag from command to
-- command.
pub mod Gate
pub mod Transactions
pub mod Examples
use rust_redis.Prelude.{Bool, true, false, Option, none, some, List, [], ◌∷◌, ◌++◌, Bytes, codes}
use rust_redis.Resp.{Resp, simple_string, bulk_string, simple_error, array, vec}
use rust_redis.Command
use rust_redis.Command.{
  Command, commands, name, echo, ping, multi, exec, discard, watch, internal_execute_tx,
  replconf_listening_port, replconf_capa, psync, replconf_ack, subscribe, publish, unsubscribe,
  auth,
}

pub data ClientDispatch : Type 0 where
  execute : Command → ClientDispatch
  execute_no_reply : Command → ClientDispatch
  reply : Resp → ClientDispatch
  start_replica : Command → ClientDispatch
  must_auth : Bytes → Bytes → ClientDispatch

pub data ClientRunMode : Type 0 where
  normal : ClientRunMode
  transaction : List Command → ClientRunMode
  subscription : ClientRunMode

-- The early returns of `run`.
unfoldable pub auth_gate : Bool → Command → Option ClientDispatch
auth_gate true (auth username password) = some (must_auth username password)
auth_gate true _ = some (reply (simple_error (codes "NOAUTH Authentication required.")))
auth_gate false _ = none

abbrev pub ok_reply : ClientDispatch
ok_reply = reply (simple_string (codes "OK"))

abbrev pong : Option Bytes → Resp
pong (some message) = bulk_string message
pong none = simple_string (codes "PONG")

unfoldable pub run_normal : Command → ClientRunMode × ClientDispatch
run_normal (replconf_listening_port _) = (normal, ok_reply)
run_normal (replconf_capa _) = (normal, ok_reply)
run_normal (psync r o) = (normal, start_replica (psync r o))
run_normal (echo message) = (normal, reply (bulk_string message))
run_normal (ping message) = (normal, reply (pong message))
run_normal multi = (transaction [], ok_reply)
run_normal exec = (normal, reply (simple_error (codes "ERR EXEC without MULTI")))
run_normal discard = (normal, reply (simple_error (codes "ERR DISCARD without MULTI")))
run_normal (replconf_ack a) = (normal, execute_no_reply (replconf_ack a))
run_normal (subscribe channels) = (subscription, execute (subscribe channels))
run_normal command = (normal, execute command)

unfoldable pub run_transaction : List Command → Command → ClientRunMode × ClientDispatch
run_transaction queue discard = (normal, execute discard)
run_transaction queue (watch _) =
    (transaction queue, reply (simple_error (codes "ERR WATCH inside MULTI is not allowed")))
run_transaction queue exec = (normal, execute (internal_execute_tx (commands queue)))
run_transaction queue command =
    (transaction (queue ++ command ∷ []), reply (simple_string (codes "QUEUED")))

unfoldable pub run_subscription : Command → ClientRunMode × ClientDispatch
unfolding name
run_subscription (ping _) =
    (subscription, reply (array (vec (bulk_string (codes "pong") ∷ bulk_string [] ∷ []))))
run_subscription (publish c m) = (subscription, execute (publish c m))
run_subscription (subscribe cs) = (subscription, execute (subscribe cs))
run_subscription (unsubscribe cs) = (subscription, execute (unsubscribe cs))
run_subscription command = (
  subscription,
  reply (
      simple_error (
        codes "ERR Can't execute '"
        ++ name command
        ++ codes
            "': only (P|S)SUBSCRIBE / (P|S)UNSUBSCRIBE / PING / QUIT / RESET are allowed in this context")),
)

abbrev route : ClientRunMode → Command → ClientRunMode × ClientDispatch
unfolding run_normal run_transaction run_subscription
route normal command = run_normal command
route (transaction queue) command = run_transaction queue command
route subscription command = run_subscription command

-- `ClientRunMode::run`
unfoldable pub run : ClientRunMode → Bool → Command → ClientRunMode × ClientDispatch
unfolding auth_gate route
run mode need_auth command = elim (auth_gate need_auth command) [
  | some dispatch ↦ (normal, dispatch)
  | none ↦ route mode command
]

-- What `handle_client` keeps between commands.
pub record Session : Type 0 where
  pub mode : ClientRunMode
  pub need_auth : Bool

-- `if let Resp::SimpleString(_) = &resp { need_auth = false; }`
abbrev pub still_needed : Resp → Bool → Bool
still_needed (simple_string _) need_auth = false
still_needed _ need_auth = need_auth

-- Only the answer to `MustAuth` changes the flag.
unfoldable pub settle : ClientDispatch → Resp → Bool → Bool
settle (must_auth _ _) answer need_auth = still_needed answer need_auth
settle _ answer need_auth = need_auth

-- One round of `for input in inputs`: the command, with the reply that the store gives if it is
-- asked. The dispatch tells what the round sends.
unfoldable pub session_step : Session → Command → Resp → Session × ClientDispatch
session_step s command answer =
    let (next_mode, dispatch) = run s.mode s.need_auth command in
    (record { mode = next_mode; need_auth = settle dispatch answer s.need_auth }, dispatch)

-- The dispatches of a session, each with the store's answer.
unfoldable pub session_trace : Session → List (Command × Resp) → List (ClientDispatch × Resp)
unfolding session_step
session_trace s [] = []
session_trace s ((command, answer) ∷ inputs) =
    let (s', dispatch) = session_step s command answer in
    (dispatch, answer) ∷ session_trace s' inputs
