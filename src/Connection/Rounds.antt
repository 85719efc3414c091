-- ===== src/Connection/Rounds.antt =====
-- src/main.rs, `handle_client`: the bytes of commands in the loop of a connection, against the rounds of
-- its session.
use rust_redis.Prelude.{
  ℕ, suc, ◌+◌, length, arith, ◌≡◌, refl, sym, ap, ◌∙◌, Option, some, List, [], ◌∷◌, ◌++◌,
  append-nil, append_assoc, Bytes, All,
}
use rust_redis.Parser.{ok}
use rust_redis.Resp.{Resp, Resps, nil, cons, elements}
use rust_redis.Resp.Encode.{encode_resp, encode_all}
use rust_redis.Resp.Wire.{IsWire, AllWire}
use rust_redis.Resp.RoundTrip.{parse_resp-encode_all}
use rust_redis.Command.{Command, auth}
use rust_redis.Command.Read.{from_resp}
use rust_redis.Platform.{Platform}
use rust_redis.ClientSets.{ClientId}
use rust_redis.Store.{Channel}
use rust_redis.Client.{
  ClientDispatch, execute, execute_no_reply, reply, start_replica, must_auth, run, Session, settle,
  session_step, session_trace,
}
use rust_redis.Server.{Envelope, with_reply, add_replica}
use rust_redis.Connection.{
  Connection, full_resync, write_resp, dispatch_on, run_command, run_inputs, receive,
}

-- What a dispatch sends to the store, and the values that it writes.
abbrev pub requests_of : ClientId → Channel → ClientDispatch → List Envelope
requests_of client_id channel (execute command) = with_reply client_id command channel ∷ []
requests_of client_id channel (execute_no_reply command) = with_reply client_id command channel ∷ []
requests_of client_id channel (reply resp) = []
requests_of client_id channel (start_replica command) = add_replica client_id channel ∷ []
requests_of client_id channel (must_auth username password) =
    with_reply client_id (auth username password) channel ∷ []

abbrev pub replies_of : ClientDispatch → Resp → Bytes
replies_of (execute command) answer = encode_resp answer
replies_of (execute_no_reply command) answer = []
replies_of (reply resp) answer = encode_resp resp
replies_of (start_replica command) answer = encode_resp full_resync ++ encode_resp answer
replies_of (must_auth username password) answer = encode_resp answer

-- The same of a whole trace, whose first channel has the number `n`.
abbrev pub requests : ClientId → (ℕ → Channel) → ℕ → List (ClientDispatch × Resp) → List Envelope
requests client_id channels n [] = []
requests client_id channels n ((d, answer) ∷ trace) =
    requests_of client_id (channels n) d ++ requests client_id channels (suc n) trace

abbrev pub replies : List (ClientDispatch × Resp) → Bytes
replies [] = []
replies ((d, answer) ∷ trace) = replies_of d answer ++ replies trace

-- The commands of values, each with the answer on its channel.
abbrev pub answered : (ℕ → Resp) → ℕ → List (Command × Resp) → List (Command × Resp)
answered answer n [] = []
answered answer n ((command, _) ∷ inputs) = (command, answer n) ∷ answered answer (suc n) inputs

abbrev pub values : List (Command × Resp) → Resps
values [] = nil
values ((_, value) ∷ inputs) = cons value (values inputs)

-- The value can be sent, and is read as the command.
abbrev pub Reads : Platform → Command × Resp → Type 0
Reads p (command, value) = IsWire value × (from_resp p value ≡ ok (some command))

pub answered-append :
    (answer : ℕ → Resp) (n : ℕ) (xs ys : List (Command × Resp))
    → answered answer n (xs ++ ys) ≡ answered answer n xs ++ answered answer (n + length xs) ys
answered-append answer n [] ys = ap (λ m. answered answer m ys) (omega arith)
answered-append answer n ((c, v) ∷ xs) ys =
    ap (λ r. (c, answer n) ∷ r)
      (answered-append answer (suc n) xs ys
        ∙ ap (λ m. answered answer (suc n) xs ++ answered answer m ys) (omega arith))

pub length-answered :
    (answer : ℕ → Resp) (n : ℕ) (xs : List (Command × Resp))
    → length (answered answer n xs) ≡ length xs
length-answered answer n [] = refl
length-answered answer n ((c, v) ∷ xs) = ap suc (length-answered answer (suc n) xs)

abbrev pub session_after : Session → List (Command × Resp) → Session
unfolding session_step
session_after s [] = s
session_after s ((command, answer) ∷ inputs) =
    session_after (session_step s command answer).0 inputs

same_connection :
    (a b : Connection)
    → a.session ≡ b.session
    → a.round ≡ b.round
    → a.envelopes ≡ b.envelopes
    → a.written ≡ b.written
    → a.is_open ≡ b.is_open
    → a ≡ b
same_connection a b p q r s t =
    λ i. record { session = p i; round = q i; envelopes = r i; written = s i; is_open = t i }

module _ (client_id : ClientId) (channels : ℕ → Channel) where
  abbrev dispatched : Channel → ClientDispatch → Resp → Connection → Connection
  unfolding settle
  dispatched channel d answer self = record self {
    session = record self.session { need_auth = settle d answer self.session.need_auth };
    envelopes = self.envelopes ++ requests_of client_id channel d;
    written = self.written ++ replies_of d answer;
  }

  -- A connection after the rounds of the inputs, each with its answer.
  unfoldable pub after : List (Command × Resp) → Connection → Connection
  unfolding session_trace session_after
  after inputs self = record self {
    session = session_after self.session inputs;
    round = self.round + length inputs;
    envelopes =
        self.envelopes
        ++ requests client_id channels self.round (session_trace self.session inputs);
    written = self.written ++ replies (session_trace self.session inputs);
  }

  abbrev pub after_one : Command → Resp → Connection → Connection
  unfolding session_step
  after_one command answer self =
      let (session, d) = session_step self.session command answer in
      record self {
        session = session;
        round = suc self.round;
        envelopes = self.envelopes ++ requests_of client_id (channels self.round) d;
        written = self.written ++ replies_of d answer;
      }

  pub after-cons :
      (command : Command) (answer : Resp) (inputs : List (Command × Resp)) (self : Connection)
      → after inputs (after_one command answer self) ≡ after ((command, answer) ∷ inputs) self
  unfolding after after_one session_after session_trace session_step
  after-cons command answer inputs self =
      let (s, d) = session_step self.session command answer in
      let trace = session_trace s inputs in
      same_connection _ _ refl (omega arith)
        (append_assoc self.envelopes (requests_of client_id (channels self.round) d)
          (requests client_id channels (suc self.round) trace))
        (append_assoc self.written (replies_of d answer) (replies trace)) refl

  pub after-nil : (self : Connection) → after [] self ≡ self
  unfolding after
  after-nil self =
      same_connection _ _ refl (omega arith) (append-nil self.envelopes) (append-nil self.written)
        refl

module _ (p : Platform) (client_id : ClientId) (channels : ℕ → Channel)
    (answers : Channel → Option Resp) where
  dispatch_on-dispatched :
      (channel : Channel) (d : ClientDispatch) (answer : Resp) (self : Connection)
      → answers channel ≡ some answer
      → dispatch_on p client_id channels answers channel d self
        ≡ ok (dispatched client_id channels channel d answer self)
  unfolding dispatch_on dispatched write_resp settle
  dispatch_on-dispatched channel (execute c) answer self e = rw e refl
  dispatch_on-dispatched channel (execute_no_reply c) answer self e =
      ap ok (same_connection _ _ refl refl refl (sym (append-nil self.written)) refl)
  dispatch_on-dispatched channel (reply resp) answer self e =
      ap ok (same_connection _ _ refl refl (sym (append-nil self.envelopes)) refl refl)
  dispatch_on-dispatched channel (start_replica c) answer self e = rw e (
      ap ok (
        same_connection _ _ refl refl refl
          (append_assoc self.written (encode_resp full_resync) (encode_resp answer)) refl))
  dispatch_on-dispatched channel (must_auth u w) answer self e = rw e refl

  run_command-after_one :
      (command : Command) (answer : Resp) (self : Connection)
      → answers (channels self.round) ≡ some answer
      → run_command p client_id channels answers command self
        ≡ ok (after_one client_id channels command answer self)
  unfolding run_command after_one session_step dispatched
  run_command-after_one command answer self e =
      let (next_mode, d) = run self.session.mode self.session.need_auth command in
      dispatch_on-dispatched (channels self.round) d answer
        (record self { session = record self.session { mode = next_mode }; round = suc self.round })
        e

  run_inputs-after :
      (answer : ℕ → Resp) (inputs : List (Command × Resp)) (self : Connection)
      → ((n : ℕ) → answers (channels n) ≡ some (answer n))
      → All (Reads p) inputs
      → run_inputs p client_id channels answers (elements (values inputs)) self
        ≡ ok (after client_id channels (answered answer self.round inputs) self)
  unfolding run_inputs after
  run_inputs-after answer [] self e r = ap ok (sym (after-nil client_id channels self))
  run_inputs-after answer ((command, value) ∷ inputs) self e ((w, read), r) =
      let one = answer self.round in
      rw (read, run_command-after_one command one self (e self.round))
        (run_inputs-after answer inputs (after_one client_id channels command one self) e r
          ∙ ap ok (
              after-cons client_id channels command one (answered answer (suc self.round) inputs)
                self))

  AllWire-values : (inputs : List (Command × Resp)) → All (Reads p) inputs → AllWire (values inputs)
  unfolding AllWire
  AllWire-values [] r = tt
  AllWire-values ((command, value) ∷ inputs) ((w, read), r) = (w, AllWire-values inputs r)

  pub receive-after :
      (answer : ℕ → Resp) (inputs : List (Command × Resp)) (self : Connection)
      → ((n : ℕ) → answers (channels n) ≡ some (answer n))
      → All (Reads p) inputs
      → receive p client_id channels answers (encode_all (values inputs)) self
        ≡ ok (after client_id channels (answered answer self.round inputs) self)
  unfolding receive
  receive-after answer inputs self e r =
      rw (parse_resp-encode_all (values inputs) (AllWire-values inputs r))
        (run_inputs-after answer inputs self e r)
