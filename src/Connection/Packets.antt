-- ===== src/Connection/Packets.antt =====
-- src/main.rs, `handle_client`: the rounds of a session, however its bytes are split into reads.
use rust_redis.Prelude.{
  ℕ, ◌+◌, ◌<◌, length, length-append, arith, ◌≡◌, refl, sym, ap, ◌∙◌, Option, some, List, [], ◌∷◌,
  ◌++◌, Bytes, All, All-parts,
}
use rust_redis.Parser.{ok, ◌>>=◌}
use rust_redis.Resp.{Resp, Resps, cons}
use rust_redis.Resp.Encode.{encode_resp, encode_all}
use rust_redis.Resp.RoundTrip.{encode_resp_pos}
use rust_redis.Command.{Command}
use rust_redis.Platform.{Platform}
use rust_redis.ClientSets.{ClientId}
use rust_redis.Store.{Channel}
use rust_redis.Connection.{Connection, Event, bytes_read, handle_client, receive}
use rust_redis.Connection.Rounds.{
  values, answered, answered-append, length-answered, Reads, after, after_one, after-nil,
  after-cons, receive-after,
}

encode_all_pos : (el : Resp) (els : Resps) → 0 < length (encode_all (cons el els))
unfolding encode_all
encode_all_pos el els =
    omega (arith, encode_resp_pos el, length-append (encode_resp el) (encode_all els))

-- The reads of a stream on which each packet holds whole values, at least one.
abbrev pub packets_read : List ((Command × Resp) × List (Command × Resp)) → List Event
packets_read [] = []
packets_read ((input, inputs) ∷ packets) =
    bytes_read (encode_all (values (input ∷ inputs))) ∷ packets_read packets

abbrev pub inputs_of : List ((Command × Resp) × List (Command × Resp)) → List (Command × Resp)
inputs_of [] = []
inputs_of ((input, inputs) ∷ packets) = (input ∷ inputs) ++ inputs_of packets

module _ (client_id : ClientId) (channels : ℕ → Channel) where
  after-append :
      (xs ys : List (Command × Resp)) (self : Connection)
      → after client_id channels ys (after client_id channels xs self)
        ≡ after client_id channels (xs ++ ys) self
  unfolding after
  after-append [] ys self = ap (after client_id channels ys) (after-nil client_id channels self)
  after-append ((command, answer) ∷ xs) ys self =
      ap (after client_id channels ys) (sym (after-cons client_id channels command answer xs self))
      ∙ after-append xs ys (after_one client_id channels command answer self)
      ∙ after-cons client_id channels command answer (xs ++ ys) self

module _ (p : Platform) (client_id : ClientId) (channels : ℕ → Channel)
    (answers : Channel → Option Resp) where
  handle_client-read :
      (bytes : Bytes) (events : List Event) (self : Connection)
      → 0 < length bytes
      → handle_client p client_id channels answers (bytes_read bytes ∷ events) self ≡ (
          receive p client_id channels answers bytes self
          >>= handle_client p client_id channels answers events)
  unfolding handle_client
  handle_client-read [] events self h = elim h [ ]
  handle_client-read (b ∷ bytes) events self h = refl

  -- A connection that reads values which stand for commands goes through the rounds of its session
  -- with these commands, all of them and in order, however they are split into reads of whole values:
  -- the envelopes that it sends and the bytes that it writes are those of the session's trace, one
  -- channel for each command. The values fit the format, and something comes on every channel.
  pub handle_client-session_trace :
      (answer : ℕ → Resp) (packets : List ((Command × Resp) × List (Command × Resp)))
      (self : Connection)
      → ((n : ℕ) → answers (channels n) ≡ some (answer n))
      → All (Reads p) (inputs_of packets)
      → handle_client p client_id channels answers (packets_read packets) self
        ≡ ok (after client_id channels (answered answer self.round (inputs_of packets)) self)
  unfolding handle_client after
  handle_client-session_trace answer [] self e r = ap ok (sym (after-nil client_id channels self))
  handle_client-session_trace answer ((input, inputs) ∷ packets) self e r =
      let (here, more) = All-parts (Reads p) (input ∷ inputs) (inputs_of packets) r in
      let rounds = answered answer self.round (input ∷ inputs) in
      handle_client-read (encode_all (values (input ∷ inputs))) (packets_read packets) self
        (encode_all_pos input.1 (values inputs))
      ∙ rw (receive-after p client_id channels answers answer (input ∷ inputs) self e here)
          (handle_client-session_trace answer packets (after client_id channels rounds self) e more)
      ∙ ap ok (
          ap
            (λ n.
              after client_id channels (answered answer n (inputs_of packets))
                (after client_id channels rounds self))
            (ap (λ n. self.round + n) (length-answered answer self.round (input ∷ inputs)))
          ∙ after-append client_id channels rounds
              (answered answer (self.round + length (input ∷ inputs)) (inputs_of packets)) self
          ∙ ap (λ xs. after client_id channels xs self)
              (sym (answered-append answer self.round (input ∷ inputs) (inputs_of packets))))
