-- ===== src/Connection/Transactions.antt =====
-- src/main.rs, `handle_client`: a transaction from the bytes that a connection reads to the envelope that
-- it sends to the store.
use rust_redis.Prelude.{
  ℕ, suc, ◌+◌, length, arith, ◌≡◌, refl, sym, ap, ◌∙◌, Option, some, List, [], ◌∷◌, ◌++◌,
  append_assoc, append-nil, Bytes, All, codes,
}
use rust_redis.Parser.{ok}
use rust_redis.Resp.{Resp, simple_string}
use rust_redis.Resp.Encode.{encode_resp, encode_all}
use rust_redis.Command.{Command, commands, multi, exec, internal_execute_tx}
use rust_redis.Platform.{Platform}
use rust_redis.ClientSets.{ClientId}
use rust_redis.Store.{Channel}
use rust_redis.Client.{ClientDispatch, ok_reply, execute, normal, session_trace}
use rust_redis.Client.Transactions.{
  AllQueued, commands_of, queued_replies, in_mode, session_trace-multi_exec,
}
use rust_redis.Server.{with_reply}
use rust_redis.Connection.{Connection, receive}
use rust_redis.Connection.Rounds.{
  requests, replies, answered, answered-append, values, Reads, after, receive-after,
}

-- MULTI, commands, and EXEC, each with the value that is sent for it.
abbrev pub transaction_inputs : Resp → List (Command × Resp) → Resp → List (Command × Resp)
transaction_inputs multi_value inputs exec_value =
    (multi, multi_value) ∷ (inputs ++ ((exec, exec_value) ∷ []))

-- `QUEUED`, once for each command.
abbrev pub queued_bytes : List (Command × Resp) → Bytes
queued_bytes [] = []
queued_bytes (_ ∷ inputs) = encode_resp (simple_string (codes "QUEUED")) ++ queued_bytes inputs

commands_of-answered :
    (answer : ℕ → Resp) (n : ℕ) (xs : List (Command × Resp))
    → commands_of (answered answer n xs) ≡ commands_of xs
commands_of-answered answer n [] = refl
commands_of-answered answer n ((c, v) ∷ xs) =
    ap (λ r. c ∷ r) (commands_of-answered answer (suc n) xs)

AllQueued-answered :
    (answer : ℕ → Resp) (n : ℕ) (xs : List (Command × Resp))
    → AllQueued xs
    → AllQueued (answered answer n xs)
AllQueued-answered answer n [] q = tt
AllQueued-answered answer n ((c, v) ∷ xs) (q, qs) = (q, AllQueued-answered answer (suc n) xs qs)

requests-queued :
    (client_id : ClientId) (channels : ℕ → Channel) (answer : ℕ → Resp) (n m : ℕ)
    (xs : List (Command × Resp)) (trace : List (ClientDispatch × Resp))
    → requests client_id channels n (queued_replies (answered answer m xs) ++ trace)
      ≡ requests client_id channels (n + length xs) trace
requests-queued client_id channels answer n m [] trace =
    ap (λ k. requests client_id channels k trace) (omega arith)
requests-queued client_id channels answer n m (x ∷ xs) trace =
    requests-queued client_id channels answer (suc n) (suc m) xs trace
    ∙ ap (λ k. requests client_id channels k trace) (omega arith)

replies-queued :
    (answer : ℕ → Resp) (m : ℕ) (xs : List (Command × Resp)) (trace : List (ClientDispatch × Resp))
    → replies (queued_replies (answered answer m xs) ++ trace) ≡ queued_bytes xs ++ replies trace
replies-queued answer m [] trace = refl
replies-queued answer m (x ∷ xs) trace =
    ap (λ r. encode_resp (simple_string (codes "QUEUED")) ++ r)
      (replies-queued answer (suc m) xs trace)
    ∙ sym (
        append_assoc (encode_resp (simple_string (codes "QUEUED"))) (queued_bytes xs)
          (replies trace))

abbrev traced : (ℕ → Resp) → ℕ → List (Command × Resp) → List (ClientDispatch × Resp)
traced answer n inputs =
    (ok_reply, answer n)
    ∷ (queued_replies (answered answer (suc n) inputs)
        ++ ((
          execute (internal_execute_tx (commands (commands_of inputs))),
          answer (suc n + length inputs),
        )
            ∷ []))

session_trace-answered :
    (answer : ℕ → Resp) (n : ℕ) (multi_value exec_value : Resp) (inputs : List (Command × Resp))
    → AllQueued inputs
    → session_trace
        (in_mode normal)
        (answered answer n (transaction_inputs multi_value inputs exec_value))
      ≡ traced answer n inputs
unfolding session_trace
session_trace-answered answer n multi_value exec_value inputs q =
    let others = answered answer (suc n) inputs in
    ap (λ t. session_trace (in_mode normal) ((multi, answer n) ∷ t))
      (answered-append answer (suc n) inputs ((exec, exec_value) ∷ []))
    ∙ session_trace-multi_exec (answer n) (answer (suc n + length inputs)) others []
        (AllQueued-answered answer (suc n) inputs q)
    ∙ rw (commands_of-answered answer (suc n) inputs) refl

requests-traced :
    (client_id : ClientId) (channels : ℕ → Channel) (answer : ℕ → Resp) (n : ℕ)
    (inputs : List (Command × Resp))
    → requests client_id channels n (traced answer n inputs)
      ≡ with_reply client_id
          (internal_execute_tx (commands (commands_of inputs)))
          (channels (suc n + length inputs))
        ∷ []
requests-traced client_id channels answer n inputs =
    requests-queued client_id channels answer (suc n) (suc n) inputs _

replies-traced :
    (answer : ℕ → Resp) (n : ℕ) (inputs : List (Command × Resp))
    → replies (traced answer n inputs)
      ≡ encode_resp (simple_string (codes "OK"))
        ++ (queued_bytes inputs ++ encode_resp (answer (suc n + length inputs)))
replies-traced answer n inputs =
    ap (λ r. encode_resp (simple_string (codes "OK")) ++ r)
      (replies-queued answer (suc n) inputs _
        ∙ ap (λ r. queued_bytes inputs ++ r)
            (append-nil (encode_resp (answer (suc n + length inputs)))))

module _ (p : Platform) (client_id : ClientId) (channels : ℕ → Channel)
    (answers : Channel → Option Resp) where
  -- A connection in the normal mode, authenticated, reads the bytes of MULTI, of commands that are
  -- queued, and of EXEC. It sends the store one envelope, with the whole queue in order, on the channel
  -- of EXEC, and it writes OK, QUEUED for each command, and what comes on that channel. The values fit
  -- the format and stand for the commands, and something comes on every channel.
  pub receive-multi_exec :
      (answer : ℕ → Resp) (multi_value exec_value : Resp) (inputs : List (Command × Resp))
      (self : Connection)
      → self.session ≡ in_mode normal
      → ((n : ℕ) → answers (channels n) ≡ some (answer n))
      → All (Reads p) (transaction_inputs multi_value inputs exec_value)
      → AllQueued inputs
      → (self' : Connection) × (receive p client_id channels answers
            (encode_all (values (transaction_inputs multi_value inputs exec_value)))
            self
          ≡ ok self')
        × (self'.envelopes
            ≡ self.envelopes
              ++ (with_reply client_id
                    (internal_execute_tx (commands (commands_of inputs)))
                    (channels (suc self.round + length inputs))
                  ∷ []))
        × (self'.written
            ≡ self.written
              ++ (encode_resp (simple_string (codes "OK"))
                  ++ (queued_bytes inputs
                      ++ encode_resp (answer (suc self.round + length inputs)))))
  unfolding session_trace after
  receive-multi_exec answer multi_value exec_value inputs self s e r q =
      let all = transaction_inputs multi_value inputs exec_value in
      let self' = after client_id channels (answered answer self.round all) self in
      let trace =
        ap (λ t. session_trace t (answered answer self.round all)) s
        ∙ session_trace-answered answer self.round multi_value exec_value inputs q in
      (
        self',
        receive-after p client_id channels answers answer all self e r,
        ap (λ t. self.envelopes ++ requests client_id channels self.round t) trace
            ∙ ap (λ t. self.envelopes ++ t)
                (requests-traced client_id channels answer self.round inputs),
        ap (λ t. self.written ++ replies t) trace
            ∙ ap (λ t. self.written ++ t) (replies-traced answer self.round inputs),
      )
