-- ===== src/Client/Transactions.antt =====
-- MULTI, EXEC and DISCARD, and the subscription mode.
use rust_redis.Prelude.{
  ◌≡◌, refl, sym, ap, ◌∙◌, false, List, [], ◌∷◌, ◌++◌, append_assoc, append-nil, codes,
}
use rust_redis.Resp.{Resp, simple_string}
use rust_redis.Command.{
  Command, commands, multi, exec, discard, watch, internal_execute_tx, subscribe, publish, ping,
  unsubscribe,
}
use rust_redis.Client.{
  ClientDispatch, execute, reply, ok_reply, ClientRunMode, normal, transaction, subscription,
  must_auth, run, run_transaction, run_subscription, Session, session_trace, settle, still_needed,
}

-- The commands that an open transaction queues: all but these three.
abbrev pub IsQueued : Command → Type 0
IsQueued exec = ⊥
IsQueued discard = ⊥
IsQueued (watch _) = ⊥
IsQueued _ = Unit

abbrev pub queued : ClientDispatch
queued = reply (simple_string (codes "QUEUED"))

run_transaction-queued :
    (queue : List Command) (c : Command)
    → IsQueued c
    → run_transaction queue c ≡ (transaction (queue ++ c ∷ []), queued)
unfolding run_transaction
run_transaction-queued queue exec h = absurd h
run_transaction-queued queue discard h = absurd h
run_transaction-queued queue (watch _) h = absurd h
run_transaction-queued queue _ h = refl

abbrev pub in_mode : ClientRunMode → Session
in_mode mode = record { mode = mode; need_auth = false }

still_needed-false : (answer : Resp) → still_needed answer false ≡ false
still_needed-false (simple_string s) = refl
still_needed-false _ = refl

settle-false : (d : ClientDispatch) (answer : Resp) → settle d answer false ≡ false
unfolding settle
settle-false (must_auth u p) answer = still_needed-false answer
settle-false _ answer = refl

session_trace-step :
    (mode mode' : ClientRunMode) (c : Command) (d : ClientDispatch) (answer : Resp)
    (inputs : List (Command × Resp))
    → run mode false c ≡ (mode', d)
    → session_trace (in_mode mode) ((c, answer) ∷ inputs)
      ≡ (d, answer) ∷ session_trace (in_mode mode') inputs
unfolding session_trace
session_trace-step mode mode' c d answer inputs e = rw (e, settle-false d answer)

run-transaction :
    (queue : List Command) (c : Command) → run (transaction queue) false c ≡ run_transaction queue c
unfolding run
run-transaction queue c = refl

run-subscription : (c : Command) → run subscription false c ≡ run_subscription c
unfolding run
run-subscription c = refl

-- Inputs whose commands are all queued, the commands among them, and what the connection sends.
abbrev pub AllQueued : List (Command × Resp) → Type 0
AllQueued [] = Unit
AllQueued ((c, answer) ∷ inputs) = IsQueued c × AllQueued inputs

abbrev pub commands_of : List (Command × Resp) → List Command
commands_of [] = []
commands_of ((c, answer) ∷ inputs) = c ∷ commands_of inputs

abbrev pub queued_replies : List (Command × Resp) → List (ClientDispatch × Resp)
queued_replies [] = []
queued_replies ((c, answer) ∷ inputs) = (queued, answer) ∷ queued_replies inputs

session_trace-queued :
    (queue : List Command) (inputs more : List (Command × Resp))
    → AllQueued inputs
    → session_trace (in_mode (transaction queue)) (inputs ++ more)
      ≡ queued_replies inputs
        ++ session_trace (in_mode (transaction (queue ++ commands_of inputs))) more
session_trace-queued queue [] more h =
    ap (λ (q : List Command). session_trace (in_mode (transaction q)) more) (sym (append-nil queue))
session_trace-queued queue ((c, answer) ∷ inputs) more h =
    session_trace-step (transaction queue) (transaction (queue ++ c ∷ [])) c queued answer
      (inputs ++ more) (run-transaction queue c ∙ run_transaction-queued queue c h.0)
    ∙ ap (λ (t : List (ClientDispatch × Resp)). (queued, answer) ∷ t)
        (rw (append_assoc queue (c ∷ []) (commands_of inputs)) at
          (session_trace-queued (queue ++ c ∷ []) inputs more h.1))

run-multi : run normal false multi ≡ (transaction [], ok_reply)
unfolding run
run-multi = refl

session_trace-multi :
    (answer : Resp) (inputs more : List (Command × Resp))
    → AllQueued inputs
    → session_trace (in_mode normal) ((multi, answer) ∷ (inputs ++ more))
      ≡ (ok_reply, answer)
        ∷ (queued_replies inputs ++ session_trace (in_mode (transaction (commands_of inputs))) more)
session_trace-multi answer inputs more h =
    session_trace-step normal (transaction []) multi ok_reply answer (inputs ++ more) run-multi
    ∙ ap (λ (t : List (ClientDispatch × Resp)). (ok_reply, answer) ∷ t)
        (session_trace-queued [] inputs more h)

-- From MULTI to EXEC, with commands between them that are queued, the connection answers each by
-- itself, and the store gets one command: the queue, whole and in order. What follows is handled in
-- the normal mode.
pub session_trace-multi_exec :
    (a b : Resp) (inputs more : List (Command × Resp))
    → AllQueued inputs
    → session_trace (in_mode normal) ((multi, a) ∷ (inputs ++ ((exec, b) ∷ more)))
      ≡ (ok_reply, a)
        ∷ (queued_replies inputs
            ++ ((execute (internal_execute_tx (commands (commands_of inputs))), b)
                ∷ session_trace (in_mode normal) more))
session_trace-multi_exec a b inputs more h =
    session_trace-multi a inputs ((exec, b) ∷ more) h
    ∙ ap (λ (t : List (ClientDispatch × Resp)). (ok_reply, a) ∷ (queued_replies inputs ++ t))
        (session_trace-step (transaction (commands_of inputs)) normal exec
          (execute (internal_execute_tx (commands (commands_of inputs)))) b more
          (run-transaction (commands_of inputs) exec ∙ unfold run_transaction in refl))

-- From MULTI to DISCARD, with commands between them that are queued, the store gets DISCARD alone
-- and none of the queue. What follows is handled in the normal mode.
pub session_trace-multi_discard :
    (a b : Resp) (inputs more : List (Command × Resp))
    → AllQueued inputs
    → session_trace (in_mode normal) ((multi, a) ∷ (inputs ++ ((discard, b) ∷ more)))
      ≡ (ok_reply, a)
        ∷ (queued_replies inputs ++ ((execute discard, b) ∷ session_trace (in_mode normal) more))
session_trace-multi_discard a b inputs more h =
    session_trace-multi a inputs ((discard, b) ∷ more) h
    ∙ ap (λ (t : List (ClientDispatch × Resp)). (ok_reply, a) ∷ (queued_replies inputs ++ t))
        (session_trace-step (transaction (commands_of inputs)) normal discard (execute discard) b
          more (run-transaction (commands_of inputs) discard ∙ unfold run_transaction in refl))

-- Every dispatch is a reply of the connection's own, or executes a command on channels.
abbrev pub OnlyChannels : List (ClientDispatch × Resp) → Type 0
OnlyChannels [] = Unit
OnlyChannels ((reply _, _) ∷ rest) = OnlyChannels rest
OnlyChannels ((execute (publish _ _), _) ∷ rest) = OnlyChannels rest
OnlyChannels ((execute (subscribe _), _) ∷ rest) = OnlyChannels rest
OnlyChannels ((execute (unsubscribe _), _) ∷ rest) = OnlyChannels rest
OnlyChannels (_ ∷ rest) = ⊥

-- A subscribed connection stays in that mode, whatever it sends, and only PUBLISH, SUBSCRIBE and
-- UNSUBSCRIBE reach the store.
pub session_trace-OnlyChannels :
    (inputs : List (Command × Resp)) → OnlyChannels (session_trace (in_mode subscription) inputs)
unfolding session_trace run settle
session_trace-OnlyChannels [] = tt
session_trace-OnlyChannels ((ping m, answer) ∷ inputs) = session_trace-OnlyChannels inputs
session_trace-OnlyChannels ((_, answer) ∷ inputs) = session_trace-OnlyChannels inputs
