-- ===== src/Client/Gate.antt =====
-- src/client.rs, src/main.rs: what a connection that must authenticate dispatches.
use rust_redis.Prelude.{◌≡◌, Bool, true, List, [], ◌∷◌}
use rust_redis.Resp.{Resp, simple_string}
use rust_redis.Command.{Command, auth}
use rust_redis.Client.{
  ClientDispatch, reply, must_auth, ClientRunMode, normal, run, Session, settle, session_trace,
}

-- Up to the first `MustAuth` that the store answers by a simple string, every dispatch is a reply
-- of the connection's own or an attempt to authenticate.
abbrev pub IsGuarded : List (ClientDispatch × Resp) → Type 0
IsGuarded [] = Unit
IsGuarded ((must_auth _ _, simple_string _) ∷ rest) = Unit
IsGuarded ((must_auth _ _, _) ∷ rest) = IsGuarded rest
IsGuarded ((reply _, _) ∷ rest) = IsGuarded rest
IsGuarded (_ ∷ rest) = ⊥

IsGuarded-must_auth :
    (u p : List _) (answer : Resp) (mode : ClientRunMode)
    (rest : Bool → List (ClientDispatch × Resp))
    → (IsGuarded (rest true))
    → IsGuarded ((must_auth u p, answer) ∷ rest (settle (must_auth u p) answer true))
unfolding settle
IsGuarded-must_auth u p (simple_string s) mode rest h = tt
IsGuarded-must_auth u p _ mode rest h = h

guarded :
    (mode : ClientRunMode) (inputs : List (Command × Resp))
    → IsGuarded (session_trace (record { mode = mode; need_auth = true }) inputs)
unfolding session_trace run settle
guarded mode [] = tt
guarded mode ((auth u p, answer) ∷ inputs) =
    IsGuarded-must_auth u p answer mode
      (λ b. session_trace (record { mode = normal; need_auth = b }) inputs) (guarded normal inputs)
guarded mode ((_, answer) ∷ inputs) = guarded normal inputs

-- A connection that must authenticate sends nothing but its own replies and attempts to
-- authenticate, until the store answers one of these by a simple string: whatever its mode, its
-- commands and the store's answers.
pub session_trace-IsGuarded :
    (s : Session) (inputs : List (Command × Resp))
    → s.need_auth ≡ true
    → IsGuarded (session_trace s inputs)
session_trace-IsGuarded s inputs h = rw h (guarded s.mode inputs)
