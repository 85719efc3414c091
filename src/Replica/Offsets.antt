-- ===== src/Replica/Offsets.antt =====
-- src/main.rs: the offset that a replica reports.
use rust_redis.Prelude.{
  ℕ, Bool, true, false, if◌then◌else◌, ◌+◌, ◌%◌, ◌≡◌, refl, sym, ap, ◌∙◌, some, List, [], ◌∷◌, ◌++◌,
  append_assoc, append-nil, Bytes, arith, u64_mod, length, All, ◌<◌,
}
use rust_redis.Parser.{ok}
use rust_redis.Resp.{Resp}
use rust_redis.Resp.Encode.{encode_resp}
use rust_redis.Resp.Length.{len-encode_resp}
use rust_redis.Command.{Command, replconf_get_ack}
use rust_redis.Command.Wire.{to_resp}
use rust_redis.Command.Read.{from_resp}
use rust_redis.Parser.Reads.{length_bytes}
use rust_redis.Platform.{Platform}
use rust_redis.Replica.{
  Replica, ack_reply, process, process_replica_message, run_replica_server, counted,
}
use rust_redis.Command.Read.RoundTrip.{IsSendable, from_resp-to_resp}

abbrev pub is_get_ack : Command → Bool
is_get_ack replconf_get_ack = true
is_get_ack _ = false

-- A command and the value that the master writes for it.
abbrev pub Sent : Command × Resp → Type 0
Sent (command, r) = IsSendable command × (to_resp command ≡ ok (some r))

-- All commands but REPLCONF GETACK.
abbrev pub writes : List (Command × Resp) → List Command
writes [] = []
writes ((command, r) ∷ inputs) =
    if is_get_ack command then writes inputs else command ∷ writes inputs

-- To each REPLCONF GETACK, how many bytes came before it.
abbrev pub acks : ℕ → List (Command × Resp) → List Resp
acks n [] = []
acks n ((command, r) ∷ inputs) =
    let rest = acks ((n + length (encode_resp r)) % u64_mod) inputs in
    if is_get_ack command then ack_reply n ∷ rest else rest

abbrev pub bytes : List (Command × Resp) → Bytes
bytes [] = []
bytes ((command, r) ∷ inputs) = encode_resp r ++ bytes inputs

abbrev pub values : List (Command × Resp) → List Resp
values [] = []
values ((command, r) ∷ inputs) = r ∷ values inputs

process-command :
    (command : Command) (self : Replica)
    → process (some command) self ≡ record {
      replicated = if is_get_ack command then self.replicated else self.replicated ++ command ∷ [];
      written =
          if is_get_ack command
          then self.written ++ ack_reply self.ack_bytes ∷ []
          else self.written;
      ack_bytes = self.ack_bytes;
    }
unfolding process
process-command replconf_get_ack self = refl
process-command _ self = refl

abbrev after_inputs : List (Command × Resp) → Replica → Replica
after_inputs inputs self = record {
  replicated = self.replicated ++ writes inputs;
  written = self.written ++ acks self.ack_bytes inputs;
  ack_bytes = (self.ack_bytes + length (bytes inputs)) % u64_mod;
}

message :
    (p : Platform) (command : Command) (r : Resp) (self : Replica)
    → Sent (command, r)
    → process_replica_message p r self ≡ ok (process (some command) self)
unfolding process_replica_message
message p command r self (u, e) =
    let (r', e', read) = from_resp-to_resp p command u in
    let read' : from_resp p r ≡ ok (some command) = cc (e, e', read) in rw read' refl

same_parts :
    (a b : Replica)
    → a.replicated ≡ b.replicated
    → a.written ≡ b.written
    → a.ack_bytes ≡ b.ack_bytes
    → a ≡ b
same_parts a b p q r = λ i. record { replicated = p i; written = q i; ack_bytes = r i }

-- One input before the others.
after_input :
    (command : Command) (r : Resp) (inputs : List (Command × Resp)) (self : Replica)
    → after_inputs inputs (counted r (process (some command) self))
      ≡ after_inputs ((command, r) ∷ inputs) self
after_input command r inputs self =
    rw (process-command command self, len-encode_resp r)
      (same_parts _ _ (passed (is_get_ack command)) (answered (is_get_ack command)) offset)
  where
    next : ℕ
    next = (self.ack_bytes + length (encode_resp r)) % u64_mod

    passed :
        (b : Bool)
        → (if b then self.replicated else self.replicated ++ command ∷ []) ++ writes inputs
          ≡ self.replicated ++ (if b then writes inputs else command ∷ writes inputs)
    passed true = refl
    passed false = append_assoc self.replicated (command ∷ []) (writes inputs)

    answered :
        (b : Bool)
        → (if b then self.written ++ ack_reply self.ack_bytes ∷ [] else self.written)
            ++ acks next inputs
          ≡ self.written
            ++ (if b then ack_reply self.ack_bytes ∷ acks next inputs else acks next inputs)
    answered true = append_assoc self.written (ack_reply self.ack_bytes ∷ []) (acks next inputs)
    answered false = refl

    offset :
        (next + length (bytes inputs)) % u64_mod
        ≡ (self.ack_bytes + length (encode_resp r ++ bytes inputs)) % u64_mod
    offset = omega (arith, length_bytes (encode_resp r) (bytes inputs))

-- A replica that has taken in commands of its master has passed all of them on to its store, but for
-- REPLCONF GETACK, in order; to each GETACK it has answered the number of bytes of the commands
-- before it, earlier GETACKs included, on top of the offset at which it began; and its offset is that
-- of all of them, with wrap-around at 2^64. The commands are such as a master can write, and the
-- offset at which the replica began is below 2^64.
pub run_replica_server-values :
    (p : Platform) (inputs : List (Command × Resp)) (self : Replica)
    → All Sent inputs
    → self.ack_bytes < u64_mod
    → run_replica_server p (values inputs) self
      ≡ ok (record {
        replicated = self.replicated ++ writes inputs;
        written = self.written ++ acks self.ack_bytes inputs;
        ack_bytes = (self.ack_bytes + length (bytes inputs)) % u64_mod;
      })
unfolding run_replica_server
run_replica_server-values p [] self s h = ap ok (
    same_parts _ _ (sym (append-nil self.replicated)) (sym (append-nil self.written)) (omega arith))
run_replica_server-values p ((command, r) ∷ inputs) self (sent, s) h =
    rw (message p command r self sent) (
      run_replica_server-values p inputs (counted r (process (some command) self)) s (omega arith)
      ∙ ap ok (after_input command r inputs self))
