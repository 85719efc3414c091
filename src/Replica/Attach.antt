-- ===== src/Replica/Attach.antt =====
-- src/main.rs: a replica attaches to a master, `run_replica_server` from the handshake on.
use rust_redis.Prelude.{
  ℕ, ◌%◌, ◌<◌, ◌≡◌, refl, sym, ap, ◌∙◌, Option, some, List, [], ◌∷◌, ◌++◌, append-nil, Bytes, arith,
  u64_mod, length, All, All-parts,
}
use rust_redis.Parser.{Outcome, ok, err, panic, out_of_fuel, ◌>>=◌}
use rust_redis.Resp.{Resp}
use rust_redis.Resp.Wire.{IsWire}
use rust_redis.Command.{Command}
use rust_redis.Platform.{Platform}
use rust_redis.Replica.{Replica, process_replica_message, counted, run_replica_server}
use rust_redis.Replica.Offsets.{Sent, writes, acks, bytes, values, run_replica_server-values}
use rust_redis.Replica.Hello.{Written, greeting, read_bytes, handshake-greeting}
use rust_redis.Replica.Handshake.{Read, read_resp_from_stream, replica_loop, run_replica}

-- The reads of a stream on which each packet holds whole values, at least one.
abbrev pub packets_read : List ((Command × Resp) × List (Command × Resp)) → List Read
packets_read [] = []
packets_read ((input, inputs) ∷ packets) = some (bytes (input ∷ inputs)) ∷ packets_read packets

abbrev pub all_of : List ((Command × Resp) × List (Command × Resp)) → List (Command × Resp)
all_of [] = []
all_of ((input, inputs) ∷ packets) = (input ∷ inputs) ++ all_of packets

bind_cong :
    (o : Outcome Replica) (f g : Replica → Outcome Replica)
    → ((self : Replica) → f self ≡ g self)
    → (o >>= f) ≡ (o >>= g)
bind_cong (ok self) f g h = h self
bind_cong (err e) f g h = refl
bind_cong panic f g h = refl
bind_cong out_of_fuel f g h = refl

bind_assoc :
    (o : Outcome Replica) (f g : Replica → Outcome Replica)
    → (o >>= f >>= g) ≡ (o >>= (λ self. f self >>= g))
bind_assoc (ok self) f g = refl
bind_assoc (err e) f g = refl
bind_assoc panic f g = refl
bind_assoc out_of_fuel f g = refl

run_replica_server-append :
    (p : Platform) (xs ys : List Resp) (self : Replica)
    → run_replica_server p (xs ++ ys) self
      ≡ (run_replica_server p xs self >>= run_replica_server p ys)
unfolding run_replica_server
run_replica_server-append p [] ys self = refl
run_replica_server-append p (x ∷ xs) ys self =
    bind_cong (process_replica_message p x self) _ _
      (λ self'. run_replica_server-append p xs ys (counted x self'))
    ∙ sym (bind_assoc (process_replica_message p x self) _ _)

values-append : (xs ys : List (Command × Resp)) → values (xs ++ ys) ≡ values xs ++ values ys
values-append [] ys = refl
values-append ((c, v) ∷ xs) ys = ap (λ r. v ∷ r) (values-append xs ys)

replica_loop-packets :
    (p : Platform) (queue : List (Command × Resp))
    (packets : List ((Command × Resp) × List (Command × Resp))) (self : Replica)
    → All Written (all_of packets)
    → replica_loop p (values queue) (packets_read packets) self
      ≡ run_replica_server p (values (queue ++ all_of packets)) self
unfolding replica_loop
replica_loop-packets p queue [] self w = rw (append-nil queue) refl
replica_loop-packets p queue ((input, inputs) ∷ packets) self w =
    let (here, more) = All-parts Written (input ∷ inputs) (all_of packets) w in
    bind_cong (run_replica_server p (values queue) self) _ _ (λ self'.
      rw (read_bytes input inputs here)
        (replica_loop-packets p (input ∷ inputs) packets self' more))
    ∙ sym (
        run_replica_server-append p (values queue) (values (all_of ((input, inputs) ∷ packets)))
          self)
    ∙ ap (λ vs. run_replica_server p vs self)
        (sym (values-append queue (all_of ((input, inputs) ∷ packets))))

All-Sent : (inputs : List (Command × Resp)) → All Written inputs → All Sent inputs
All-Sent [] w = tt
All-Sent (x ∷ inputs) ((s, _), w) = (s, All-Sent inputs w)

-- A replica attaches to a master: three reads answer the first commands of its handshake, whatever
-- values they hold, and then come a line, an RDB file and commands, of which those behind the file may
-- come in the same read. The replica passes on every command but REPLCONF GETACK, in order; it answers
-- each GETACK with the number of bytes of the commands before it, counted from the end of the file;
-- and its offset is that of all of them, with wrap-around at 2^64. The commands are such as a master
-- can write, in values that fit the format, each read after the file holds whole values, at least one,
-- and the file is shorter than 2^64.
pub run_replica-values :
    (p : Platform) (port : ℕ) (a b c : Read) (va vb vc : Option (List Resp)) (line : Resp)
    (rdb : Bytes) (inputs : List (Command × Resp))
    (packets : List ((Command × Resp) × List (Command × Resp)))
    → read_resp_from_stream a ≡ ok va
    → read_resp_from_stream b ≡ ok vb
    → read_resp_from_stream c ≡ ok vc
    → IsWire line
    → length rdb < u64_mod
    → All Written (inputs ++ all_of packets)
    → run_replica p port (a ∷ b ∷ c ∷ some (greeting line rdb inputs) ∷ packets_read packets)
      ≡ ok (record {
        replicated = writes (inputs ++ all_of packets);
        written = acks 0 (inputs ++ all_of packets);
        ack_bytes = length (bytes (inputs ++ all_of packets)) % u64_mod;
      })
unfolding run_replica
run_replica-values p port a b c va vb vc line rdb inputs packets ea eb ec wire l w =
    let (here, more) = All-parts Written inputs (all_of packets) w in
    let start : Replica = record { replicated = []; written = []; ack_bytes = 0 } in
    rw
      (handshake-greeting port a b c va vb vc line rdb inputs (packets_read packets) ea eb ec wire l
        here)
      (replica_loop-packets p inputs packets start more
        ∙ run_replica_server-values p (inputs ++ all_of packets) start
            (All-Sent (inputs ++ all_of packets) w) (omega arith)
        ∙ ap
            (λ n. ok (record {
              replicated = writes (inputs ++ all_of packets);
              written = acks 0 (inputs ++ all_of packets);
              ack_bytes = n;
            }))
            (omega arith))
