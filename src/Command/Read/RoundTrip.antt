-- ===== src/Command/Read/RoundTrip.antt =====
-- src/command.rs: `from_resp` after `to_resp`, on what a master writes for its replicas.
use rust_redis.Prelude.{
  ℕ, suc, ◌^◌, ◌<◌, ◌≡◌, refl, true, Option, none, some, List, [], ◌∷◌, Bytes, codes, All, arith,
  u64_mod, i64_half,
}
use rust_redis.Prelude.Int.{ℤ, pos, negsuc}
use rust_redis.Prelude.Keys.{bytes_eq}
use rust_redis.Number.{decimal, decimal_i64}
use rust_redis.Number.RoundTrip.{
  IsDigit, All-decimal, parse_unsigned-decimal, parse_signed-decimal_i64, InRange,
}
use rust_redis.Utf8.{is_utf8, is_utf8-ascii, from_utf8}
use rust_redis.Parser.{ok}
use rust_redis.Platform.{Platform}
use rust_redis.Resp.{Resp, array, vec, bulk_string, elements, get_bytes}
use rust_redis.Command.{Command}
use rust_redis.Command.Wire.{to_resp, to_str, bulks}
use rust_redis.Command.Read.{from_resp, named}
use rust_redis.Command.Read.Args.{text, raw, raws, ascii_upper}
use rust_redis.Command.Read.Basic.{basic_command, set_command}
use rust_redis.Command.Read.Data.{data_command}
use rust_redis.Command.Read.Server.{server_command}

-- The commands that have an encoding, with contents that their encoding can hold. The parser of SET
-- takes one lifetime at most.
abbrev pub IsSendable : Command → Type 0
IsSendable (Command.set key value none none) = is_utf8 key ≡ true
IsSendable (Command.set key value (some ex) none) = (is_utf8 key ≡ true) × (ex < u64_mod)
IsSendable (Command.set key value none (some px)) = (is_utf8 key ≡ true) × (px < u64_mod)
IsSendable (Command.ping message) = Unit
IsSendable Command.replconf_get_ack = Unit
IsSendable (Command.replconf_listening_port port) = port < 2 ^ 16
IsSendable (Command.replconf_capa capabilites) = Unit
IsSendable (Command.psync replication_id offset) =
    (is_utf8 replication_id ≡ true) × InRange i64_half offset
IsSendable _ = ⊥

digits-ascii : (s : Bytes) → All IsDigit s → All (λ c. c < 128) s
digits-ascii [] d = tt
digits-ascii (c ∷ s) d = (ground (arith, d.0), digits-ascii s d.1)

-- Text that is UTF-8 is read as it is.
from_utf8-utf8 : (s : Bytes) → is_utf8 s ≡ true → from_utf8 s ≡ some s
unfolding from_utf8
from_utf8-utf8 s u = rw u refl

from_utf8-decimal : (n : ℕ) → from_utf8 (decimal n) ≡ some (decimal n)
from_utf8-decimal n =
    from_utf8-utf8 (decimal n)
      (is_utf8-ascii (decimal n) (digits-ascii (decimal n) (All-decimal n)))

decimal_i64-ascii : (i : ℤ) → All (λ c. c < 128) (decimal_i64 i)
unfolding decimal_i64
decimal_i64-ascii (pos n) = digits-ascii (decimal n) (All-decimal n)
decimal_i64-ascii (negsuc n) = (omega arith, digits-ascii (decimal (suc n)) (All-decimal (suc n)))

from_utf8-decimal_i64 : (i : ℤ) → from_utf8 (decimal_i64 i) ≡ some (decimal_i64 i)
from_utf8-decimal_i64 i =
    from_utf8-utf8 (decimal_i64 i) (is_utf8-ascii (decimal_i64 i) (decimal_i64-ascii i))

to_str-utf8 : (s : Bytes) → is_utf8 s ≡ true → to_str s ≡ ok s
unfolding to_str from_utf8
to_str-utf8 s u = rw u refl

raws-bulks : (bs : List Bytes) → raws (elements (vec (bulks bs))) ≡ ok bs
unfolding raws get_bytes
raws-bulks [] = refl
raws-bulks (b ∷ bs) = rw (raws-bulks bs)

-- What the replica reads is the command that the master wrote.
abbrev pub Carries : Platform → Command → Type 0
Carries p cmd = (r : Resp) × (to_resp cmd ≡ ok (some r)) × (from_resp p r ≡ ok (some cmd))

-- The words of a SET command, with those of its lifetime.
abbrev set_words : Bytes → Bytes → List Resp → Resp
set_words key value more =
    array (vec (bulk_string (codes "SET") ∷ bulk_string key ∷ bulk_string value ∷ more))

abbrev lifetime_words : Bytes → ℕ → List Resp
lifetime_words word n = bulk_string word ∷ bulk_string (decimal n) ∷ []

set-Carries :
    (p : Platform) (key value : Bytes) (ex px : Option ℕ)
    → IsSendable (Command.set key value ex px)
    → Carries p (Command.set key value ex px)
unfolding to_resp from_resp named text raw get_bytes ascii_upper basic_command set_command bytes_eq
set-Carries p key value none none u = (set_words key value [], rw (to_str-utf8 key u) refl, refl)
set-Carries p key value (some ex) none u = (
  set_words key value (lifetime_words (codes "EX") ex),
  rw (to_str-utf8 key u.0) refl,
  rw (from_utf8-decimal ex) (rw (parse_unsigned-decimal u64_mod ex u.1) refl),
)
set-Carries p key value none (some px) u = (
  set_words key value (lifetime_words (codes "PX") px),
  rw (to_str-utf8 key u.0) refl,
  rw (from_utf8-decimal px) (rw (parse_unsigned-decimal u64_mod px u.1) refl),
)
set-Carries p key value (some ex) (some px) u = absurd u

-- A command that has an encoding is read back from it as it was: SET with one lifetime at most and a
-- key that is UTF-8, PING, and the commands of the handshake and of the acknowledgement between a
-- replica and its master.
pub from_resp-to_resp : (p : Platform) (cmd : Command) → IsSendable cmd → Carries p cmd
unfolding to_resp from_resp named text raw get_bytes ascii_upper basic_command data_command
    server_command bytes_eq
from_resp-to_resp p (Command.set key value ex px) u = set-Carries p key value ex px u
from_resp-to_resp p (Command.ping none) u = (_, refl, refl)
from_resp-to_resp p (Command.ping (some m)) u = (_, refl, refl)
from_resp-to_resp p Command.replconf_get_ack u = (_, refl, refl)
from_resp-to_resp p (Command.replconf_listening_port port) u =
    (_, refl, rw (from_utf8-decimal port) (rw (parse_unsigned-decimal (2 ^ 16) port u) refl))
from_resp-to_resp p (Command.replconf_capa capabilites) u =
    (_, refl, rw (raws-bulks capabilites) refl)
from_resp-to_resp p (Command.psync replication_id offset) u = (
  _,
  refl,
  rw (from_utf8-utf8 replication_id u.0, from_utf8-decimal_i64 offset)
      (rw (parse_signed-decimal_i64 i64_half offset u.1) refl),
)
from_resp-to_resp p _ u = absurd u
