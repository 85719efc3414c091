-- ===== src/Command/Read/Ids.antt =====
-- src/command.rs: the ids of stream entries, as the commands write them.
use rust_redis.Prelude.{ℕ, ◌-◌, Option, none, some, Bytes, codes, if◌then◌else◌, u64_mod}
use rust_redis.Prelude.Keys.{bytes_eq}
use rust_redis.Parser.{Outcome, ok, err, panic, out_of_fuel, Parser}
use rust_redis.Parser.Slices.{byte}
use rust_redis.Parser.Combinators.{and3}
use rust_redis.Parser.Numeric.{integer_u64}
use rust_redis.Command.{
  XaddStreamIdInput, explicit, auto_gen_seq, augo_gen, XreadStreamIdInput, dollar_id,
}

-- `and!(integer::<u64>(), byte(b'-'), integer::<u64>())`
abbrev full_id : Parser (ℕ × ℕ × ℕ)
full_id = and3 integer_u64 (byte b'-') integer_u64

-- `match … { Ok(_) => …, _ => other }`: a panic is not caught.
abbrev on_ok {ℓ κ} : {A : Type ℓ} {B : Type κ} → Outcome A → (A → Outcome B) → Outcome B → Outcome B
on_ok (ok a) f other = f a
on_ok (err e) f other = other
on_ok panic f other = panic
on_ok out_of_fuel f other = out_of_fuel

-- `parse_input_stream_id`
unfoldable pub parse_input_stream_id : Bytes → Outcome (Option XaddStreamIdInput)
parse_input_stream_id id =
    on_ok (full_id id) (λ ((tid, dash, sid), rest). ok (some (explicit tid sid)))
      (on_ok (and3 integer_u64 (byte b'-') (byte b'*') id)
        (λ ((tid, dash, star), rest). ok (some (auto_gen_seq tid)))
        (on_ok (byte b'*' id) (λ star. ok (some augo_gen)) (ok none)))

-- `parse_xread_stream_id_input`
unfoldable pub parse_xread_stream_id_input : Bytes → Outcome (Option XreadStreamIdInput)
parse_xread_stream_id_input id =
    on_ok (full_id id) (λ ((tid, dash, sid), rest). ok (some (explicit tid sid)))
      (on_ok (byte b'$' id) (λ dollar. ok (some dollar_id)) (ok none))

-- `.parse(&s).unwrap()`
abbrev bound : Bytes → Outcome (ℕ × ℕ)
bound s = on_ok (full_id s) (λ ((tid, dash, sid), rest). ok (tid, sid)) panic

unfoldable pub range_start : Bytes → Outcome (ℕ × ℕ)
range_start s = if bytes_eq s (codes "-") then ok (0, 1) else bound s

unfoldable pub range_end : Bytes → Outcome (ℕ × ℕ)
range_end e = if bytes_eq e (codes "+") then ok (u64_mod - 1, u64_mod - 1) else bound e
