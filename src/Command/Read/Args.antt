-- ===== src/Command/Read/Args.antt =====
-- src/command.rs: how `from_resp` reads one argument.
use rust_redis.Prelude.{
  ℕ, zero, suc, ◌-◌, ◌&&◌, Option, none, some, List, [], ◌∷◌, Bytes, leb, if◌then◌else◌, get_elem?,
}
use rust_redis.Parser.{Outcome, ok, panic, ◌>>=◌}
use rust_redis.Resp.{Resp, get_str, get_bytes}

abbrev pub unwrap {ℓ} : {A : Type ℓ} → Option A → Outcome A
unwrap (some a) = ok a
unwrap none = panic

-- `els[i].get_str().unwrap()`
unfoldable pub text : List Resp → ℕ → Outcome Bytes
unfolding get_str
text els i = do el ← unwrap (get_elem? els i); unwrap (get_str el)

-- `els[i].get_bytes().unwrap()`
unfoldable pub raw : List Resp → ℕ → Outcome Bytes
unfolding get_bytes
raw els i = do el ← unwrap (get_elem? els i); unwrap (get_bytes el)

-- `els[i].get_str().unwrap().parse().unwrap()`
abbrev pub parsed {ℓ} : {A : Type ℓ} → (Bytes → Option A) → List Resp → ℕ → Outcome A
parsed parse els i = do s ← text els i; unwrap (parse s)

-- `.iter().map(|e| e.get_bytes().unwrap()).collect()`
unfoldable pub raws : List Resp → Outcome (List Bytes)
unfolding get_bytes
raws [] = ok []
raws (el ∷ els) = do b ← unwrap (get_bytes el); bs ← raws els; ok (b ∷ bs)

-- `&els[i..]`, which panics if `i` is past the end.
abbrev pub from : List Resp → ℕ → Outcome (List Resp)
from els zero = ok els
from [] (suc i) = panic
from (el ∷ els) (suc i) = from els i

abbrev upper : ℕ → ℕ
upper c = if leb b'a' c && leb c b'z' then c - 32 else c

-- `to_ascii_uppercase`
unfoldable pub ascii_upper : Bytes → Bytes
ascii_upper [] = []
ascii_upper (c ∷ s) = upper c ∷ ascii_upper s
