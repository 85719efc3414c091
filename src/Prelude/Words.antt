-- ===== src/Prelude/Words.antt =====
-- Byte strings, the bytes of an ASCII literal, and the bounds of the machine words.
use Prim.Native.Nat.{ℕ, ◌^◌}
use Prim.Native.Char.{code}
use Prim.Native.String.{String}
use mathlib.Core.List.{List, [], ◌∷◌}

-- `types.rs`: `type Bytes = Vec<u8>`. A Rust `String` is its UTF-8 bytes.
abbrev pub Bytes : Type 0
Bytes = List ℕ

abbrev pub codes : String → Bytes
codes String.[] = []
codes (String.◌∷◌ c s) = code c ∷ codes s

-- `b"\r\n"`
abbrev pub crlf : Bytes
crlf = b'\r' ∷ b'\n' ∷ []

abbrev pub u64_mod : ℕ
u64_mod = 2 ^ 64

abbrev pub i64_half : ℕ
i64_half = 2 ^ 63
