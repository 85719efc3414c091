-- ===== src/Order.antt =====
-- Orders of the standard library: `f64::total_cmp`, the order of `String`s by their bytes, and that
-- of pairs, by which a `BTreeSet<(SafeFloat, String)>` is sorted (src/sorted_sets.rs).
use rust_redis.Prelude.{
  ℕ, ◌+◌, ◌-◌, ◌<◌, ◌≡◌, refl, Bool, true, false, ◌&&◌, ◌||◌, [], ◌∷◌, arith, Bytes, ltb, ◌==◌,
  if◌then◌else◌, u64_mod,
}
use rust_redis.Command.{F64}

-- `total_cmp` compares the bits as sign and magnitude. This is the place of a float in that order:
-- the negative ones come first, the largest magnitude at the front.
unfoldable pub place : F64 → ℕ
place x = if ltb x 0x8000000000000000 then x + 0x8000000000000000 else u64_mod - 1 - x

unfoldable pub bytes_ltb : Bytes → Bytes → Bool
bytes_ltb s [] = false
bytes_ltb [] (b ∷ t) = true
bytes_ltb (a ∷ s) (b ∷ t) = ltb a b || a == b && bytes_ltb s t

-- An entry of a sorted set: `(SafeFloat, String)`.
abbrev pub Entry : Type 0
Entry = F64 × Bytes

unfoldable pub entry_ltb : Entry → Entry → Bool
entry_ltb (s, m) (t, n) = ltb (place s) (place t) || place s == place t && bytes_ltb m n

-- The number is the bits of an `f64`.
abbrev pub IsF64 : F64 → Type 0
IsF64 x = x < u64_mod

pub place-injective : (x y : F64) → IsF64 x → IsF64 y → place x ≡ place y → x ≡ y
unfolding place
place-injective x y h k e = ground arith

pub bytes_ltb_trans :
    (s t u : Bytes) → bytes_ltb s t ≡ true → bytes_ltb t u ≡ true → bytes_ltb s u ≡ true
unfolding bytes_ltb
bytes_ltb_trans s [] u h k = cc
bytes_ltb_trans s (b ∷ t) [] h k = cc
bytes_ltb_trans [] (b ∷ t) (c ∷ u) h k = refl
bytes_ltb_trans (a ∷ s) (b ∷ t) (c ∷ u) h k = ground (arith, bytes_ltb_trans s t u)

pub bytes_ltb-total : (s t : Bytes) → bytes_ltb s t ≡ false → bytes_ltb t s ≡ false → s ≡ t
unfolding bytes_ltb
bytes_ltb-total [] [] h k = refl
bytes_ltb-total [] (b ∷ t) h k = cc
bytes_ltb-total (a ∷ s) [] h k = cc
bytes_ltb-total (a ∷ s) (b ∷ t) h k = ground (arith, bytes_ltb-total s t)

pub bytes_ltb_irrefl : (s : Bytes) → bytes_ltb s s ≡ false
unfolding bytes_ltb
bytes_ltb_irrefl [] = refl
bytes_ltb_irrefl (a ∷ s) = ground (arith, bytes_ltb_irrefl s)

pub entry_ltb_trans :
    (d e f : Entry) → entry_ltb d e ≡ true → entry_ltb e f ≡ true → entry_ltb d f ≡ true
unfolding entry_ltb
entry_ltb_trans (s, m) (t, n) (u, o) h k = ground (arith, bytes_ltb_trans m n o)

pub entry_ltb_irrefl : (e : Entry) → entry_ltb e e ≡ false
unfolding entry_ltb
entry_ltb_irrefl (s, m) = ground (arith, bytes_ltb_irrefl m)

-- Entries that neither order puts first are the same.
pub entry_ltb-total :
    (d e : Entry)
    → IsF64 d.0
    → IsF64 e.0
    → entry_ltb d e ≡ false
    → entry_ltb e d ≡ false
    → (d.0 ≡ e.0) × (d.1 ≡ e.1)
unfolding entry_ltb
entry_ltb-total (s, m) (t, n) b c h k = ground (arith, place-injective s t b c, bytes_ltb-total m n)
