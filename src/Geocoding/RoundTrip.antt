-- ===== src/Geocoding/RoundTrip.antt =====
-- src/geocoding.rs: the grid numbers of a code, after the spreading and the compaction of their bits. Bytes
-- in place are tried one by one.
use Prim.Native.Nat.{bit_and, bit_or}
use rust_redis.Prelude.{
  ℕ, zero, suc, ◌+◌, ◌*◌, ◌/◌, ◌%◌, ◌^◌, ◌≤◌, ◌<◌, ◌≡◌, refl, sym, ap, Bool, true, ◌&&◌, arith,
  ◌==◌, ==_iff,
}
use rust_redis.Geocoding.{compact_int64_to_int32, spread_int32_to_int64, interleave, grid_numbers}
use rust_redis.Geocoding.Bits.{
  and-or, or_swap, or_shift, or_right1, or_right2, or_right4, or_right8, or_right16, or_disjoint,
  or_zero, and_le,
}

-- The function may be applied on either side of `|`.
abbrev IsLinear : (ℕ → ℕ) → Type 0
IsLinear f = (a b : ℕ) → f (bit_or a b) ≡ bit_or (f a) (f b)

mask-IsLinear : (m : ℕ) → IsLinear (λ r. bit_and r m)
mask-IsLinear m a b = and-or a b m

-- One line of the source, whatever the shift, if this passes through `|`.
line-IsLinear :
    (shift : ℕ → ℕ) (m : ℕ) → IsLinear shift → IsLinear (λ r. bit_and (bit_or r (shift r)) m)
line-IsLinear shift m h a b =
    rw (h a b, or_swap a b (shift a) (shift b)) (and-or (bit_or a (shift a)) (bit_or b (shift b)) m)

compose-IsLinear : (f g : ℕ → ℕ) → IsLinear f → IsLinear g → IsLinear (λ r. g (f r))
compose-IsLinear f g h k a b = rw (h a b, k (f a) (f b))

abbrev right : ℕ → ℕ → ℕ → ℕ
right k m r = bit_and (bit_or r (r / 2 ^ k)) m

-- The same to the left, where nothing leaves the 64 bits.
abbrev left : ℕ → ℕ → ℕ → ℕ
left k m r = bit_and (bit_or r (r * 2 ^ k)) m

right-IsLinear :
    (k m : ℕ)
    → ((a b : ℕ) → bit_or a b / 2 ^ k ≡ bit_or (a / 2 ^ k) (b / 2 ^ k))
    → IsLinear (right k m)
right-IsLinear k m h = line-IsLinear (λ r. r / 2 ^ k) m h

left-IsLinear : (k m : ℕ) → IsLinear (left k m)
left-IsLinear k m = line-IsLinear (λ r. r * 2 ^ k) m (λ a b. sym (or_shift k a b))

compact-IsLinear : IsLinear compact_int64_to_int32
unfolding compact_int64_to_int32
compact-IsLinear =
    let r1 =
      compose-IsLinear (λ r. bit_and r 0x5555555555555555) (right 1 0x3333333333333333)
        (mask-IsLinear 0x5555555555555555) (right-IsLinear 1 0x3333333333333333 or_right1) in
    let r2 =
      compose-IsLinear _ (right 2 0x0f0f0f0f0f0f0f0f) r1
        (right-IsLinear 2 0x0f0f0f0f0f0f0f0f or_right2) in
    let r4 =
      compose-IsLinear _ (right 4 0x00ff00ff00ff00ff) r2
        (right-IsLinear 4 0x00ff00ff00ff00ff or_right4) in
    let r8 =
      compose-IsLinear _ (right 8 0x0000ffff0000ffff) r4
        (right-IsLinear 8 0x0000ffff0000ffff or_right8) in
    compose-IsLinear _ (right 16 0x00000000ffffffff) r8
      (right-IsLinear 16 0x00000000ffffffff or_right16)

-- The spreading without the wrap-around of its shifts.
abbrev spread : ℕ → ℕ
spread v = left 1 0x5555555555555555 (
    left 2 0x3333333333333333
      (left 4 0x0f0f0f0f0f0f0f0f (left 8 0x00ff00ff00ff00ff (left 16 0x0000ffff0000ffff v))))

spread-IsLinear : IsLinear spread
spread-IsLinear =
    let l16 = left-IsLinear 16 0x0000ffff0000ffff in
    let l8 =
      compose-IsLinear _ (left 8 0x00ff00ff00ff00ff) l16 (left-IsLinear 8 0x00ff00ff00ff00ff) in
    let l4 =
      compose-IsLinear _ (left 4 0x0f0f0f0f0f0f0f0f) l8 (left-IsLinear 4 0x0f0f0f0f0f0f0f0f) in
    let l2 =
      compose-IsLinear _ (left 2 0x3333333333333333) l4 (left-IsLinear 2 0x3333333333333333) in
    compose-IsLinear _ (left 1 0x5555555555555555) l2 (left-IsLinear 1 0x5555555555555555)

left_le : (k m r : ℕ) → left k m r ≤ m
left_le k m r = and_le (bit_or r (r * 2 ^ k)) m

spread_lem : (v : ℕ) → v < 2 ^ 32 → spread_int32_to_int64 v ≡ spread v
unfolding spread_int32_to_int64
spread_lem v h =
    let v16 = left 16 0x0000ffff0000ffff v in
    let v8 = left 8 0x00ff00ff00ff00ff v16 in
    let v4 = left 4 0x0f0f0f0f0f0f0f0f v8 in
    let v2 = left 2 0x3333333333333333 v4 in
    let e16 : v * 2 ^ 16 % 2 ^ 64 ≡ v * 2 ^ 16 = omega arith in
    let e8 : v16 * 2 ^ 8 % 2 ^ 64 ≡ v16 * 2 ^ 8 = omega (arith, left_le 16 0x0000ffff0000ffff v) in
    let e4 : v8 * 2 ^ 4 % 2 ^ 64 ≡ v8 * 2 ^ 4 = omega (arith, left_le 8 0x00ff00ff00ff00ff v16) in
    let e2 : v4 * 2 ^ 2 % 2 ^ 64 ≡ v4 * 2 ^ 2 = omega (arith, left_le 4 0x0f0f0f0f0f0f0f0f v8) in
    let e1 : v2 * 2 ^ 1 % 2 ^ 64 ≡ v2 * 2 ^ 1 = omega (arith, left_le 2 0x3333333333333333 v4) in
    rw (e16, e8, e4, e2, e1) refl

-- A property of every byte, by trial.
all_bytes : ℕ → (ℕ → Bool) → Bool
all_bytes zero p = true
all_bytes (suc n) p = p n && all_bytes n p

all_bytes_lem : (n : ℕ) (p : ℕ → Bool) (x : ℕ) → all_bytes n p ≡ true → x < n → p x ≡ true
unfolding all_bytes
all_bytes_lem zero p x h k = absurd (omega arith)
all_bytes_lem (suc n) p x h k = ground (arith, all_bytes_lem n p x)

-- What is read at the even places and at the odd ones, when the byte was spread there.
abbrev even : ℕ → ℕ
even v = compact_int64_to_int32 (spread v)

abbrev odd : ℕ → ℕ
odd v = compact_int64_to_int32 (spread v * 2)

abbrev below_even : ℕ → ℕ
below_even v = compact_int64_to_int32 (spread v / 2)

abbrev in_place : ℕ → ℕ → Bool
in_place k b =
    (even (b * 2 ^ k) == b * 2 ^ k) && ((odd (b * 2 ^ k) == 0) && (below_even (b * 2 ^ k) == 0))

abbrev Agree : (ℕ → ℕ) → (ℕ → ℕ) → ℕ → ℕ → Type 0
Agree f g k b = f (b * 2 ^ k) ≡ g (b * 2 ^ k)

-- Functions that pass through `|` and agree on the bytes in their places agree on 32 bits.
module _ (f g : ℕ → ℕ) (hf : IsLinear f) (hg : IsLinear g)
    (same : (b : ℕ)
      → b < 256
      → Agree f g 0 b × Agree f g 8 b × Agree f g 16 b × Agree f g 24 b) where
  agree_or : (a b : ℕ) → f a ≡ g a → f b ≡ g b → f (bit_or a b) ≡ g (bit_or a b)
  agree_or a b h k = rw (hf a b, hg a b, h, k)

  module _ (x : ℕ) (h : x < 2 ^ 32) where
    abbrev byte0 : ℕ
    byte0 = x % 256 * 2 ^ 0

    abbrev byte1 : ℕ
    byte1 = x / 2 ^ 8 % 256 * 2 ^ 8

    abbrev byte2 : ℕ
    byte2 = x / 2 ^ 16 % 256 * 2 ^ 16

    abbrev byte3 : ℕ
    byte3 = x / 2 ^ 24 % 256 * 2 ^ 24

    bytes_or : bit_or (bit_or byte0 byte1) (bit_or byte2 byte3) ≡ x
    bytes_or =
        let low = or_disjoint 8 byte0 (x / 2 ^ 8 % 256) (omega arith) in
        let high = or_disjoint 24 byte2 (x / 2 ^ 24 % 256) (omega arith) in
        let join : byte2 + byte3 ≡ x / 2 ^ 16 * 2 ^ 16 = omega arith in
        rw (low, high, join)
          (omega (arith, or_disjoint 16 (byte0 + byte1) (x / 2 ^ 16) (omega arith)))

    agree_all : f x ≡ g x
    agree_all = rw (← bytes_or) (
        agree_or (bit_or byte0 byte1) (bit_or byte2 byte3)
          (agree_or byte0 byte1 (same (x % 256) (omega arith)).0
            (same (x / 2 ^ 8 % 256) (omega arith)).1)
          (agree_or byte2 byte3 (same (x / 2 ^ 16 % 256) (omega arith)).2
            (same (x / 2 ^ 24 % 256) (omega arith)).3))

-- What the table says of a byte in one place.
in_place_lem :
    (k b : ℕ)
    → all_bytes 256 (in_place k) ≡ true
    → b < 256
    → (even (b * 2 ^ k) ≡ b * 2 ^ k) × (odd (b * 2 ^ k) ≡ 0) × (below_even (b * 2 ^ k) ≡ 0)
in_place_lem k b t h =
    let tried = all_bytes_lem 256 (in_place k) b t h in
    ground (
      arith,
      ==_iff (even (b * 2 ^ k)) (b * 2 ^ k),
      ==_iff (odd (b * 2 ^ k)) 0,
      ==_iff (below_even (b * 2 ^ k)) 0,
    )

table0 : all_bytes 256 (in_place 0) ≡ true
unfolding all_bytes compact_int64_to_int32
table0 = refl

table8 : all_bytes 256 (in_place 8) ≡ true
unfolding all_bytes compact_int64_to_int32
table8 = refl

table16 : all_bytes 256 (in_place 16) ≡ true
unfolding all_bytes compact_int64_to_int32
table16 = refl

table24 : all_bytes 256 (in_place 24) ≡ true
unfolding all_bytes compact_int64_to_int32
table24 = refl

double-IsLinear : IsLinear (λ r. r * 2)
double-IsLinear a b = sym (or_shift 1 a b)

even_lem : (x : ℕ) → x < 2 ^ 32 → even x ≡ x
even_lem x h =
    agree_all even (λ r. r)
      (compose-IsLinear spread compact_int64_to_int32 spread-IsLinear compact-IsLinear)
      (λ a b. refl)
      (λ b k. (
        (in_place_lem 0 b table0 k).0,
        (in_place_lem 8 b table8 k).0,
        (in_place_lem 16 b table16 k).0,
        (in_place_lem 24 b table24 k).0,
      ))
      x h

odd_lem : (x : ℕ) → x < 2 ^ 32 → odd x ≡ 0
odd_lem x h =
    agree_all odd (λ r. 0)
      (compose-IsLinear (λ r. spread r * 2) compact_int64_to_int32
        (compose-IsLinear spread (λ r. r * 2) spread-IsLinear double-IsLinear) compact-IsLinear)
      (λ a b. refl)
      (λ b k. (
        (in_place_lem 0 b table0 k).1,
        (in_place_lem 8 b table8 k).1,
        (in_place_lem 16 b table16 k).1,
        (in_place_lem 24 b table24 k).1,
      ))
      x h

below_even_lem : (x : ℕ) → x < 2 ^ 32 → below_even x ≡ 0
below_even_lem x h =
    agree_all below_even (λ r. 0)
      (compose-IsLinear (λ r. spread r / 2) compact_int64_to_int32
        (compose-IsLinear spread (λ r. r / 2) spread-IsLinear or_right1) compact-IsLinear)
      (λ a b. refl)
      (λ b k. (
        (in_place_lem 0 b table0 k).2,
        (in_place_lem 8 b table8 k).2,
        (in_place_lem 16 b table16 k).2,
        (in_place_lem 24 b table24 k).2,
      ))
      x h

-- The code that is made of two 32-bit grid numbers gives both back: the first from its even bits, the
-- second from its odd ones.
pub grid_numbers-interleave :
    (x y : ℕ) → x < 2 ^ 32 → y < 2 ^ 32 → grid_numbers (interleave x y) ≡ (x, y)
unfolding grid_numbers interleave
grid_numbers-interleave x y h k =
    let small : spread y * 2 ^ 1 % 2 ^ 64 ≡ spread y * 2 = omega (
      arith,
      left_le 1 0x5555555555555555 (
          left 2 0x3333333333333333
            (left 4 0x0f0f0f0f0f0f0f0f (left 8 0x00ff00ff00ff00ff (left 16 0x0000ffff0000ffff y)))),
    ) in
    let back : spread y * 2 / 2 ≡ spread y = omega arith in
    rw
      (
        spread_lem x h,
        spread_lem y k,
        small,
        compact-IsLinear (spread x) (spread y * 2),
        or_right1 (spread x) (spread y * 2),
        back,
        compact-IsLinear (spread x / 2) (spread y),
      )
      (rw (even_lem x h, odd_lem y k, below_even_lem x h, even_lem y k, or_zero y)
        (ap (λ (n : ℕ). (n, y)) (omega (arith, or_disjoint 32 x 0 h))))
