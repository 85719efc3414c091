-- ===== src/Geocoding/Bits.antt =====
-- src/geocoding.rs: the bit operations at variables, bit by bit.
use Prim.Native.Nat.{min, max, bit_and, bit_or, digits, bit_and-bitwise, bit_or-bitwise}
use rust_redis.Prelude.{ℕ, zero, suc, ◌+◌, ◌*◌, ◌/◌, ◌%◌, ◌^◌, ◌≤◌, ◌<◌, ◌≡◌, refl, arith}

-- The definition that the native `|` stands for, with any count of digits that is enough.
abbrev or_upto : ℕ → ℕ → ℕ → ℕ
or_upto n a b = digits (λ b. b) max n a b

abbrev and_upto : ℕ → ℕ → ℕ → ℕ
and_upto n a b = digits (λ b. 0) min n a b

or_upto_enough : (n m a b : ℕ) → a ≤ n → a ≤ m → or_upto n a b ≡ or_upto m a b
or_upto_enough zero zero a b h k = refl
or_upto_enough n m zero b h k = both n m
  where
    both : (n m : ℕ) → or_upto n 0 b ≡ or_upto m 0 b
    both zero zero = refl
    both zero (suc m) = refl
    both (suc n) zero = refl
    both (suc n) (suc m) = refl
or_upto_enough zero m (suc a) b h k = absurd (omega arith)
or_upto_enough n zero (suc a) b h k = absurd (omega arith)
or_upto_enough (suc n) (suc m) (suc a) b h k =
    omega (arith, or_upto_enough n m (suc a / 2) (b / 2) (omega arith) (omega arith))

and_upto_enough : (n m a b : ℕ) → a ≤ n → a ≤ m → and_upto n a b ≡ and_upto m a b
and_upto_enough zero zero a b h k = refl
and_upto_enough n m zero b h k = both n m
  where
    both : (n m : ℕ) → and_upto n 0 b ≡ and_upto m 0 b
    both zero zero = refl
    both zero (suc m) = refl
    both (suc n) zero = refl
    both (suc n) (suc m) = refl
and_upto_enough zero m (suc a) b h k = absurd (omega arith)
and_upto_enough n zero (suc a) b h k = absurd (omega arith)
and_upto_enough (suc n) (suc m) (suc a) b h k =
    omega (arith, and_upto_enough n m (suc a / 2) (b / 2) (omega arith) (omega arith))

pub or_zero : (b : ℕ) → bit_or 0 b ≡ b
or_zero b = bit_or-bitwise 0 b

and_of_zero : (b : ℕ) → bit_and 0 b ≡ 0
and_of_zero b = bit_and-bitwise 0 b

-- The lowest bit and the others.
or_step : (a b : ℕ) → bit_or a b ≡ bit_or (a / 2) (b / 2) * 2 + max (a % 2) (b % 2)
or_step zero b = omega (arith, or_zero b, or_zero (b / 2))
or_step (suc a) b = omega (
  arith,
  bit_or-bitwise (suc a) b,
  bit_or-bitwise (suc a / 2) (b / 2),
  or_upto_enough a (suc a / 2) (suc a / 2) (b / 2) (omega arith) (omega arith),
)

and_step : (a b : ℕ) → bit_and a b ≡ bit_and (a / 2) (b / 2) * 2 + min (a % 2) (b % 2)
and_step zero b = omega (arith, and_of_zero b, and_of_zero (b / 2))
and_step (suc a) b = omega (
  arith,
  bit_and-bitwise (suc a) b,
  bit_and-bitwise (suc a / 2) (b / 2),
  and_upto_enough a (suc a / 2) (suc a / 2) (b / 2) (omega arith) (omega arith),
)

or_half : (a b : ℕ) → bit_or a b / 2 ≡ bit_or (a / 2) (b / 2)
or_half a b = omega (arith, or_step a b)

or_low : (a b : ℕ) → bit_or a b % 2 ≡ max (a % 2) (b % 2)
or_low a b = omega (arith, or_step a b)

and_half : (a b : ℕ) → bit_and a b / 2 ≡ bit_and (a / 2) (b / 2)
and_half a b = omega (arith, and_step a b)

and_low : (a b : ℕ) → bit_and a b % 2 ≡ min (a % 2) (b % 2)
and_low a b = omega (arith, and_step a b)

-- Numbers are equal if their lowest bits and their halves are.
by_halves : (x y : ℕ) → x / 2 ≡ y / 2 → x % 2 ≡ y % 2 → x ≡ y
by_halves x y h k = omega arith

-- `|` passes through `&`.
and-or_upto :
    (n a b c : ℕ) → a ≤ n → b ≤ n → bit_and (bit_or a b) c ≡ bit_or (bit_and a c) (bit_and b c)
and-or_upto zero zero zero c h k = rw (or_zero 0, and_of_zero c, or_zero 0)
and-or_upto zero (suc a) b c h k = absurd (omega arith)
and-or_upto zero zero (suc b) c h k = absurd (omega arith)
and-or_upto (suc n) a b c h k =
    by_halves (bit_and (bit_or a b) c) (bit_or (bit_and a c) (bit_and b c))
      (rw
        (
          and_half (bit_or a b) c,
          or_half a b,
          or_half (bit_and a c) (bit_and b c),
          and_half a c,
          and_half b c,
        )
        (and-or_upto n (a / 2) (b / 2) (c / 2) (omega arith) (omega arith)))
      (rw
        (
          and_low (bit_or a b) c,
          or_low a b,
          or_low (bit_and a c) (bit_and b c),
          and_low a c,
          and_low b c,
        )
        (omega arith))

pub and-or : (a b c : ℕ) → bit_and (bit_or a b) c ≡ bit_or (bit_and a c) (bit_and b c)
and-or a b c = and-or_upto (a + b) a b c (omega arith) (omega arith)

-- Four numbers may be grouped either way.
or_swap_upto :
    (n a b c d : ℕ)
    → a + b + c + d ≤ n
    → bit_or (bit_or a b) (bit_or c d) ≡ bit_or (bit_or a c) (bit_or b d)
or_swap_upto zero zero zero zero zero h = refl
or_swap_upto zero (suc a) b c d h = absurd (omega arith)
or_swap_upto zero zero (suc b) c d h = absurd (omega arith)
or_swap_upto zero zero zero (suc c) d h = absurd (omega arith)
or_swap_upto zero zero zero zero (suc d) h = absurd (omega arith)
or_swap_upto (suc n) a b c d h =
    by_halves (bit_or (bit_or a b) (bit_or c d)) (bit_or (bit_or a c) (bit_or b d))
      (rw
        (
          or_half (bit_or a b) (bit_or c d),
          or_half a b,
          or_half c d,
          or_half (bit_or a c) (bit_or b d),
          or_half a c,
          or_half b d,
        )
        (or_swap_upto n (a / 2) (b / 2) (c / 2) (d / 2) (omega arith)))
      (rw
        (
          or_low (bit_or a b) (bit_or c d),
          or_low a b,
          or_low c d,
          or_low (bit_or a c) (bit_or b d),
          or_low a c,
          or_low b d,
        )
        (omega arith))

pub or_swap : (a b c d : ℕ) → bit_or (bit_or a b) (bit_or c d) ≡ bit_or (bit_or a c) (bit_or b d)
or_swap a b c d = or_swap_upto (a + b + c + d) a b c d (omega arith)

-- `|` passes through a shift to the left, and through those to the right that the source uses.
or_double : (a b : ℕ) → bit_or (a * 2) (b * 2) ≡ bit_or a b * 2
or_double a b =
    let e : a * 2 / 2 ≡ a = omega arith in
    let e' : b * 2 / 2 ≡ b = omega arith in
    by_halves (bit_or (a * 2) (b * 2)) (bit_or a b * 2)
      (rw (or_half (a * 2) (b * 2), e, e') (omega arith)) (omega (arith, or_low (a * 2) (b * 2)))

pub or_shift : (k a b : ℕ) → bit_or (a * 2 ^ k) (b * 2 ^ k) ≡ bit_or a b * 2 ^ k
or_shift zero a b =
    let one : (n : ℕ) → n * 2 ^ 0 ≡ n = λ n. omega arith in rw (one a, one b, one (bit_or a b))
or_shift (suc k) a b =
    let more : (n : ℕ) → n * 2 ^ suc k ≡ n * 2 ^ k * 2 = λ n. grind arith in
    rw (more a, more b, more (bit_or a b), or_double (a * 2 ^ k) (b * 2 ^ k), or_shift k a b)

abbrev PassesShift : ℕ → Type 0
PassesShift k = (a b : ℕ) → bit_or a b / 2 ^ k ≡ bit_or (a / 2 ^ k) (b / 2 ^ k)

pub or_right1 : PassesShift 1
or_right1 = or_half

pub or_right2 : PassesShift 2
or_right2 a b =
    let halves : (n : ℕ) → n / 2 ^ 2 ≡ n / 2 / 2 = λ n. omega arith in
    rw (halves a, halves b, halves (bit_or a b), or_half a b, or_half (a / 2) (b / 2))

pub or_right4 : PassesShift 4
or_right4 a b =
    let twice : (n : ℕ) → n / 2 ^ 4 ≡ n / 2 ^ 2 / 2 ^ 2 = λ n. omega arith in
    rw (twice a, twice b, twice (bit_or a b), or_right2 a b, or_right2 (a / 2 ^ 2) (b / 2 ^ 2))

pub or_right8 : PassesShift 8
or_right8 a b =
    let twice : (n : ℕ) → n / 2 ^ 8 ≡ n / 2 ^ 4 / 2 ^ 4 = λ n. omega arith in
    rw (twice a, twice b, twice (bit_or a b), or_right4 a b, or_right4 (a / 2 ^ 4) (b / 2 ^ 4))

pub or_right16 : PassesShift 16
or_right16 a b =
    let twice : (n : ℕ) → n / 2 ^ 16 ≡ n / 2 ^ 8 / 2 ^ 8 = λ n. omega arith in
    rw (twice a, twice b, twice (bit_or a b), or_right8 a b, or_right8 (a / 2 ^ 8) (b / 2 ^ 8))

-- The bits of a sum whose second part is shifted past the first.
pub or_disjoint : (k a b : ℕ) → a < 2 ^ k → bit_or a (b * 2 ^ k) ≡ a + b * 2 ^ k
or_disjoint zero a b h = let e : a ≡ 0 = omega arith in rw e (omega (arith, or_zero (b * 2 ^ 0)))
or_disjoint (suc k) a b h =
    let p : 2 ^ suc k ≡ 2 ^ k * 2 = grind arith in
    let more : b * 2 ^ suc k ≡ b * 2 ^ k * 2 = rw p (grind arith) in
    let half : b * 2 ^ k * 2 / 2 ≡ b * 2 ^ k = omega arith in
    let small : a / 2 < 2 ^ k = omega (arith, p) in
    rw more (
      by_halves (bit_or a (b * 2 ^ k * 2)) (a + b * 2 ^ k * 2)
        (rw (or_half a (b * 2 ^ k * 2), half, or_disjoint k (a / 2) b small) (omega arith))
        (omega (arith, or_low a (b * 2 ^ k * 2))))

-- A mask bounds the result.
and_le_upto : (n a b : ℕ) → a ≤ n → bit_and a b ≤ b
and_le_upto zero zero b h = omega (arith, and_of_zero b)
and_le_upto zero (suc a) b h = absurd (omega arith)
and_le_upto (suc n) a b h = omega (arith, and_step a b, and_le_upto n (a / 2) (b / 2) (omega arith))

pub and_le : (a b : ℕ) → bit_and a b ≤ b
and_le a b = and_le_upto a a b (omega arith)
