-- ===== src/Parser/Shrinks.antt =====
-- src/parser.rs: which parsers give back no more input than they were given, and when many0 has rounds
-- enough.
use rust_redis.Prelude.{
  ℕ, zero, suc, ◌+◌, ◌-◌, ◌<◌, ◌≤◌, ◌≡◌, refl, inl, inr, Bool, true, false, Option, none, some,
  List, [], ◌∷◌, ◌++◌, arith, Bytes, ltb, ◌==◌, if◌then◌else◌, Bool-cases, length, drop,
  length-drop,
}
use rust_redis.Number.{is_digit}
use rust_redis.Parser.{Outcome, ok, err, panic, out_of_fuel, Parser, ◌>>=◌, or_else}
use rust_redis.Parser.Slices.{
  starts_with, byte, tag, take, count_while, take_while, until_from, take_until,
}
use rust_redis.Parser.Combinators.{and2, and3, or2, opt, opt_outcome, recognize, many_loop, many0}
use rust_redis.Parser.Numeric.{digits, sign, number, integer, parsed}

-- The parser stopped, with at most `n` bytes left if it succeeded.
abbrev pub Within {ℓ} : {A : Type ℓ} → ℕ → Outcome (A × Bytes) → Type 0
Within n (ok (a, rest)) = length rest ≤ n
Within n (err e) = Unit
Within n panic = Unit
Within n out_of_fuel = ⊥

abbrev pub Shrinks {ℓ} : {A : Type ℓ} → Parser A → Type 0
Shrinks p = (input : Bytes) → Within (length input) (p input)

module _ {ℓ κ} {A : Type ℓ} {B : Type κ} where
  pub Within-bind :
      (n k : ℕ) (m : Outcome (A × Bytes)) (f : A × Bytes → Outcome (B × Bytes))
      → Within n m
      → ((a : A) (rest : Bytes) → length rest ≤ n → Within k (f (a, rest)))
      → Within k (m >>= f)
  Within-bind n k (ok (a, rest)) f w g = g a rest w
  Within-bind n k (err e) f w g = tt
  Within-bind n k panic f w g = tt
  Within-bind n k out_of_fuel f w g = w

module _ {ℓ} {A : Type ℓ} where
  pub Within-mono : (n k : ℕ) (m : Outcome (A × Bytes)) → n ≤ k → Within n m → Within k m
  Within-mono n k (ok (a, rest)) h w = omega arith
  Within-mono n k (err e) h w = tt
  Within-mono n k panic h w = tt
  Within-mono n k out_of_fuel h w = w

  pub Within-or_else :
      (n : ℕ) (m o : Outcome (A × Bytes)) → Within n m → Within n o → Within n (or_else m o)
  Within-or_else n (ok (a, rest)) o w v = w
  Within-or_else n (err e) o w v = v
  Within-or_else n panic o w v = w
  Within-or_else n out_of_fuel o w v = w

  pub Within-if :
      (n : ℕ) (b : Bool) (m o : Outcome (A × Bytes))
      → Within n m
      → Within n o
      → Within n (if b then m else o)
  Within-if n true m o w v = w
  Within-if n false m o w v = v

drop-shrinks : (n : ℕ) (input : Bytes) → length (drop n input) ≤ length input
drop-shrinks n input = omega (arith, length-drop n input)

-- After its first byte.
pub byte-Within : (b c : ℕ) (s : Bytes) → Within (length s) (byte b (c ∷ s))
unfolding byte
byte-Within b c s = Within-if (length s) (c == b) _ _ (omega arith) tt

pub byte-Shrinks : (b : ℕ) → Shrinks (byte b)
byte-Shrinks b [] = unfold byte in tt
byte-Shrinks b (c ∷ s) = Within-mono (length s) (suc (length s)) _ (omega arith) (byte-Within b c s)

pub tag-Shrinks : (s : Bytes) → Shrinks (tag s)
unfolding tag
tag-Shrinks s input =
    Within-if (length input) (starts_with s input) _ _ (drop-shrinks (length s) input) tt

pub take-Shrinks : (n : ℕ) → Shrinks (take n)
unfolding take
take-Shrinks n input = Within-if (length input) (ltb (length input) n) _ _ tt (drop-shrinks n input)

take_while-Shrinks : (pred : ℕ → Bool) → Shrinks (take_while pred)
unfolding take_while
take_while-Shrinks pred input =
    Within-if (length input) (count_while pred input == 0) _ _ tt
      (drop-shrinks (count_while pred input) input)

until_from-Within :
    (rounds : ℕ) (d : Bytes) (i : ℕ) (input : Bytes)
    → Within (length input) (until_from rounds d i input)
unfolding until_from
until_from-Within zero d i input = tt
until_from-Within (suc rounds) d i input = elim (Bool-cases (starts_with d (drop i input))) [
  | inl e ↦ rw (e, until_from) (drop-shrinks i input)
  | inr e ↦ rw (e, until_from) (until_from-Within rounds d (i + 1) input)
]

pub take_until-Shrinks : (d : Bytes) → Shrinks (take_until d)
unfolding take_until
take_until-Shrinks d input =
    Within-if (length input) (ltb (length input) (length d)) _ _ tt
      (until_from-Within (length input - length d + 1) d 0 input)

module _ {ℓ} {A B : Type ℓ} where
  pub and2-Shrinks : (p : Parser A) (q : Parser B) → Shrinks p → Shrinks q → Shrinks (and2 p q)
  and2-Shrinks p q sp sq input =
      Within-bind (length input) (length input) (p input) _ (sp input) λ a rest h.
        Within-bind (length rest) (length input) (q rest) _ (sq rest) λ b rest' h'. omega arith

module _ {ℓ} {A B C : Type ℓ} where
  pub and3-Shrinks :
      (p : Parser A) (q : Parser B) (r : Parser C)
      → Shrinks p
      → Shrinks q
      → Shrinks r
      → Shrinks (and3 p q r)
  and3-Shrinks p q r sp sq sr input =
      Within-bind (length input) (length input) (p input) _ (sp input) λ a rest h.
        Within-bind (length rest) (length input) (q rest) _ (sq rest) λ b rest' h'.
          Within-bind (length rest') (length input) (r rest') _ (sr rest')
            λ c rest'' h''. omega arith

module _ {ℓ} {A : Type ℓ} where
  recognize-Shrinks : (p : Parser A) → Shrinks p → Shrinks (recognize p)
  unfolding recognize
  recognize-Shrinks p sp input =
      Within-bind (length input) (length input) (p input) _ (sp input) λ a rest h. h

  or2-Shrinks : (p q : Parser A) → Shrinks p → Shrinks q → Shrinks (or2 p q)
  or2-Shrinks p q sp sq input =
      Within-or_else (length input) (p input) (q input) (sp input) (sq input)

  Within-opt :
      (m : Outcome (A × Bytes)) (input : Bytes)
      → Within (length input) m
      → Within (length input) (opt_outcome m input)
  Within-opt (ok (a, rest)) input w = w
  Within-opt (err e) input w = omega arith
  Within-opt panic input w = tt
  Within-opt out_of_fuel input w = w

  opt-Shrinks : (p : Parser A) → Shrinks p → Shrinks (opt p)
  unfolding opt
  opt-Shrinks p sp input = Within-opt (p input) input (sp input)

number-Shrinks : Shrinks number
unfolding number digits sign
number-Shrinks = recognize-Shrinks (and2 (opt sign) digits) (
    and2-Shrinks (opt sign) digits
      (opt-Shrinks sign (
        recognize-Shrinks _
          (or2-Shrinks (byte b'-') (byte b'+') (byte-Shrinks b'-') (byte-Shrinks b'+'))))
      (recognize-Shrinks _ (take_while-Shrinks is_digit)))

Within-parsed {ℓ} :
    {T : Type ℓ} (k : ℕ) (bytes rest : Bytes) (o : Option T)
    → length rest ≤ k
    → Within k (parsed bytes o >>= λ n. ok (n, rest))
Within-parsed k bytes rest none h = tt
Within-parsed k bytes rest (some v) h = h

pub integer-Shrinks {ℓ} : {T : Type ℓ} (from_str : Bytes → Option T) → Shrinks (integer from_str)
unfolding integer
integer-Shrinks from_str input =
    Within-bind (length input) (length input) (number input) _ (number-Shrinks input)
      λ bytes rest h. Within-parsed (length input) bytes rest (from_str bytes) h

-- The parser stopped, with less than `n` bytes left if it succeeded.
abbrev pub Taken {ℓ} : {A : Type ℓ} → ℕ → Outcome (A × Bytes) → Type 0
Taken n (ok (a, rest)) = length rest < n
Taken n (err e) = Unit
Taken n panic = Unit
Taken n out_of_fuel = ⊥

abbrev pub Consumes {ℓ} : {A : Type ℓ} → Parser A → Type 0
Consumes p = (input : Bytes) → Taken (length input) (p input)

module _ {ℓ} {A : Type ℓ} where
  pub Taken-suc : (n : ℕ) (m : Outcome (A × Bytes)) → Within n m → Taken (suc n) m
  Taken-suc n (ok (a, rest)) w = omega arith
  Taken-suc n (err e) w = tt
  Taken-suc n panic w = tt
  Taken-suc n out_of_fuel w = w

  pub Taken-if :
      (n : ℕ) (b : Bool) (m o : Outcome (A × Bytes))
      → Taken n m
      → Taken n o
      → Taken n (if b then m else o)
  Taken-if n true m o w v = w
  Taken-if n false m o w v = v

  many_round :
      (f : ℕ) (p : Parser A) (matches : List A) (rest : Bytes) (o : Outcome (A × Bytes))
      → p rest ≡ o
      → Taken (length rest) o
      → length rest < suc f
      → ((ms : List A) (y : Bytes) → length y < f → Within (length y) (many_loop f p ms y))
      → Within (length rest) (many_loop (suc f) p matches rest)
  unfolding many_loop
  many_round f p matches rest (ok (r, y)) e w h ih =
      rw (e, many_loop)
        (Within-mono (length y) (length rest) _ (omega arith)
          (ih (matches ++ r ∷ []) y (omega arith)))
  many_round f p matches rest (err x) e w h ih = rw (e, many_loop) (omega arith)
  many_round f p matches rest panic e w h ih = rw (e, many_loop) tt
  many_round f p matches rest out_of_fuel e w h ih = absurd w

  many_loop-Within :
      (f : ℕ) (p : Parser A) (matches : List A) (rest : Bytes)
      → Consumes p
      → length rest < f
      → Within (length rest) (many_loop f p matches rest)
  many_loop-Within zero p matches rest c h = elim h [ ]
  many_loop-Within (suc f) p matches rest c h =
      many_round f p matches rest (p rest) refl (c rest) h
        (λ ms y hy. many_loop-Within f p ms y c hy)

  -- `many0` ends for every parser that takes a byte whenever it succeeds, whatever the input.
  pub many0-Shrinks : (p : Parser A) → Consumes p → Shrinks (many0 p)
  unfolding many0
  many0-Shrinks p c input = many_loop-Within (suc (length input)) p [] input c (omega arith)
