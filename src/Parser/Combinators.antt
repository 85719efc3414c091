-- ===== src/Parser/Combinators.antt =====
-- src/parser.rs: the combinators. The macros `and!` and `or!` are one function for each arity in use.
use rust_redis.Prelude
use rust_redis.Prelude.{ℕ, zero, suc, ◌-◌, Option, none, some, List, [], ◌∷◌, ◌++◌, Bytes, length}
use rust_redis.Parser.{Outcome, ok, err, panic, out_of_fuel, Parser, no_matches, ◌>>=◌, or_else}

module _ {ℓ} {A B : Type ℓ} where
  abbrev pub and2 : Parser A → Parser B → Parser (A × B)
  and2 p1 p2 input = do (a, rest) ← p1 input; (b, rest') ← p2 rest; ok ((a, b), rest')

module _ {ℓ} {A B C : Type ℓ} where
  abbrev pub and3 : Parser A → Parser B → Parser C → Parser (A × B × C)
  and3 p1 p2 p3 input = do
    (a, rest1) ← p1 input
    (b, rest2) ← p2 rest1
    (c, rest3) ← p3 rest2
    ok ((a, b, c), rest3)

module _ {ℓ} {A B C D E : Type ℓ} where
  abbrev pub and5 :
      Parser A → Parser B → Parser C → Parser D → Parser E → Parser (A × B × C × D × E)
  and5 p1 p2 p3 p4 p5 input = do
    (a, rest1) ← p1 input
    (b, rest2) ← p2 rest1
    (c, rest3) ← p3 rest2
    (d, rest4) ← p4 rest3
    (e, rest5) ← p5 rest4
    ok ((a, b, c, d, e), rest5)

module _ {ℓ} {A : Type ℓ} where
  abbrev pub or2 : Parser A → Parser A → Parser A
  or2 p1 p2 input = or_else (p1 input) (p2 input)

  abbrev pub or3 : Parser A → Parser A → Parser A → Parser A
  or3 p1 p2 p3 input = or_else (p1 input) (or_else (p2 input) (p3 input))

  abbrev pub or4 : Parser A → Parser A → Parser A → Parser A → Parser A
  or4 p1 p2 p3 p4 input = or_else (p1 input) (or_else (p2 input) (or_else (p3 input) (p4 input)))

  abbrev pub opt_outcome : Outcome (A × Bytes) → Bytes → Outcome (Option A × Bytes)
  opt_outcome (ok (a, rest)) input = ok (some a, rest)
  opt_outcome (err e) input = ok (none, input)
  opt_outcome panic input = panic
  opt_outcome out_of_fuel input = out_of_fuel

  unfoldable pub opt : Parser A → Parser (Option A)
  opt p input = opt_outcome (p input) input

  -- The loop of `many0`, with the matches so far.
  unfoldable pub many_loop : ℕ → Parser A → List A → Parser (List A)
  many_loop zero p matches rest = out_of_fuel
  many_loop (suc fuel) p matches rest = elim (p rest) [
    | ok (r, new_rest) ↦ many_loop fuel p (matches ++ r ∷ []) new_rest
    | err e ↦ ok (matches, rest)
    | panic ↦ panic
    | out_of_fuel ↦ out_of_fuel
  ]

  -- One round for each byte, and one for the error that ends the loop.
  unfoldable pub many0 : Parser A → Parser (List A)
  unfolding many_loop
  many0 p input = many_loop (suc (length input)) p [] input

  abbrev some_matches : List A × Bytes → Outcome (List A × Bytes)
  some_matches ([], rest) = err no_matches
  some_matches (m ∷ ms, rest) = ok (m ∷ ms, rest)

  unfoldable pub many1 : Parser A → Parser (List A)
  unfolding many_loop
  many1 p input = many_loop (suc (length input)) p [] input >>= some_matches

  unfoldable pub recognize : Parser A → Parser Bytes
  recognize p input = do
    (_, rest) ← p input
    ok (Prelude.take (length input - length rest) input, rest)
