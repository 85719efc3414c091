-- ===== src/Resp/Progress.antt =====
-- src/resp.rs: how far the parsers of RESP read, and the rounds of their loops.
use rust_redis.Prelude.{
  ℕ, zero, suc, ◌<◌, ◌≤◌, ◌≡◌, refl, Bool, true, false, Option, none, some, List, [], ◌∷◌, ◌++◌,
  arith, Bytes, codes, crlf, ◌==◌, if◌then◌else◌, length, drop, length-drop,
}
use rust_redis.Number.{parse_u64, parse_i64}
use rust_redis.Parser.{Outcome, ok, err, panic, out_of_fuel, Parser, ◌>>=◌, or_else}
use rust_redis.Parser.Slices.{starts_with, byte, tag, take, take_until}
use rust_redis.Parser.Combinators.{and2, and3}
use rust_redis.Parser.Numeric.{integer_u64, integer_i64}
use rust_redis.Parser.Shrinks.{
  Within, Shrinks, Within-bind, Within-mono, byte-Within, tag-Shrinks, take-Shrinks,
  take_until-Shrinks, integer-Shrinks, and2-Shrinks, and3-Shrinks,
}
use rust_redis.Resp.{Resp}
use rust_redis.Resp.Decode.{
  parse_simple_string, parse_simple_error, parse_integer, parse_bulk_string, parse_rdb_file,
  present, parse_elements, parse_array, dispatch, parse_nested, parse_single_resp, resp_loop,
  parse_resp,
}

-- A parser that begins with `byte` leaves at most what follows the first byte.
and2-Within :
    {B : Type 0} (b c : ℕ) (q : Parser B) (s : Bytes)
    → Shrinks q
    → Within (length s) (and2 (byte b) q (c ∷ s))
and2-Within b c q s sq =
    Within-bind (length s) (length s) (byte b (c ∷ s)) _ (byte-Within b c s) λ x rest h.
      Within-bind (length rest) (length s) (q rest) _ (sq rest) λ y rest' h'. omega arith

and3-Within :
    {B C : Type 0} (b c : ℕ) (q : Parser B) (r : Parser C) (s : Bytes)
    → Shrinks q
    → Shrinks r
    → Within (length s) (and3 (byte b) q r (c ∷ s))
and3-Within b c q r s sq sr =
    Within-bind (length s) (length s) (byte b (c ∷ s)) _ (byte-Within b c s) λ x rest h.
      Within-bind (length rest) (length s) (q rest) _ (sq rest) λ y rest' h'.
        Within-bind (length rest') (length s) (r rest') _ (sr rest') λ z rest'' h''. omega arith

-- A value was parsed, with at most `n` bytes left, or the parser stopped with an error or a panic.
abbrev pub Gives : ℕ → Outcome (Option Resp × Bytes) → Type 0
Gives n (ok (some r, rest)) = length rest ≤ n
Gives n (ok (none, rest)) = ⊥
Gives n (err e) = Unit
Gives n panic = Unit
Gives n out_of_fuel = ⊥

Gives-bind :
    {A : Type 0} (n k : ℕ) (m : Outcome (A × Bytes)) (f : A × Bytes → Outcome (Option Resp × Bytes))
    → Within n m
    → ((a : A) (rest : Bytes) → length rest ≤ n → Gives k (f (a, rest)))
    → Gives k (m >>= f)
Gives-bind n k (ok (a, rest)) f w g = g a rest w
Gives-bind n k (err e) f w g = tt
Gives-bind n k panic f w g = tt
Gives-bind n k out_of_fuel f w g = absurd w

module _ (n : ℕ) where
  Gives-or_else :
      (m o : Outcome (Option Resp × Bytes)) → Gives n m → Gives n o → Gives n (or_else m o)
  Gives-or_else (ok (some r, rest)) o w v = w
  Gives-or_else (ok (none, rest)) o w v = w
  Gives-or_else (err e) o w v = v
  Gives-or_else panic o w v = w
  Gives-or_else out_of_fuel o w v = w

  Gives-if :
      (b : Bool) (m o : Outcome (Option Resp × Bytes))
      → Gives n m
      → Gives n o
      → Gives n (if b then m else o)
  Gives-if true m o w v = w
  Gives-if false m o w v = v

  Gives-Within : (m : Outcome (Option Resp × Bytes)) → Gives n m → Within n m
  Gives-Within (ok (some r, rest)) w = w
  Gives-Within (ok (none, rest)) w = absurd w
  Gives-Within (err e) w = tt
  Gives-Within panic w = tt
  Gives-Within out_of_fuel w = absurd w

abbrev After : ℕ → Bytes → Parser (Option Resp) → Type 0
After c s p = Gives (length s) (p (c ∷ s))

parse_simple_string-After : (c : ℕ) (s : Bytes) → After c s parse_simple_string
unfolding parse_simple_string
parse_simple_string-After c s =
    Gives-bind (length s) (length s) (and3 (byte b'+') (take_until crlf) (tag crlf) (c ∷ s)) _
      (and3-Within b'+' c (take_until crlf) (tag crlf) s (take_until-Shrinks crlf)
        (tag-Shrinks crlf))
      λ parts rest h. h

parse_simple_error-After : (c : ℕ) (s : Bytes) → After c s parse_simple_error
unfolding parse_simple_error
parse_simple_error-After c s =
    Gives-bind (length s) (length s) (and3 (byte b'-') (take_until crlf) (tag crlf) (c ∷ s)) _
      (and3-Within b'-' c (take_until crlf) (tag crlf) s (take_until-Shrinks crlf)
        (tag-Shrinks crlf))
      λ parts rest h. h

parse_integer-After : (c : ℕ) (s : Bytes) → After c s parse_integer
unfolding parse_integer
parse_integer-After c s =
    Gives-bind (length s) (length s) (and3 (byte b':') integer_i64 (tag crlf) (c ∷ s)) _
      (and3-Within b':' c integer_i64 (tag crlf) s (integer-Shrinks parse_i64) (tag-Shrinks crlf))
      λ parts rest h. h

parse_rdb_file-After : (c : ℕ) (s : Bytes) → After c s parse_rdb_file
unfolding parse_rdb_file
parse_rdb_file-After c s =
    Gives-bind (length s) (length s) (and2 (byte b'$') integer_u64 (c ∷ s)) _
      (and2-Within b'$' c integer_u64 s (integer-Shrinks parse_u64))
      λ head rest h.
        Gives-bind (length rest) (length s) (and2 (tag crlf) (take head.1) rest) _
          (and2-Shrinks (tag crlf) (take head.1) (tag-Shrinks crlf) (take-Shrinks head.1) rest)
          λ parts rest' h'. omega arith

parse_bulk_string-After : (c : ℕ) (s : Bytes) → After c s parse_bulk_string
unfolding parse_bulk_string
parse_bulk_string-After c s =
    Gives-bind (length s) (length s) (and2 (byte b'$') integer_u64 (c ∷ s)) _
      (and2-Within b'$' c integer_u64 s (integer-Shrinks parse_u64))
      λ head rest h.
        Gives-bind (length rest) (length s) (and3 (tag crlf) (take head.1) (tag crlf) rest) _
          (and3-Shrinks (tag crlf) (take head.1) (tag crlf) (tag-Shrinks crlf) (take-Shrinks head.1)
            (tag-Shrinks crlf) rest)
          λ parts rest' h'. omega arith

Within-present :
    {B : Type 0} (k l : ℕ) (el : Option Resp) (g : Resp → Outcome (B × Bytes))
    → ((r : Resp) → Within k (g r))
    → Within k (present l el >>= g)
Within-present k l none g h = tt
Within-present k l (some r) g h = h r

-- `parse` shrinks the inputs of at most `n` bytes.
abbrev Covers : ℕ → Parser (Option Resp) → Type 0
Covers n parse = (input : Bytes) → length input ≤ n → Within (length input) (parse input)

parse_elements-Within :
    (parse : Parser (Option Resp)) (n l rounds : ℕ) (input : Bytes)
    → Covers n parse
    → length input ≤ n
    → Within (length input) (parse_elements parse l rounds input)
unfolding parse_elements
parse_elements-Within parse n l zero input c h = omega arith
parse_elements-Within parse n l (suc rounds) input c h =
    Within-bind (length input) (length input) (parse input) _ (c input h) λ el rest h1.
      Within-present (length input) l el _ λ r.
        Within-bind (length rest) (length input) (parse_elements parse l rounds rest) _
          (parse_elements-Within parse n l rounds rest c (omega arith)) λ more rest' h2. omega arith

parse_array-After :
    (parse : Parser (Option Resp)) (c : ℕ) (s : Bytes)
    → Covers (length s) parse
    → After c s (parse_array parse)
unfolding parse_array
parse_array-After parse c s cover =
    Gives-bind (length s) (length s) (and3 (byte b'*') integer_u64 (tag crlf) (c ∷ s)) _
      (and3-Within b'*' c integer_u64 (tag crlf) s (integer-Shrinks parse_u64) (tag-Shrinks crlf))
      λ head rest h.
        Gives-bind (length rest) (length s) (parse_elements parse head.1 head.1 rest) _
          (parse_elements-Within parse (length s) head.1 head.1 rest cover h)
          λ els rest' h'. omega arith

dispatch-After :
    (parse : Parser (Option Resp)) (c : ℕ) (s : Bytes)
    → Covers (length s) parse
    → Gives (length s) (dispatch parse c (c ∷ s))
unfolding dispatch
dispatch-After parse c s cover =
    let n = length s in
    Gives-if n (c == b'$') _ _
      (Gives-or_else n _ _ (parse_bulk_string-After c s) (parse_rdb_file-After c s))
      (Gives-if n (c == b'+') _ _ (parse_simple_string-After c s) (
        Gives-if n (c == b'-') _ _ (parse_simple_error-After c s) (
          Gives-if n (c == b'*') _ _ (parse_array-After parse c s cover)
            (Gives-if n (c == b':') _ _ (parse_integer-After c s) tt))))

parse_nested-After :
    (f c : ℕ) (s : Bytes)
    → Covers (length s) (parse_nested f)
    → Gives (length s) (parse_nested (suc f) (c ∷ s))
unfolding parse_nested
parse_nested-After f c s cover =
    let n = length s in
    let rest : length (drop 4 s) ≤ n = omega (arith, length-drop 4 s) in
    Gives-if n (starts_with (codes "$-1\r\n") (c ∷ s)) _ _ rest (
      Gives-if n (starts_with (codes "*-1\r\n") (c ∷ s)) _ _ rest
        (dispatch-After (parse_nested f) c s cover))

parse_nested-Covers : (f : ℕ) → Covers f (parse_nested (suc f))
parse_nested-Covers f [] h = unfold parse_nested in omega arith
parse_nested-Covers zero (c ∷ s) h = elim h [ ]
parse_nested-Covers (suc f) (c ∷ s) h = Within-mono (length s) (suc (length s)) _ (omega arith) (
    Gives-Within (length s) _
      (parse_nested-After (suc f) c s λ input k. parse_nested-Covers f input (omega arith)))

-- On every input that is not empty `parse_single_resp` stops: with a value, and then what it leaves
-- is shorter than the input, or with an error or a panic, but never with `None`.
pub parse_single_resp-Gives : (c : ℕ) (s : Bytes) → Gives (length s) (parse_single_resp (c ∷ s))
unfolding parse_single_resp
parse_single_resp-Gives c s =
    parse_nested-After (suc (length s)) c s (λ input k. parse_nested-Covers (length s) input k)

-- The loop stopped by a panic, or at the end of the input.
abbrev pub AllRead : Outcome (List Resp × Bytes) → Type 0
AllRead (ok (resp, rest)) = rest ≡ []
AllRead (err e) = ⊥
AllRead panic = Unit
AllRead out_of_fuel = ⊥

resp_round :
    (f : ℕ) (acc : List Resp) (input : Bytes) (n : ℕ) (o : Outcome (Option Resp × Bytes))
    → parse_single_resp input ≡ o
    → Gives n o
    → ((ms : List Resp) (y : Bytes) → length y ≤ n → AllRead (resp_loop f ms y))
    → AllRead (resp_loop (suc f) acc input)
unfolding resp_loop
resp_round f acc input n (ok (some r, y)) e g ih = rw (e, resp_loop) (ih (acc ++ r ∷ []) y g)
resp_round f acc input n (ok (none, y)) e g ih = absurd g
resp_round f acc input n (err x) e g ih = rw (e, resp_loop) tt
resp_round f acc input n panic e g ih = rw (e, resp_loop) tt
resp_round f acc input n out_of_fuel e g ih = absurd g

resp_loop-AllRead :
    (f : ℕ) (acc : List Resp) (input : Bytes) → length input < f → AllRead (resp_loop f acc input)
resp_loop-AllRead zero acc input h = elim h [ ]
resp_loop-AllRead (suc f) acc [] h = unfold resp_loop parse_single_resp in refl
resp_loop-AllRead (suc f) acc (c ∷ s) h =
    resp_round f acc (c ∷ s) (length s) (parse_single_resp (c ∷ s)) refl
      (parse_single_resp-Gives c s) λ ms y k. resp_loop-AllRead f ms y (omega arith)

-- Whatever the bytes, `parse_resp` stops: it panics, or it returns and has read them all. It never
-- returns an error.
pub parse_resp-AllRead : (input : Bytes) → AllRead (parse_resp input)
unfolding parse_resp
parse_resp-AllRead input = resp_loop-AllRead (suc (length input)) [] input (omega arith)
