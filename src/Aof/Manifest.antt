-- ===== src/Aof/Manifest.antt =====
-- src/aof.rs: the line of the manifest, and `get_aof_filename` on the text of the manifest, with the
-- standard library's `str::split` and `str::lines`.
use rust_redis.Prelude.{
  ℕ, ◌≡◌, refl, ap, ◌∙◌, ◌==◌, false, Option, none, some, List, [], ◌∷◌, ◌++◌, Bytes, codes,
  if◌then◌else◌, get_elem?, All, All-append, arith,
}
use rust_redis.Prelude.Keys.{bytes_eq}

abbrev grow : ℕ → List Bytes → List Bytes
grow c [] = (c ∷ []) ∷ []
grow c (part ∷ parts) = (c ∷ part) ∷ parts

-- `str::split` at an ASCII character.
unfoldable pub split : ℕ → Bytes → List Bytes
split c [] = [] ∷ []
split c (d ∷ s) = let parts = split c s in if d == c then [] ∷ parts else grow d parts

-- The carriage return before a line feed belongs to the line's end.
abbrev strip_cr : Bytes → Bytes
strip_cr [] = []
strip_cr (c ∷ []) = if c == b'\r' then [] else c ∷ []
strip_cr (c ∷ s) = c ∷ strip_cr s

abbrev ended : List Bytes → List Bytes
ended [] = []
ended ([] ∷ []) = []
ended (line ∷ []) = line ∷ []
ended (line ∷ lines) = strip_cr line ∷ ended lines

-- `str::lines`
unfoldable pub lines : Bytes → List Bytes
unfolding split
lines s = ended (split b'\n' s)

abbrev incremental : Option Bytes → Option Bytes → Option Bytes
incremental (some aof_filename) (some t) =
    if bytes_eq t (codes "i") then some aof_filename else none
incremental _ _ = none

-- `for l in buffer.lines()`
unfoldable pub filename_loop : List Bytes → Option Bytes
unfolding split
filename_loop [] = none
filename_loop (l ∷ ls) =
    let parts = split b' ' l in
    let rest = filename_loop ls in
    elim (incremental (get_elem? parts 1) (get_elem? parts 5)) [
      | some aof_filename ↦ some aof_filename
      | none ↦ rest
    ]

-- `get_aof_filename`, once the text is read.
unfoldable pub filename_in : Bytes → Option Bytes
unfolding filename_loop lines
filename_in buffer = filename_loop (lines buffer)

-- `format!("file {} seq 1 type i", aof_base_filename)`
abbrev pub manifest_line : Bytes → Bytes
manifest_line aof_base_filename = codes "file " ++ aof_base_filename ++ codes " seq 1 type i"

-- The text has neither a space nor a line feed.
abbrev pub IsPlain : Bytes → Type 0
IsPlain s = All (λ c. ((c == b' ') ≡ false) × ((c == b'\n') ≡ false)) s

-- A part without the separator before the separator.
split-append :
    (c : ℕ) (s rest : Bytes)
    → All (λ d. (d == c) ≡ false) s
    → split c (s ++ c ∷ rest) ≡ s ∷ split c rest
unfolding split
split-append c [] rest tt = ground arith
split-append c (d ∷ s) rest (h, hs) = rw (h, split-append c s rest hs) refl

split-single : (c : ℕ) (s : Bytes) → All (λ d. (d == c) ≡ false) s → split c s ≡ s ∷ []
unfolding split
split-single c [] tt = refl
split-single c (d ∷ s) (h, hs) = rw (h, split-single c s hs) refl

no_spaces : (s : Bytes) → IsPlain s → All (λ d. (d == b' ') ≡ false) s
no_spaces [] tt = tt
no_spaces (c ∷ s) ((h, _), hs) = (h, no_spaces s hs)

no_feeds : (s : Bytes) → IsPlain s → All (λ d. (d == b'\n') ≡ false) s
no_feeds [] tt = tt
no_feeds (c ∷ s) ((_, h), hs) = (h, no_feeds s hs)

words-manifest_line :
    (name : Bytes)
    → IsPlain name
    → split b' ' (manifest_line name)
      ≡ codes "file" ∷ name ∷ codes "seq" ∷ codes "1" ∷ codes "type" ∷ codes "i" ∷ []
unfolding split
words-manifest_line name h =
    rw (split-append b' ' name (codes "seq 1 type i") (no_spaces name h)) refl

lines-manifest_line :
    (name : Bytes) → IsPlain name → lines (manifest_line name) ≡ manifest_line name ∷ []
unfolding lines
lines-manifest_line name h =
    let tail = All-append _ name (codes " seq 1 type i") (no_feeds name h) (all_plain) in
    ap ended (split-single b'\n' (manifest_line name) (refl, (refl, (refl, (refl, (refl, tail))))))
  where
    all_plain : All (λ d. (d == b'\n') ≡ false) (codes " seq 1 type i")
    all_plain = (
      refl,
      (
        refl,
        (refl, (refl, (refl, (refl, (refl, (refl, (refl, (refl, (refl, (refl, (refl, tt))))))))))),
      ),
    )

filename_loop-words :
    (l name : Bytes)
    → split b' ' l ≡ codes "file" ∷ name ∷ codes "seq" ∷ codes "1" ∷ codes "type" ∷ codes "i" ∷ []
    → filename_loop (l ∷ []) ≡ some name
unfolding filename_loop bytes_eq
filename_loop-words l name h = rw (h, filename_loop) refl

pub filename_in-manifest_line :
    (name : Bytes) → IsPlain name → filename_in (manifest_line name) ≡ some name
unfolding filename_in
filename_in-manifest_line name h =
    ap filename_loop (lines-manifest_line name h)
    ∙ filename_loop-words (manifest_line name) name (words-manifest_line name h)
