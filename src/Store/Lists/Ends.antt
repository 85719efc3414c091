-- ===== src/Store/Lists/Ends.antt =====
-- What RPUSH, LPUSH and LPOP do to the ends of a list.
use mathlib.Core.List.{reverse, reverse-append}
use rust_redis.Prelude.{
  ℕ, zero, suc, ◌≡◌, refl, sym, ap, ◌∙◌, Option, none, some, List, [], ◌∷◌, ◌++◌, append_assoc,
  append-nil, length-append, Bool-cases, inl, inr, ◌+◌, arith, Bytes, if◌then◌else◌, length, take,
  drop,
}
use rust_redis.Prelude.Keys.{bytes_eq, bytes_eq_iff, bytes_keys, lookup-insert}
use rust_redis.Prelude.Int.{pos}
use rust_redis.Resp.{Resp, integer, array, vec, bulk_string, null_bulk_string}
use rust_redis.Command.{Key}
use rust_redis.Store.{Store, list, TryExecuteResult, done, list_at, put, expire_at}
use rust_redis.Store.Lists.{bulks, push_fronts, rpushed, lpushed, rpush, lpush, pop_loop, lpop}

length_lists : (xs ys : List Bytes) → length (xs ++ ys) ≡ length xs + length ys
length_lists = length-append

-- The list at a key, the empty one where there is none.
abbrev pub or_nil : Option (List Bytes) → List Bytes
or_nil none = []
or_nil (some l) = l

abbrev pub contents : Key → Store → List Bytes
contents key self = or_nil (list_at key self)

list_at-put :
    (k key : Key) (l : List Bytes) (ex : Option ℕ) (self : Store)
    → list_at key (put k (list l) ex self) ≡ (if bytes_eq k key then some l else list_at key self)
unfolding list_at put
list_at-put k key l ex self = rw lookup-insert (ground arith)

pub contents-put :
    (k key : Key) (l : List Bytes) (ex : Option ℕ) (self : Store)
    → contents key (put k (list l) ex self) ≡ (if bytes_eq k key then l else contents key self)
contents-put k key l ex self = rw (list_at-put k key l ex self) (ground arith)

push_fronts-reverse : (elements l : List Bytes) → push_fronts elements l ≡ reverse elements ++ l
unfolding push_fronts
push_fronts-reverse [] l = refl
push_fronts-reverse (e ∷ elements) l =
    push_fronts-reverse elements (e ∷ l)
    ∙ (sym (append_assoc (reverse elements) (e ∷ []) l)
        ∙ ap (λ (r : List Bytes). r ++ l) (sym (reverse-append (e ∷ []) elements)))

-- An existing list keeps its expiration, a new one has none.
abbrev kept : Option (List Bytes) → Option ℕ → Option ℕ
kept none ex = none
kept (some l) ex = ex

abbrev written : Key → List Bytes → Store → Store × ℕ
written key l self =
    (put key (list l) (kept (list_at key self) (expire_at key self)) self, length l)

rpushed-written :
    (key : Key) (elements : List Bytes) (self : Store)
    → rpushed key elements self ≡ written key (contents key self ++ elements) self
unfolding rpushed
rpushed-written key elements self = go (list_at key self) refl
  where
    go :
        (o : Option (List Bytes))
        → list_at key self ≡ o
        → rpushed key elements self ≡ written key (contents key self ++ elements) self
    go none e = rw (e, rpushed)
    go (some l) e = rw (e, rpushed)

length-reverse : (l : List Bytes) → length (reverse l) ≡ length l
length-reverse [] = refl
length-reverse (e ∷ l) =
    let split = ap (λ (r : List Bytes). length r) (reverse-append (e ∷ []) l) in
    omega (arith, split, length_lists (reverse l) (e ∷ []), length-reverse l)

lpushed-written :
    (key : Key) (elements : List Bytes) (self : Store)
    → lpushed key elements self ≡ written key (reverse elements ++ contents key self) self
unfolding lpushed
lpushed-written key elements self = go (list_at key self) refl
  where
    go :
        (o : Option (List Bytes))
        → list_at key self ≡ o
        → lpushed key elements self ≡ written key (reverse elements ++ contents key self) self
    go none e = rw (e, lpushed, append-nil (reverse elements), ← length-reverse elements)
    go (some l) e = rw (e, lpushed) (rw (push_fronts-reverse elements l))

pub rpushed-waiters :
    (key : Key) (elements : List Bytes) (self : Store)
    → (rpushed key elements self).0.list_blpop_waiters ≡ self.list_blpop_waiters
unfolding put
rpushed-waiters key elements self = rw (rpushed-written key elements self) refl

pub lpushed-waiters :
    (key : Key) (elements : List Bytes) (self : Store)
    → (lpushed key elements self).0.list_blpop_waiters ≡ self.list_blpop_waiters
unfolding put
lpushed-waiters key elements self = rw (lpushed-written key elements self) refl

pub rpushed-sent :
    (key : Key) (elements : List Bytes) (self : Store)
    → (rpushed key elements self).0.sent ≡ self.sent
unfolding put
rpushed-sent key elements self = rw (rpushed-written key elements self) refl

pub lpushed-sent :
    (key : Key) (elements : List Bytes) (self : Store)
    → (lpushed key elements self).0.sent ≡ self.sent
unfolding put
lpushed-sent key elements self = rw (lpushed-written key elements self) refl

-- The lists that RPUSH and LPUSH leave before blocked clients take from them, and the replies.
pub pushed-contents :
    (key k : Key) (elements : List Bytes) (self : Store)
    → (contents k (rpushed key elements self).0
        ≡ (if bytes_eq key k then contents key self ++ elements else contents k self))
      × (contents k (lpushed key elements self).0
          ≡ (if bytes_eq key k then reverse elements ++ contents key self else contents k self))
      × ((rpush key elements self).1
          ≡ done (integer (pos (length (contents key self) + length elements))))
      × ((lpush key elements self).1
          ≡ done (integer (pos (length (contents key self) + length elements))))
unfolding rpush lpush
pushed-contents key k elements self =
    let old = contents key self in
    let reply : ℕ → TryExecuteResult = λ n. done (integer (pos n)) in
    let grown : length (reverse elements ++ old) ≡ length old + length elements =
      omega (arith, length_lists (reverse elements) old, length-reverse elements) in
    rw (rpushed-written key elements self, lpushed-written key elements self)
      (
        contents-put key k (old ++ elements) _ self,
        contents-put key k (reverse elements ++ old) _ self,
        ap reply (length_lists old elements),
        ap reply grown,
      )

-- LPOP with a count takes that many elements off the front of the list, or all if there are fewer.
pop_loop_lem : (c : ℕ) (l : List Bytes) → pop_loop c l ≡ (bulks (take c l), drop c l)
unfolding pop_loop
pop_loop_lem zero l = refl
pop_loop_lem (suc c) [] = refl
pop_loop_lem (suc c) (e ∷ l) = rw (pop_loop_lem c l)

-- `None` pops one element and replies with it alone.
abbrev pub popped : Option ℕ → ℕ
popped none = 1
popped (some c) = c

abbrev pub pop_reply : Option ℕ → List Bytes → Resp
pop_reply count [] = null_bulk_string
pop_reply none (e ∷ l) = bulk_string e
pop_reply (some c) (e ∷ l) = array (vec (bulks (take c (e ∷ l))))

module _ (key : Key) (self : Store) where
  lpop-none :
      (count : Option ℕ)
      → list_at key self ≡ none
      → lpop key count self ≡ (self, done null_bulk_string)
  unfolding lpop
  lpop-none count e = rw (e, lpop)

  lpop-nil :
      (count : Option ℕ)
      → list_at key self ≡ some []
      → lpop key count self ≡ (self, done null_bulk_string)
  unfolding lpop
  lpop-nil count e = rw (e, lpop)

  lpop-cons :
      (count : Option ℕ) (x : Bytes) (l : List Bytes)
      → list_at key self ≡ some (x ∷ l)
      → lpop key count self ≡ (
        put key (list (drop (popped count) (x ∷ l))) (expire_at key self) self,
        done (pop_reply count (x ∷ l)),
      )
  unfolding lpop
  lpop-cons none x l e = rw (e, lpop)
  lpop-cons (some c) x l e = rw (e, lpop) (rw (pop_loop_lem c (x ∷ l)))

drop-nil : (n : ℕ) → drop {A = Bytes} n [] ≡ []
drop-nil zero = refl
drop-nil (suc n) = refl

unchanged :
    (key k : Key) (n : ℕ) (self : Store)
    → contents key self ≡ []
    → contents k self ≡ (if bytes_eq key k then drop n (contents key self) else contents k self)
unchanged key k n self e = elim (Bool-cases (bytes_eq key k)) [
  | inl same ↦ rw (same, e, drop-nil n) (rw ((bytes_eq_iff key k).0 same) at e)
  | inr other ↦ rw other
]

-- LPOP replies with the elements at the front of the list, in order, and leaves the rest of it: one
-- element without a count, at most the count with one, and null for a key that holds no list or an
-- empty one. The lists of other keys stay.
pub lpop-contents :
    (key k : Key) (count : Option ℕ) (self : Store)
    → ((lpop key count self).1 ≡ done (pop_reply count (contents key self)))
      × (contents k (lpop key count self).0
          ≡ (if bytes_eq key k then drop (popped count) (contents key self) else contents k self))
lpop-contents key k count self = go (list_at key self) refl
  where
    go :
        (o : Option (List Bytes))
        → list_at key self ≡ o
        → ((lpop key count self).1 ≡ done (pop_reply count (contents key self)))
          × (contents k (lpop key count self).0 ≡ (
              if bytes_eq key k then drop (popped count) (contents key self) else contents k self))
    go none e =
        rw (lpop-none key self count e)
          (rw e refl, unchanged key k (popped count) self (ap or_nil e))
    go (some []) e =
        rw (lpop-nil key self count e)
          (rw e refl, unchanged key k (popped count) self (ap or_nil e))
    go (some (x ∷ l)) e = rw (lpop-cons key self count x l e) (
      rw e refl,
      contents-put key k (drop (popped count) (x ∷ l)) (expire_at key self) self
          ∙ ap
              (λ (c : List Bytes).
                if bytes_eq key k then drop (popped count) c else contents k self)
              (sym (ap or_nil e)),
    )
