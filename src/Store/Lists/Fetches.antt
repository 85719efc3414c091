-- ===== src/Store/Lists/Fetches.antt =====
-- src/main.rs, fetch_blpop: the list that it takes from, and the lists that it finds drained.
use rust_redis.Prelude.{
  ℕ, ◌≡◌, refl, inl, inr, Bool, true, false, ◌||◌, Option, none, some, List, [], ◌∷◌, arith, Bytes,
  if◌then◌else◌, Bool-cases,
}
use rust_redis.Prelude.Keys.{bytes_eq, bytes_eq_iff, bytes_keys, nat_eq, lookup-insert}
use rust_redis.Resp.{Resp}
use rust_redis.Command.{Key}
use rust_redis.Store.{Store, list, list_at, put, expire_at}
use rust_redis.Store.Lists.{contains, fetch_blpop}

-- The key holds no list, or an empty one.
abbrev no_head : Option (List Bytes) → Bool
no_head none = true
no_head (some []) = true
no_head (some (e ∷ l)) = false

unfoldable pub is_drained : Key → Store → Bool
is_drained key self = no_head (list_at key self)

list_at-put :
    (k key : Key) (l : List Bytes) (ex : Option ℕ) (self : Store)
    → list_at key (put k (list l) ex self) ≡ (if bytes_eq k key then some l else list_at key self)
unfolding list_at put
list_at-put k key l ex self = rw lookup-insert (ground arith)

is_drained-put :
    (k key : Key) (e : Bytes) (l : List Bytes) (ex : Option ℕ) (self : Store)
    → list_at k self ≡ some (e ∷ l)
    → is_drained key self ≡ true
    → is_drained key (put k (list l) ex self) ≡ true
unfolding is_drained
is_drained-put k key e l ex self found h =
    ground (arith, list_at-put k key l ex self, bytes_eq_iff k key)

-- What `fetch_blpop` says of emptiness is so, and a list that was drained stays so.
abbrev Fetched : Key → List Key → Store → Store × Resp × Bool → Type 0
Fetched key keys self (self', rows, is_empty) =
    (is_drained key self ≡ true → is_drained key self' ≡ true)
    × (is_empty ≡ true → contains key keys ≡ true → is_drained key self' ≡ true)
    × (self'.list_blpop_waiters ≡ self.list_blpop_waiters)

fetch_blpop-head :
    (k : Key) (keys : List Key) (self : Store) (e : Bytes) (l : List Bytes)
    → list_at k self ≡ some (e ∷ l)
    → (fetch_blpop (k ∷ keys) self).0 ≡ put k (list l) (expire_at k self) self
unfolding fetch_blpop
fetch_blpop-head k keys self e l found = rw (found, fetch_blpop)

fetch_blpop-nonempty :
    (k : Key) (keys : List Key) (self : Store) (e : Bytes) (l : List Bytes)
    → list_at k self ≡ some (e ∷ l)
    → (fetch_blpop (k ∷ keys) self).2 ≡ false
unfolding fetch_blpop
fetch_blpop-nonempty k keys self e l found = rw (found, fetch_blpop)

pub fetch_blpop-skip :
    (k : Key) (keys : List Key) (self : Store)
    → is_drained k self ≡ true
    → fetch_blpop (k ∷ keys) self ≡ fetch_blpop keys self
unfolding fetch_blpop is_drained
fetch_blpop-skip k keys self h = skip (list_at k self) refl h
  where
    skip :
        (o : Option (List Bytes))
        → list_at k self ≡ o
        → no_head (list_at k self) ≡ true
        → fetch_blpop (k ∷ keys) self ≡ fetch_blpop keys self
    skip none e d = rw (e, fetch_blpop)
    skip (some []) e d = rw (e, fetch_blpop)
    skip (some (x ∷ l)) e d = cc (e, d)

put-waiters :
    (k : Key) (l : List Bytes) (ex : Option ℕ) (self : Store)
    → (put k (list l) ex self).list_blpop_waiters ≡ self.list_blpop_waiters
unfolding put
put-waiters k l ex self = refl

pub head_of :
    (k : Key) (self : Store)
    → is_drained k self ≡ false
    → (e : Bytes) × (l : List Bytes) × (list_at k self ≡ some (e ∷ l))
unfolding is_drained
head_of k self h = go (list_at k self) refl
  where
    go :
        (o : Option (List Bytes))
        → list_at k self ≡ o
        → (e : Bytes) × (l : List Bytes) × (list_at k self ≡ some (e ∷ l))
    go none e = cc (e, h)
    go (some []) e = cc (e, h)
    go (some (x ∷ l)) e = (x, l, e)

contains-cons :
    (key k : Key) (keys : List Key)
    → contains key (k ∷ keys) ≡ (bytes_eq k key || contains key keys)
unfolding contains
contains-cons key k keys = refl

Fetched-skip :
    (key k : Key) (keys : List Key) (self : Store) (r : Store × Resp × Bool)
    → is_drained k self ≡ true
    → Fetched key keys self r
    → Fetched key (k ∷ keys) self r
Fetched-skip key k keys self r h f = (
  f.0,
  λ e c. elim (Bool-cases (bytes_eq k key)) [
    | inl same ↦ f.0 (rw ((bytes_eq_iff k key).0 same) at h)
    | inr other ↦ f.1 e (rw (contains-cons key k keys, other) at c)
  ],
  f.2,
)

pub fetch_blpop-Fetched :
    (key : Key) (keys : List Key) (self : Store) → Fetched key keys self (fetch_blpop keys self)
fetch_blpop-Fetched key [] self = unfold fetch_blpop contains in (λ h. h, λ h k. cc k, refl)
fetch_blpop-Fetched key (k ∷ keys) self = elim (Bool-cases (is_drained k self)) [
  | inl drained ↦ rw (fetch_blpop-skip k keys self drained) (
      Fetched-skip key k keys self (fetch_blpop keys self) drained
        (fetch_blpop-Fetched key keys self))
  | inr full ↦
      let (e, l, f) = head_of k self full in
      rw (fetch_blpop-head k keys self e l f, fetch_blpop-nonempty k keys self e l f)
        (
          is_drained-put k key e l (expire_at k self) self f,
          λ h c. cc h,
          put-waiters k l (expire_at k self) self,
        )
]
