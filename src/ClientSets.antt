-- ===== src/ClientSets.antt =====
-- The sets of clients of src/pubsub.rs and of the watched keys in src/main.rs: a HashSet<ClientId> is
-- a list without repetitions.
use rust_redis.Prelude.{
  ℕ, ◌≡◌, refl, Bool, false, not, ◌||◌, ◌&&◌, Option, none, some, inl, inr, Bool-cases, List, [],
  ◌∷◌, ◌++◌, arith, ◌==◌, ==_iff, if◌then◌else◌,
}

abbrev pub ClientId : Type 0
ClientId = ℕ

unfoldable pub has : ClientId → List ClientId → Bool
has c [] = false
has c (d ∷ clients) = d == c || has c clients

-- `HashSet::insert`
abbrev pub add : ClientId → List ClientId → List ClientId
add c clients = if has c clients then clients else clients ++ c ∷ []

-- `HashSet::remove`
unfoldable pub without : ClientId → List ClientId → List ClientId
without c [] = []
without c (d ∷ clients) = let rest = without c clients in if d == c then rest else d ∷ rest

-- Whether the client is in the set of clients of a table.
abbrev pub has_in : ClientId → Option (List ClientId) → Bool
has_in c none = false
has_in c (some clients) = has c clients

has-append :
    (x c : ClientId) (clients : List ClientId)
    → has x (clients ++ c ∷ []) ≡ (has x clients || c == x)
unfolding has
has-append x c [] = ground arith
has-append x c (d ∷ clients) = ground (arith, has-append x c clients)

pub has-add :
    (x c : ClientId) (clients : List ClientId) → has x (add c clients) ≡ (has x clients || c == x)
has-add x c clients = ground (arith, has-append x c clients, ==_iff c x)

pub has-without :
    (x c : ClientId) (clients : List ClientId)
    → c == x ≡ false
    → has x (without c clients) ≡ has x clients
unfolding has without
has-without x c [] h = refl
has-without x c (d ∷ clients) h =
    ground (arith, has-without x c clients h, ==_iff d c, ==_iff c x, ==_iff d x)

pub has-same : (c : ClientId) (clients : List ClientId) → has c (without c clients) ≡ false
unfolding has without
has-same c [] = refl
has-same c (d ∷ clients) = ground (arith, has-same c clients)

pub has-removed :
    (x c : ClientId) (clients : List ClientId)
    → has x (without c clients) ≡ (has x clients && not (c == x))
has-removed x c clients = elim (Bool-cases (c == x)) [
  | inl same ↦ rw (same, ← (==_iff c x).0 same, has-same c clients) (ground arith)
  | inr other ↦ rw (other, has-without x c clients other) (ground arith)
]
