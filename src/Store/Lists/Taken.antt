-- ===== src/Store/Lists/Taken.antt =====
-- src/main.rs: RPUSH and LPUSH as a whole: what the blocked clients take of the lists.
use rust_redis.Prelude.{
  ℕ, ◌≤◌, ◌≡◌, Bool, true, false, List, [], ◌∷◌, ◌++◌, Bytes, if◌then◌else◌, length,
}
use rust_redis.Prelude.Keys.{bytes_eq, bytes_keys, nat_eq}
use rust_redis.Resp.{Resp, array, vec, bulk_string}
use rust_redis.Command.{Key}
use rust_redis.Store.{Store, Channel}
use rust_redis.Store.Lists.Ends.{contents}

-- What was taken: for whom, from which list, and the element.
abbrev pub Takings : Type 0
Takings = List (Channel × Key × Bytes)

-- The elements that were taken from the list at a key, in order.
abbrev pub taken_at : Key → Takings → List Bytes
taken_at k [] = []
taken_at k ((channel, j, e) ∷ takings) =
    let rest = taken_at k takings in if bytes_eq j k then e ∷ rest else rest

abbrev pub reply_to : Channel × Key × Bytes → Channel × Resp
reply_to (channel, j, e) = (channel, array (vec (bulk_string j ∷ bulk_string e ∷ [])))

abbrev pub replies : Takings → List (Channel × Resp)
replies [] = []
replies (t ∷ takings) = reply_to t ∷ replies takings

-- From the lists `before` to those of `self'`: what is missing in front was sent to clients, `most` of
-- them at most, each of which got one element with the key of its list.
pub record IsShared (most : ℕ) (before : Key → List Bytes) (self self' : Store) : Type 0 where
  pub takings : Takings
  pub few : length takings ≤ most
  pub answered : self'.sent ≡ self.sent ++ replies takings
  pub rest : (k : Key) → before k ≡ taken_at k takings ++ contents k self'

abbrev Round : ℕ → Store → Store → Type 0
Round most self self' = IsShared most (λ k. contents k self) self self'

-- One call of `fetch_blpop`: nothing, or the head of one list.
abbrev Fetch : Store → Store × Resp × Bool → Type 0
Fetch self (self', rows, true) =
    (self'.sent ≡ self.sent) × ((k : Key) → contents k self ≡ contents k self')
Fetch self (self', rows, false) =
    (j : Key) × (e : Bytes) × (rows ≡ array (vec (bulk_string j ∷ bulk_string e ∷ [])))
    × (self'.sent ≡ self.sent)
    × ((k : Key)
        → contents k self ≡ (if bytes_eq j k then e ∷ contents k self' else contents k self'))
