-- ===== src/Store/Zsets.antt =====
-- src/main.rs: the commands on sorted sets, and those on positions, which are sorted sets of codes.
use rust_redis.Prelude.{
  ℕ, Bool, ◌||◌, Option, none, some, List, [], ◌∷◌, ◌++◌, Bytes, codes, if◌then◌else◌,
}
use rust_redis.Prelude.Int.{ℤ, pos}
use rust_redis.Prelude.Keys.{bytes_eq, bytes_keys}
use rust_redis.Parser.{Outcome, ok, panic}
use rust_redis.Resp.{
  Resp, integer, bulk_string, null_bulk_string, null_array, simple_error, array, vec,
}
use rust_redis.Command.{F64}
use rust_redis.Order.{Entry}
use rust_redis.SortedSets.{SortedSets, set_at, insert, rank, range, card, score, rem}
use rust_redis.Platform.{Floats, Platform}
use rust_redis.Geocoding.{
  Coordinates, max_latitude, min_latitude, max_longitude, min_longitude, encode, decode, haversine,
}
use rust_redis.Store.{Store, TryExecuteResult, done}
use rust_redis.Store.Lists.{bulks}

abbrev pub with_sets : Store → SortedSets → Store
with_sets self sets = record self { sorted_sets = sets }

unfoldable pub command_zadd : Bytes → F64 → Bytes → Store → Store × TryExecuteResult
command_zadd key sc member self =
    let (sets, r) = insert self.sorted_sets key sc member in
    (with_sets self sets, done (integer (pos r)))

abbrev rank_reply : Option ℕ → Resp
rank_reply none = null_bulk_string
rank_reply (some r) = integer (pos r)

unfoldable pub command_zrank : Bytes → Bytes → Store → Store × TryExecuteResult
command_zrank key member self = (self, done (rank_reply (rank self.sorted_sets key member)))

unfoldable pub command_zrange : Bytes → ℤ → ℤ → Store → Store × TryExecuteResult
command_zrange key start stop self =
    (self, done (array (vec (bulks (range self.sorted_sets key start stop)))))

unfoldable pub command_zcard : Bytes → Store → Store × TryExecuteResult
command_zcard key self = (self, done (integer (pos (card self.sorted_sets key))))

abbrev score_reply : (F64 → Bytes) → Option F64 → Resp
score_reply to_string none = null_bulk_string
score_reply to_string (some sc) = bulk_string (to_string sc)

unfoldable pub command_zscore : Platform → Bytes → Bytes → Store → Store × TryExecuteResult
command_zscore p key member self =
    (self, done (score_reply p.floats.to_string (score self.sorted_sets key member)))

unfoldable pub command_zrem : Bytes → Bytes → Store → Store × TryExecuteResult
command_zrem key member self =
    let (sets, r) = rem self.sorted_sets key member in (with_sets self sets, done (integer (pos r)))

-- `longitude < -180.0 || longitude > 180.0 || …`
abbrev out_of_range : Floats → F64 → F64 → Bool
out_of_range f longitude latitude =
    f.lt longitude min_longitude
    || f.lt max_longitude longitude
    || f.lt latitude min_latitude
    || f.lt max_latitude latitude

unfoldable pub command_geoadd :
    Platform → Bytes → F64 → F64 → Bytes → Store → Store × TryExecuteResult
unfolding command_zadd
command_geoadd p key longitude latitude member self =
    let f = p.floats in
    if out_of_range f longitude latitude
    then (
      self,
      done (
          simple_error (
            codes "ERR invalid longitude,latitude pair "
            ++ f.to_string longitude
            ++ codes ", "
            ++ f.to_string latitude)),
    )
    else command_zadd key (f.of_u64 (encode f latitude longitude)) member self

abbrev coordinates_reply : Floats → Coordinates → Resp
coordinates_reply f coord = array (
    vec (bulk_string (f.to_string coord.longitude) ∷ bulk_string (f.to_string coord.latitude) ∷ []))

-- `decode(score as u64)`
abbrev position : Floats → F64 → Coordinates
position f sc = decode f (f.as_u64 sc)

abbrev position_reply : Floats → Option F64 → Resp
position_reply f none = null_array
position_reply f (some sc) = coordinates_reply f (position f sc)

abbrev position_replies : Floats → SortedSets → Bytes → List Bytes → List Resp
position_replies f sets key [] = []
position_replies f sets key (member ∷ members) =
    position_reply f (score sets key member) ∷ position_replies f sets key members

unfoldable pub command_geopos : Platform → Bytes → List Bytes → Store → Store × TryExecuteResult
command_geopos p key members self =
    (self, done (array (vec (position_replies p.floats self.sorted_sets key members))))

abbrev distance_reply : Floats → Option F64 → Option F64 → Resp
distance_reply f (some score1) (some score2) =
    bulk_string (f.to_string (haversine f (position f score1) (position f score2)))
distance_reply f _ _ = null_bulk_string

unfoldable pub command_geodist : Platform → Bytes → Bytes → Bytes → Store → Store × TryExecuteResult
command_geodist p key member1 member2 self =
    let sets = self.sorted_sets in
    (self, done (distance_reply p.floats (score sets key member1) (score sets key member2)))

-- The loop over the set: the members within the radius.
unfoldable pub near : Floats → Coordinates → F64 → List Entry → List Resp
near f c1 radius [] = []
near f c1 radius ((sc, member) ∷ set) =
    let finds = near f c1 radius set in
    if f.le (haversine f c1 (position f sc)) radius then bulk_string member ∷ finds else finds

-- `assert!(unit.to_uppercase() == "M")`
unfoldable pub command_geosearch :
    Platform → Bytes → F64 → F64 → F64 → Bytes → Store → Outcome (Store × TryExecuteResult)
unfolding near
command_geosearch p key longitude latitude radius unit self =
    let c1 : Coordinates = record { latitude = latitude; longitude = longitude } in
    if bytes_eq (p.to_uppercase unit) (codes "M")
    then ok (self, done (array (vec (near p.floats c1 radius (set_at key self.sorted_sets)))))
    else panic
