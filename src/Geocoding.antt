-- ===== src/Geocoding.antt =====
-- src/geocoding.rs: positions as 52-bit numbers whose bits alternate between latitude and longitude.
-- A shift to the left drops what leaves the 64 bits.
pub mod Bits
pub mod RoundTrip
pub mod Examples
use Prim.Native.Nat.{bit_and, bit_or}
use rust_redis.Prelude.{ℕ, ◌+◌, ◌*◌, ◌/◌, ◌%◌, ◌^◌, u64_mod}
use rust_redis.Command.{F64}
use rust_redis.Platform.{Floats}

-- The literals of the source: 85.05112878 and -85.05112878, 180 and -180, 2, 2^26 and the radius.
abbrev pub max_latitude : F64
max_latitude = 0x40554345b1a57f00

abbrev pub min_latitude : F64
min_latitude = 0xc0554345b1a57f00

abbrev pub max_longitude : F64
max_longitude = 0x4066800000000000

abbrev pub min_longitude : F64
min_longitude = 0xc066800000000000

abbrev two : F64
two = 0x4000000000000000

abbrev grid : F64
grid = 0x4190000000000000

abbrev earth_radius_in_meters : F64
earth_radius_in_meters = 0x41584f6f63e51090

pub record Coordinates : Type 0 where
  pub latitude : F64
  pub longitude : F64

abbrev shl : ℕ → ℕ → ℕ
shl x k = x * 2 ^ k % u64_mod

abbrev shr : ℕ → ℕ → ℕ
shr x k = x / 2 ^ k

-- One line of the two functions below: `(result | (result >> k)) & mask` and the same with `<<`.
abbrev fold_right : ℕ → ℕ → ℕ → ℕ
fold_right k mask result = bit_and (bit_or result (shr result k)) mask

abbrev fold_left : ℕ → ℕ → ℕ → ℕ
fold_left k mask result = bit_and (bit_or result (shl result k)) mask

unfoldable pub compact_int64_to_int32 : ℕ → ℕ
compact_int64_to_int32 v =
    let result = bit_and v 0x5555555555555555 in
    let result = fold_right 1 0x3333333333333333 result in
    let result = fold_right 2 0x0f0f0f0f0f0f0f0f result in
    let result = fold_right 4 0x00ff00ff00ff00ff result in
    let result = fold_right 8 0x0000ffff0000ffff result in fold_right 16 0x00000000ffffffff result

unfoldable pub spread_int32_to_int64 : ℕ → ℕ
spread_int32_to_int64 v =
    let result = fold_left 16 0x0000ffff0000ffff v in
    let result = fold_left 8 0x00ff00ff00ff00ff result in
    let result = fold_left 4 0x0f0f0f0f0f0f0f0f result in
    let result = fold_left 2 0x3333333333333333 result in fold_left 1 0x5555555555555555 result

unfoldable pub interleave : ℕ → ℕ → ℕ
unfolding spread_int32_to_int64
interleave x y = bit_or (spread_int32_to_int64 x) (shl (spread_int32_to_int64 y) 1)

-- The grid numbers that `decode` reads off a code: of the latitude and of the longitude.
unfoldable pub grid_numbers : ℕ → ℕ × ℕ
unfolding compact_int64_to_int32
grid_numbers geo_code = (compact_int64_to_int32 geo_code, compact_int64_to_int32 (shr geo_code 1))

module _ (f : Floats) where
  abbrev latitude_range : F64
  latitude_range = f.sub max_latitude min_latitude

  abbrev longitude_range : F64
  longitude_range = f.sub max_longitude min_longitude

  -- `MIN + RANGE * (n as f64 / 2.0_f64.powi(26))`
  abbrev grid_line : F64 → F64 → ℕ → F64
  grid_line low range n = f.add low (f.mul range (f.div (f.of_u32 n) grid))

  -- `grid_number + 1` on `u32`
  abbrev next_line : ℕ → ℕ
  next_line n = (n + 1) % 2 ^ 32

  unfoldable pub convert_grid_numbers_to_coordinates : ℕ → ℕ → Coordinates
  convert_grid_numbers_to_coordinates lat lon = record {
    latitude =
        f.div
          (f.add (grid_line min_latitude latitude_range lat)
            (grid_line min_latitude latitude_range (next_line lat)))
          two;
    longitude =
        f.div
          (f.add (grid_line min_longitude longitude_range lon)
            (grid_line min_longitude longitude_range (next_line lon)))
          two;
  }

  unfoldable pub decode : ℕ → Coordinates
  unfolding convert_grid_numbers_to_coordinates grid_numbers
  decode geo_code =
      let (lat, lon) = grid_numbers geo_code in convert_grid_numbers_to_coordinates lat lon

  unfoldable pub encode : F64 → F64 → ℕ
  unfolding interleave
  encode latitude longitude =
      let normalized_latitude = f.div (f.mul grid (f.sub latitude min_latitude)) latitude_range in
      let normalized_longitude =
        f.div (f.mul grid (f.sub longitude min_longitude)) longitude_range in
      interleave (f.as_u32 normalized_latitude) (f.as_u32 normalized_longitude)

  unfoldable pub haversine : Coordinates → Coordinates → F64
  haversine c1 c2 =
      let lat1 = f.to_radians c1.latitude in
      let lon1 = f.to_radians c1.longitude in
      let lat2 = f.to_radians c2.latitude in
      let lon2 = f.to_radians c2.longitude in
      let u = f.sin (f.div (f.sub lat2 lat1) two) in
      let v = f.sin (f.div (f.sub lon2 lon1) two) in
      let a = f.add (f.mul u u) (f.mul (f.mul (f.mul (f.cos lat1) (f.cos lat2)) v) v) in
      f.mul (f.mul two earth_radius_in_meters) (f.asin (f.sqrt a))
