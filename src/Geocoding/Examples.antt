-- ===== src/Geocoding/Examples.antt =====
-- The theorem on the codes of src/geocoding.rs at a concrete pair of grid numbers.
use rust_redis.Prelude.{◌≡◌, refl, arith}
use rust_redis.Geocoding.{spread_int32_to_int64, interleave, grid_numbers}
use rust_redis.Geocoding.RoundTrip.{grid_numbers-interleave}

interleave_runs : interleave 0b101 0b011 ≡ 0b011011
unfolding interleave spread_int32_to_int64
interleave_runs = refl

grid_numbers-interleave_example :
    grid_numbers (interleave 39_974_219 4_294_967_295) ≡ (39_974_219, 4_294_967_295)
grid_numbers-interleave_example =
    grid_numbers-interleave 39_974_219 4_294_967_295 (omega arith) (omega arith)
