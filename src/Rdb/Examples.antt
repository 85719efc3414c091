-- ===== src/Rdb/Examples.antt =====
-- The theorem on RDB files at a concrete database.
use rust_redis.Prelude.{◌≡◌, refl, [], ◌∷◌, arith, codes}
use rust_redis.Prelude.Keys.{bytes_eq, lookup}
use rust_redis.Parser.{ok}
use rust_redis.Utf8.{is_utf8}
use rust_redis.Rdb.{Rdb, never, milliseconds, deserialize, serialize}
use rust_redis.Rdb.RoundTrip.{IsWritable, deserialize-serialize}

abbrev fruits : Rdb
fruits = record {
  metadata = (codes "redis-ver", codes "7.2.0") ∷ [];
  data_ =
      (codes "apple", record { encoding = 0; value = codes "red"; expire = never })
      ∷ (
        codes "plum",
        record { encoding = 0; value = codes "blue"; expire = milliseconds 1700000000000 },
      )
      ∷ [];
}

fruits-IsWritable : IsWritable fruits
unfolding lookup bytes_eq is_utf8
fruits-IsWritable = record {
  pairs = (((omega arith, refl), (omega arith, refl)), tt);
  metadata_table = (refl, tt);
  entries = (
    record { plain = refl; key = omega arith; value = omega arith; time = tt },
    (record { plain = refl; key = omega arith; value = omega arith; time = omega arith }, tt),
  );
  data_table = (refl, (refl, tt));
  data_size = omega arith;
}

deserialize-serialize_example : deserialize (serialize fruits) ≡ ok fruits
deserialize-serialize_example = deserialize-serialize fruits fruits-IsWritable
