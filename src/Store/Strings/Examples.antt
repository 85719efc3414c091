-- ===== src/Store/Strings/Examples.antt =====
-- The theorems on SET, GET and INCR of src/main.rs at concrete stores.
use rust_redis.Prelude.{false, ◌≡◌, refl, none, some, arith, codes, if◌then◌else◌}
use rust_redis.Prelude.Int.{pos}
use rust_redis.Prelude.Keys.{bytes_eq, bytes_keys, lookup}
use rust_redis.Number.{decimal}
use rust_redis.Resp.{integer}
use rust_redis.Command.{Key}
use rust_redis.Store.{empty, done, str_at}
use rust_redis.Store.Strings.{command_set, command_get}
use rust_redis.Store.Strings.Lifetimes.{visible, command_get-command_set}
use rust_redis.Store.Strings.Counters.{incr_times, incr_times-count}

abbrev hits : Key
hits = codes "hits"

-- SET hits new PX 100, and GET 101 milliseconds later.
command_get-command_set_example :
    (command_get 1101 hits (command_set 1000 hits (codes "new") none (some 100) (empty false)).0).1
    ≡ (if bytes_eq hits hits
        then done (visible 1000 1101 (some 100) (codes "new"))
        else (command_get 1101 hits (empty false)).1)
command_get-command_set_example =
    command_get-command_set 1000 1101 hits hits (codes "new") none (some 100) (empty false)
      (omega arith)

no_hits : str_at hits (empty false) ≡ none
unfolding str_at lookup
no_hits = refl

incr_times-count_example :
    ((incr_times 2 hits (empty false)).1 ≡ done (integer (pos 3)))
    × (str_at hits (incr_times 2 hits (empty false)).0 ≡ some (decimal 3))
incr_times-count_example = incr_times-count 2 hits (empty false) no_hits (omega arith)
