-- ===== src/Client/Examples.antt =====
-- The theorems on connections at concrete sessions.
use rust_redis.Prelude.{refl, true, List, [], ◌∷◌, codes}
use rust_redis.Resp.{Resp, simple_string, simple_error, null_array}
use rust_redis.Command.{Command, get, incr, auth}
use rust_redis.Client.{subscription, transaction, Session, session_trace}
use rust_redis.Client.Gate.{IsGuarded, session_trace-IsGuarded}
use rust_redis.Client.Transactions.{in_mode, OnlyChannels, session_trace-OnlyChannels}

abbrev closed : Session
closed = record { mode = transaction []; need_auth = true }

-- GET k, AUTH u p (refused), AUTH u q (accepted), GET k
abbrev attempts : List (Command × Resp)
attempts =
    (get (codes "k"), null_array)
    ∷ (auth (codes "u") (codes "p"), simple_error (codes "WRONGPASS"))
    ∷ (auth (codes "u") (codes "q"), simple_string (codes "OK"))
    ∷ (get (codes "k"), null_array)
    ∷ []

session_trace-IsGuarded_example : IsGuarded (session_trace closed attempts)
session_trace-IsGuarded_example = session_trace-IsGuarded closed attempts refl

abbrev increments : List (Command × Resp)
increments = (incr (codes "a"), null_array) ∷ (incr (codes "b"), null_array) ∷ []

session_trace-OnlyChannels_example : OnlyChannels (session_trace (in_mode subscription) increments)
session_trace-OnlyChannels_example = session_trace-OnlyChannels increments
