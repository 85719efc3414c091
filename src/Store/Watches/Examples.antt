-- ===== src/Store/Watches/Examples.antt =====
-- The theorems on watched keys of src/main.rs at a concrete store.
use rust_redis.Prelude.{◌≡◌, refl, true, false, none, [], ◌∷◌, codes, List}
use rust_redis.Prelude.Keys.{bytes_eq, bytes_keys, nat_eq, lookup, insert}
use rust_redis.Parser.{Outcome, ok}
use rust_redis.Resp.{null_array, bulk_string, array, vec}
use rust_redis.Command.{Key, Command, lpop}
use rust_redis.ClientSets.{has}
use rust_redis.Store.{Store, empty, TryExecuteResult, done, list, put, list_at}
use rust_redis.Store.Lists.{contains, lpop as run_lpop}
use rust_redis.Store.Watches.{cleaned, track, watch, watch_loop, lock_failed, internal_execute_tx}
use rust_redis.Store.Watches.Members.{watches}
use rust_redis.Store.Watches.Conflicts.{
  Executed, finished, executed, internal_execute_tx-retried, internal_execute_tx-alone,
}

abbrev stock : Key
stock = codes "stock"

-- Two of the handlers, the other commands left out.
abbrev handlers : Command → Store → Outcome (Store × TryExecuteResult)
handlers (lpop key count) self = ok (run_lpop key count self)
handlers _ self = ok (self, done null_array)

abbrev sale : List Command
sale = lpop stock none ∷ []

-- Client 1 watches the key.
abbrev watching : Store
watching = (watch 1 (stock ∷ []) (empty false)).0

one_watches : watches 1 stock watching.watched_keys ≡ true
unfolding watch watch_loop lookup insert bytes_eq has
one_watches = refl

stock_contained : contains stock (stock ∷ []) ≡ true
unfolding contains bytes_eq
stock_contained = refl

internal_execute_tx-retried_example :
    internal_execute_tx handlers 1 sale
      (watch 1 (stock ∷ []) (cleaned 1 (track 2 (stock ∷ []) watching))).0
    ≡ ok (
      cleaned 1 (watch 1 (stock ∷ []) (cleaned 1 (track 2 (stock ∷ []) watching))).0,
      done null_array,
    )
internal_execute_tx-retried_example =
    internal_execute_tx-retried handlers sale 1 2 stock (stock ∷ []) watching refl one_watches
      stock_contained

-- Two pops of a list of two.
abbrev sales : List Command
sales = lpop stock none ∷ lpop stock none ∷ []

abbrev stocked : Store
stocked = put stock (list (codes "a" ∷ codes "b" ∷ [])) none (empty false)

abbrev sold : Store
sold = (run_lpop stock none (run_lpop stock none (watch 1 (stock ∷ []) stocked).0).0).0

nobody_failed : lock_failed 1 stocked.watched_keys ≡ false
unfolding lock_failed put
nobody_failed = refl

nobody_watches : lookup stock stocked.watched_keys ≡ none
unfolding lookup put
nobody_watches = refl

both_sold :
    Executed handlers sales
      (watch 1 (stock ∷ []) stocked).0
      (bulk_string (codes "a") ∷ bulk_string (codes "b") ∷ [])
      sold
unfolding run_lpop watch watch_loop put list_at lookup insert bytes_eq
both_sold = executed refl (executed refl finished)

internal_execute_tx-alone_example :
    internal_execute_tx handlers 1 sales (watch 1 (stock ∷ []) stocked).0
    ≡ ok (
      cleaned 1 sold,
      done (array (vec (bulk_string (codes "a") ∷ bulk_string (codes "b") ∷ []))),
    )
internal_execute_tx-alone_example =
    internal_execute_tx-alone handlers sales 1 stock stocked sold
      (bulk_string (codes "a") ∷ bulk_string (codes "b") ∷ []) nobody_failed nobody_watches
      both_sold
