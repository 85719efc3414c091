-- ===== src/Store/Watches.antt =====
-- src/main.rs: WATCH, UNWATCH, DISCARD and InternalExecuteTx, and what `try_execute` does to the
-- watched keys before each command.
pub mod Members
pub mod Conflicts
pub mod Examples
use rust_redis.Prelude.{
  ℕ, suc, Bool, true, false, ◌||◌, ◌&&◌, Option, none, some, List, [], ◌∷◌, ◌++◌, codes, ◌==◌, ltb,
  if◌then◌else◌, length,
}
use rust_redis.Prelude.Keys.{Dict, bytes_keys, lookup, insert}
use rust_redis.Parser.{Outcome, ok, ◌>>=◌}
use rust_redis.Resp.{Resp, simple_string, null_array, array, vec}
use rust_redis.Command.{Key, Command}
use rust_redis.ClientSets.{ClientId, has, add, without}
use rust_redis.Store.{Store, TryExecuteResult, done}

abbrev pub Watched : Type 0
Watched = Dict Key (List ClientId)

-- `for key in cmd.modified_keys()`: the client joins those that watch the key, if there are any.
abbrev pub modified_of : ClientId → Key → Watched → Option (List ClientId) → Watched
modified_of c key m (some clients) = insert key (add c clients) m
modified_of c key m none = m

unfoldable pub modified_loop : ClientId → List Key → Watched → Watched
modified_loop c [] m = m
modified_loop c (key ∷ keys) m = modified_loop c keys (modified_of c key m (lookup key m))

-- `for key in keys` of WATCH
abbrev pub watched_of : ClientId → Key → Watched → Option (List ClientId) → Watched
watched_of c key m (some clients) = insert key (add c clients) m
watched_of c key m none = insert key (c ∷ []) m

unfoldable pub watch_loop : ClientId → List Key → Watched → Watched
watch_loop c [] m = m
watch_loop c (key ∷ keys) m = watch_loop c keys (watched_of c key m (lookup key m))

-- `retain(|_, clients| !clients.is_empty())`, for one entry
abbrev pub retained : Key → List ClientId → Watched → Watched
retained key [] m = m
retained key (c ∷ clients) m = (key, c ∷ clients) ∷ m

-- The cleanup: the client is removed everywhere, and then the keys that nobody watches.
unfoldable pub cleanup : ClientId → Watched → Watched
unfolding without
cleanup c [] = []
cleanup c ((key, clients) ∷ m) = let rest = cleanup c m in retained key (without c clients) rest

abbrev pub with_watched : Store → Watched → Store
with_watched self m = record self { watched_keys = m }

abbrev pub cleaned : ClientId → Store → Store
cleaned c self = with_watched self (cleanup c self.watched_keys)

abbrev pub track : ClientId → List Key → Store → Store
track c keys self = with_watched self (modified_loop c keys self.watched_keys)

unfoldable pub watch : ClientId → List Key → Store → Store × TryExecuteResult
unfolding watch_loop
watch c keys self =
    (with_watched self (watch_loop c keys self.watched_keys), done (simple_string (codes "OK")))

unfoldable pub unwatch : ClientId → Store → Store × TryExecuteResult
unfolding cleanup
unwatch c self = (cleaned c self, done (simple_string (codes "OK")))

unfoldable pub discard : ClientId → Store → Store × TryExecuteResult
unfolding cleanup
discard c self = (cleaned c self, done (simple_string (codes "OK")))

-- The optimistic locking check.
unfoldable pub lock_failed : ClientId → Watched → Bool
unfolding has
lock_failed c [] = false
lock_failed c ((key, clients) ∷ m) = has c clients && ltb 1 (length clients) || lock_failed c m

abbrev pub reply_of : TryExecuteResult → Resp
reply_of (done r) = r
reply_of _ = null_array

-- The loop over the queue, which calls `try_execute`.
unfoldable pub run_commands :
    (Command → Store → Outcome (Store × TryExecuteResult))
    → List Command
    → Store
    → Outcome (List Resp × Store)
run_commands try_execute [] self = ok ([], self)
run_commands try_execute (cmd ∷ commands) self = do
  (self', resp) ← try_execute cmd self
  (replies, self'') ← run_commands try_execute commands self'
  ok (reply_of resp ∷ replies, self'')

unfoldable pub internal_execute_tx :
    (Command → Store → Outcome (Store × TryExecuteResult))
    → ClientId
    → List Command
    → Store
    → Outcome (Store × TryExecuteResult)
unfolding lock_failed run_commands cleanup
internal_execute_tx try_execute c commands self = elim (lock_failed c self.watched_keys) [
  | true ↦ ok (cleaned c self, done null_array)
  | false ↦ do
    (replies, self') ← run_commands try_execute commands self
    ok (cleaned c self', done (array (vec replies)))
]
