-- ===== src/Store/Watches/Conflicts.antt =====
-- src/main.rs: when the check of InternalExecuteTx refuses a transaction.
use rust_redis.Prelude.{
  ◌<◌, ◌≡◌, refl, ◌∙◌, true, false, none, inl, inr, Bool-cases, List, [], ◌∷◌, arith, ◌==◌, ==_iff,
  lt→ltb, length,
}
use rust_redis.Prelude.Keys.{bytes_eq, bytes_keys, lookup, insert}
use rust_redis.Parser.{Outcome, ok, ◌>>=◌}
use rust_redis.Resp.{Resp, null_array, array, vec}
use rust_redis.Command.{Key, Command}
use rust_redis.ClientSets.{ClientId, has}
use rust_redis.Store.{Store, TryExecuteResult, done}
use rust_redis.Store.Lists.{contains}
use rust_redis.Store.Watches.{
  Watched, modified_loop, watch_loop, cleanup, cleaned, track, watch, lock_failed, run_commands,
  reply_of, internal_execute_tx,
}
use rust_redis.Store.Watches.Members.{
  watches, keeps_modified, joins_modified, keeps_watched_of, joins_watched_of, keeps_cleanup,
}

two_in :
    (c d : ClientId) (clients : List ClientId)
    → c == d ≡ false
    → has c clients ≡ true
    → has d clients ≡ true
    → 1 < length clients
unfolding has
two_in c d [] e h k = cc
two_in c d (x ∷ []) e h k = absurd (ground (arith, ==_iff x c, ==_iff x d, ==_iff c d))
two_in c d (x ∷ y ∷ clients) e h k = omega arith

-- Two clients at one key: the check of each fails.
lock_failed-two :
    (c d : ClientId) (key : Key) (m : Watched)
    → c == d ≡ false
    → watches c key m ≡ true
    → watches d key m ≡ true
    → lock_failed c m ≡ true
unfolding lock_failed lookup
lock_failed-two c d key [] e h k = cc
lock_failed-two c d key ((j, clients) ∷ m) e h k = elim (Bool-cases (bytes_eq j key)) [
  | inl same ↦
      let hc = rw same at h in
      let hd = rw same at k in rw (hc, lt→ltb 1 (length clients) (two_in c d clients e hc hd))
  | inr other ↦
      let hc = rw other at h in
      let hd = rw other at k in ground (arith, lock_failed-two c d key m e hc hd)
]

module _ (try_execute : Command → Store → Outcome (Store × TryExecuteResult))
    (commands : List Command) (self : Store) where
  pub refused :
      (c d : ClientId) (key : Key)
      → c == d ≡ false
      → watches c key self.watched_keys ≡ true
      → watches d key self.watched_keys ≡ true
      → internal_execute_tx try_execute c commands self ≡ ok (cleaned c self, done null_array)
  unfolding internal_execute_tx
  refused c d key e h k = rw (lock_failed-two c d key self.watched_keys e h k, internal_execute_tx)

  accepted :
      (c : ClientId)
      → lock_failed c self.watched_keys ≡ false
      → internal_execute_tx try_execute c commands self ≡ (
          run_commands try_execute commands self >>= λ (replies, self').
          ok (cleaned c self', done (array (vec replies))))
  unfolding internal_execute_tx
  accepted c e = rw (e, internal_execute_tx)

-- A client watches a key, and then another client runs a command that modifies it, among other
-- keys: the client's EXEC replies with a null array and runs none of its queue.
pub internal_execute_tx-modified :
    (try_execute : Command → Store → Outcome (Store × TryExecuteResult)) (commands : List Command)
    (c d : ClientId) (key : Key) (keys : List Key) (self : Store)
    → c == d ≡ false
    → watches c key self.watched_keys ≡ true
    → contains key keys ≡ true
    → internal_execute_tx try_execute c commands (track d keys self)
      ≡ ok (cleaned c (track d keys self), done null_array)
internal_execute_tx-modified try_execute commands c d key keys self e h i =
    refused try_execute commands (track d keys self) c d key e
      (keeps_modified c d key keys self.watched_keys h)
      (joins_modified c d key keys self.watched_keys i h)

-- A client watches a key, and then another client watches it too: without any modification, the
-- first client's EXEC replies with a null array and runs none of its queue.
internal_execute_tx-shared :
    (try_execute : Command → Store → Outcome (Store × TryExecuteResult)) (commands : List Command)
    (c d : ClientId) (key : Key) (self : Store)
    → c == d ≡ false
    → watches c key self.watched_keys ≡ true
    → internal_execute_tx try_execute c commands (watch d (key ∷ []) self).0
      ≡ ok (cleaned c (watch d (key ∷ []) self).0, done null_array)
unfolding watch watch_loop
internal_execute_tx-shared try_execute commands c d key self e h =
    let m = self.watched_keys in
    refused try_execute commands (watch d (key ∷ []) self).0 c d key e
      (keeps_watched_of c d key key m (lookup key m) refl h)
      (joins_watched_of d key m (lookup key m))

-- A refused transaction cannot be tried again: after another client has modified the key and EXEC
-- has cleaned up, the client that watches the key anew is refused anew, though nothing was modified
-- since. The other client stays in the set.
pub internal_execute_tx-retried :
    (try_execute : Command → Store → Outcome (Store × TryExecuteResult)) (commands : List Command)
    (c d : ClientId) (key : Key) (keys : List Key) (self : Store)
    → c == d ≡ false
    → watches c key self.watched_keys ≡ true
    → contains key keys ≡ true
    → internal_execute_tx try_execute c commands
        (watch c (key ∷ []) (cleaned c (track d keys self))).0
      ≡ ok (cleaned c (watch c (key ∷ []) (cleaned c (track d keys self))).0, done null_array)
unfolding watch watch_loop
internal_execute_tx-retried try_execute commands c d key keys self e h i =
    let m = cleanup c (modified_loop d keys self.watched_keys) in
    refused try_execute commands (watch c (key ∷ []) (cleaned c (track d keys self))).0 c d key e
      (joins_watched_of c key m (lookup key m))
      (keeps_watched_of d c key key m (lookup key m) refl (
        keeps_cleanup d c key (modified_loop d keys self.watched_keys) e
          (joins_modified c d key keys self.watched_keys i h)))

lock_failed-insert_new :
    (c : ClientId) (key : Key) (m : Watched)
    → lookup key m ≡ none
    → lock_failed c (insert key (c ∷ []) m) ≡ lock_failed c m
unfolding lock_failed lookup insert has
lock_failed-insert_new c key [] e = ground (arith, ==_iff c c)
lock_failed-insert_new c key ((j, clients) ∷ m) e = elim (Bool-cases (bytes_eq j key)) [
  | inl same ↦ let gone = rw same at e in cc
  | inr other ↦ rw (other, lock_failed-insert_new c key m (rw other at e))
]

-- The commands are executed one after the other, in their order: each one returns, on the store that
-- the one before it left, and `replies` are their replies.
pub data Executed (try_execute : Command → Store → Outcome (Store × TryExecuteResult))
    : List Command → Store → List Resp → Store → Type 0 where
  finished : {self : Store} → Executed try_execute [] self [] self
  executed :
      {cmd : Command} {commands : List Command} {self self' last : Store} {r : TryExecuteResult}
      {replies : List Resp}
      → try_execute cmd self ≡ ok (self', r)
      → Executed try_execute commands self' replies last
      → Executed try_execute (cmd ∷ commands) self (reply_of r ∷ replies) last

run_commands-Executed :
    (try_execute : Command → Store → Outcome (Store × TryExecuteResult)) (commands : List Command)
    (self last : Store) (replies : List Resp)
    → Executed try_execute commands self replies last
    → run_commands try_execute commands self ≡ ok (replies, last)
unfolding run_commands
run_commands-Executed try_execute _ _ _ _ finished = refl
run_commands-Executed try_execute _ _ _ _ (executed e rest) =
    rw (e, run_commands-Executed try_execute _ _ _ _ rest) refl

-- A client whose check passes watches one more key that nobody watches, and its queue can be executed,
-- one command after the other, with some replies. Then its EXEC replies with the array of these
-- replies, and leaves the store that the last command left, without the client's marks.
pub internal_execute_tx-alone :
    (try_execute : Command → Store → Outcome (Store × TryExecuteResult)) (commands : List Command)
    (c : ClientId) (key : Key) (self last : Store) (replies : List Resp)
    → lock_failed c self.watched_keys ≡ false
    → lookup key self.watched_keys ≡ none
    → Executed try_execute commands (watch c (key ∷ []) self).0 replies last
    → internal_execute_tx try_execute c commands (watch c (key ∷ []) self).0
      ≡ ok (cleaned c last, done (array (vec replies)))
unfolding watch watch_loop
internal_execute_tx-alone try_execute commands c key self last replies passes e ex =
    accepted try_execute commands (watch c (key ∷ []) self).0 c
      (rw e (lock_failed-insert_new c key self.watched_keys e ∙ passes))
    ∙ rw (run_commands-Executed try_execute commands _ last replies ex) refl
