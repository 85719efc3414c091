-- ===== src/Store/Users.antt =====
-- src/main.rs: the users and their passwords, which are kept as the hexadecimal text of their digest.
pub mod Passwords
pub mod Examples
use rust_redis.Prelude.{
  ℕ, ◌+◌, ◌-◌, ◌/◌, ◌%◌, Bool, true, false, Option, none, some, List, [], ◌∷◌, ◌++◌, Bytes, codes,
  ltb, if◌then◌else◌,
}
use rust_redis.Prelude.Keys.{bytes_keys, lookup, insert}
use rust_redis.Resp.{Resp, simple_string, simple_error, bulk_string, array, vec}
use rust_redis.Platform.{Platform}
use rust_redis.Store.{Store, TryExecuteResult, done}
use rust_redis.Store.Lists.{contains, bulks}

abbrev hex_digit : ℕ → ℕ
hex_digit n = if ltb n 10 then b'0' + n else b'a' + (n - 10)

-- `format!("{:02x}", b)` of each byte
unfoldable pub hex : Bytes → Bytes
hex [] = []
hex (b ∷ bs) = hex_digit (b / 16) ∷ hex_digit (b % 16) ∷ hex bs

abbrev pub hash_string : Platform → Bytes → Bytes
hash_string p password = hex (p.sha256 password)

-- `HashSet::insert` of the passwords of one user
abbrev add_password : Bytes → List Bytes → List Bytes
add_password h set = if contains h set then set else set ++ h ∷ []

abbrev with_password : Bytes → Option (List Bytes) → List Bytes
with_password h none = h ∷ []
with_password h (some set) = add_password h set

abbrev passwords_of : Option (List Bytes) → List Bytes
passwords_of none = []
passwords_of (some passwords) = passwords

-- `if passwords_resp.is_empty()`
abbrev flags_resp : List Bytes → List Resp
flags_resp [] = bulk_string (codes "nopass") ∷ []
flags_resp (h ∷ hs) = []

unfoldable pub command_acl_whoami : Store → Store × TryExecuteResult
command_acl_whoami self = (self, done (bulk_string (codes "default")))

unfoldable pub command_acl_getuser : Bytes → Store → Store × TryExecuteResult
command_acl_getuser username self =
    let passwords = passwords_of (lookup username self.users) in
    (
      self,
      done (
          array (
            vec (
              bulk_string (codes "flags")
              ∷ array (vec (flags_resp passwords))
              ∷ bulk_string (codes "passwords")
              ∷ array (vec (bulks passwords))
              ∷ []))),
    )

unfoldable pub command_acl_setuser : Platform → Bytes → Bytes → Store → Store × TryExecuteResult
unfolding hex contains
command_acl_setuser p username password self =
    let set = with_password (hash_string p password) (lookup username self.users) in
    (record self { users = insert username set self.users }, done (simple_string (codes "OK")))

abbrev pub accepts : Bytes → Option (List Bytes) → Bool
accepts h none = false
accepts h (some passwords) = contains h passwords

abbrev pub accepted : TryExecuteResult
accepted = done (simple_string (codes "OK"))

abbrev pub wrong_password : TryExecuteResult
wrong_password =
    done (simple_error (codes "WRONGPASS invalid username-password pair or user is disabled."))

unfoldable pub command_auth : Platform → Bytes → Bytes → Store → Store × TryExecuteResult
unfolding hex contains
command_auth p username password self =
    if accepts (hash_string p password) (lookup username self.users)
    then (self, accepted)
    else (self, wrong_password)

-- What a new connection is told: whether it must authenticate.
unfoldable pub need_auth : Store → Bool
need_auth self = elim (lookup (codes "default") self.users) [
  | none ↦ true
  | some [] ↦ false
  | some (h ∷ hs) ↦ true
]
