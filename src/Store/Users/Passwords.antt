-- ===== src/Store/Users/Passwords.antt =====
-- src/main.rs: AUTH after ACL SETUSER.
use rust_redis.Prelude.{
  ◌≡◌, refl, ◌∙◌, Bool, true, false, ◌||◌, ◌&&◌, Bool-cases, inl, inr, Option, none, some, List, [],
  ◌∷◌, ◌++◌, Bytes, arith, if◌then◌else◌,
}
use rust_redis.Prelude.Keys.{Dict, bytes_keys, bytes_eq, bytes_eq_iff, lookup, lookup-insert}
use rust_redis.Platform.{Platform}
use rust_redis.Store.{Store}
use rust_redis.Store.Lists.{contains}
use rust_redis.Store.Users.{
  hash_string, add_password, with_password, accepts, accepted, wrong_password, command_acl_setuser,
  command_auth,
}

contains-snoc :
    (k h : Bytes) (set : List Bytes) → contains k (set ++ h ∷ []) ≡ (contains k set || bytes_eq h k)
unfolding contains
contains-snoc k h [] = ground arith
contains-snoc k h (x ∷ set) = ground (arith, contains-snoc k h set)

contains-add_password :
    (k h : Bytes) (set : List Bytes)
    → contains k (add_password h set) ≡ (bytes_eq h k || contains k set)
contains-add_password k h set = elim (Bool-cases (contains h set)) [
  | inl there ↦ rw there (elim (Bool-cases (bytes_eq h k)) [
    | inl same ↦ let e : h ≡ k = ground (arith, bytes_eq_iff h k) in rw (same, ← e, there) refl
    | inr other ↦ rw other refl
  ])
  | inr new ↦ rw (new, contains-snoc k h set) (ground arith)
]

accepts-with_password :
    (k h : Bytes) (o : Option (List Bytes))
    → accepts k (some (with_password h o)) ≡ (bytes_eq h k || accepts k o)
unfolding contains
accepts-with_password k h none = ground arith
accepts-with_password k h (some set) = contains-add_password k h set

reply-command_auth :
    (p : Platform) (user password : Bytes) (self : Store)
    → (command_auth p user password self).1 ≡ (
        if accepts (hash_string p password) (lookup user self.users)
        then accepted
        else wrong_password)
unfolding command_auth
reply-command_auth p user password self =
    elim (Bool-cases (accepts (hash_string p password) (lookup user self.users))) [
      | inl good ↦ rw good refl
      | inr bad ↦ rw bad refl
    ]

accepts-either :
    (k h : Bytes) (user user' : Bytes) (users : Dict Bytes (List Bytes))
    → accepts k (
        if bytes_eq user user'
        then some (with_password h (lookup user users))
        else lookup user' users)
      ≡ ((bytes_eq user user' && bytes_eq h k) || accepts k (lookup user' users))
accepts-either k h user user' users = elim (Bool-cases (bytes_eq user user')) [
  | inl same ↦
      let e : user ≡ user' = ground (arith, bytes_eq_iff user user') in
      rw (same, ← e, accepts-with_password k h (lookup user users)) refl
  | inr other ↦ rw other refl
]

if_or {ℓ} :
    {A : Type ℓ} (x y : Bool) (a b : A)
    → (if x || y then a else b) ≡ (if x then a else if y then a else b)
if_or true y a b = refl
if_or false y a b = refl

-- After ACL SETUSER has added a password to a user, AUTH accepts that password for that user, or one
-- of the same digest, and replies to any other attempt as it did before.
pub command_auth-command_acl_setuser :
    (p : Platform) (user password user' password' : Bytes) (self : Store)
    → (command_auth p user' password' (command_acl_setuser p user password self).0).1 ≡ (
        if bytes_eq user user' && bytes_eq (hash_string p password) (hash_string p password')
        then accepted
        else (command_auth p user' password' self).1)
unfolding command_acl_setuser
command_auth-command_acl_setuser p user password user' password' self =
    let h = hash_string p password in
    let h' = hash_string p password' in
    let set = with_password h (lookup user self.users) in
    reply-command_auth p user' password' (command_acl_setuser p user password self).0
    ∙ rw
        (
          lookup-insert user user' set self.users,
          accepts-either h' h user user' self.users,
          reply-command_auth p user' password' self,
        )
        (if_or (bytes_eq user user' && bytes_eq h h') (accepts h' (lookup user' self.users))
          accepted wrong_password)
