-- ===== src/Store/Users/Examples.antt =====
-- The theorem on passwords at a concrete store.
use rust_redis.Prelude.{◌≡◌, false, ◌&&◌, if◌then◌else◌, codes}
use rust_redis.Prelude.Keys.{bytes_eq}
use rust_redis.Command.Read.Examples.{plain}
use rust_redis.Store.{empty}
use rust_redis.Store.Users.{hash_string, accepted, command_acl_setuser, command_auth}
use rust_redis.Store.Users.Passwords.{command_auth-command_acl_setuser}

command_auth-command_acl_setuser_example :
    (command_auth plain
      (codes "default")
      (codes "pw")
      (command_acl_setuser plain (codes "default") (codes "pw") (empty false)).0).1
    ≡ (if bytes_eq (codes "default") (codes "default")
          && bytes_eq (hash_string plain (codes "pw")) (hash_string plain (codes "pw"))
        then accepted
        else (command_auth plain (codes "default") (codes "pw") (empty false)).1)
command_auth-command_acl_setuser_example =
    command_auth-command_acl_setuser plain (codes "default") (codes "pw") (codes "default")
      (codes "pw") (empty false)
