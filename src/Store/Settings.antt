-- ===== src/Store/Settings.antt =====
-- src/main.rs: CONFIG GET.
use rust_redis.Prelude.{Option, none, some, List, [], ◌∷◌, Bytes, codes, if◌then◌else◌}
use rust_redis.Prelude.Keys.{bytes_eq}
use rust_redis.Resp.{Resp, bulk_string, array, vec}
use rust_redis.Store.{Store, Config, TryExecuteResult, done}

-- `match &parameter[..]`
unfoldable pub setting : Config → Bytes → Option Bytes
setting config parameter =
    if bytes_eq parameter (codes "dir")
    then some config.dir
    else if bytes_eq parameter (codes "dbfilename")
    then config.dbfilename
    else if bytes_eq parameter (codes "appendonly")
    then some config.appendonly
    else if bytes_eq parameter (codes "appenddirname")
    then some config.appenddirname
    else if bytes_eq parameter (codes "appendfilename")
    then some config.appendfilename
    else if bytes_eq parameter (codes "appendfsync")
    then some config.appendfsync
    else none

abbrev params : Bytes → Option Bytes → List Resp
params parameter none = []
params parameter (some v) = bulk_string parameter ∷ bulk_string v ∷ []

unfoldable pub command_config_get : Bytes → Store → Store × TryExecuteResult
unfolding setting
command_config_get parameter self =
    (self, done (array (vec (params parameter (setting self.config parameter)))))
