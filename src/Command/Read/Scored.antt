-- ===== src/Command/Read/Scored.antt =====
-- src/command.rs: `from_resp` for the commands on sorted sets and positions, ACL and AUTH.
use rust_redis.Prelude.{◌||◌, Option, none, some, List, [], ◌∷◌, Bytes, codes, ◌==◌, if◌then◌else◌}
use rust_redis.Prelude.Keys.{bytes_eq}
use rust_redis.Parser.{Outcome, ok, panic, ◌>>=◌}
use rust_redis.Platform.{Platform}
use rust_redis.Resp.{Resp}
use rust_redis.Command.{Command}
use rust_redis.Command.Read.Args.{text, parsed, from}
use rust_redis.Command.Read.Data.{i32_at}
use rust_redis.Command.Read.Server.{strings}

-- One, two or three strings.
abbrev one_text : (Bytes → Command) → List Resp → Outcome (Option Command)
unfolding text
one_text command els = do a ← text els 1; ok (some (command a))

abbrev two_texts : (Bytes → Bytes → Command) → List Resp → Outcome (Option Command)
unfolding text
two_texts command els = do a ← text els 1; b ← text els 2; ok (some (command a b))

abbrev three_texts : (Bytes → Bytes → Bytes → Command) → List Resp → Outcome (Option Command)
unfolding text
three_texts command els = do
  a ← text els 1
  b ← text els 2
  c ← text els 3
  ok (some (command a b c))

abbrev zadd_command : Platform → List Resp → Outcome (Option Command)
unfolding text
zadd_command p els = do
  key ← text els 1
  score ← parsed p.floats.parse els 2
  member ← text els 3
  ok (some (Command.zadd key score member))

abbrev zrange_command : List Resp → Outcome (Option Command)
unfolding text
zrange_command els = do
  key ← text els 1
  start ← i32_at els 2
  stop ← i32_at els 3
  ok (some (Command.zrange key start stop))

abbrev geoadd_command : Platform → List Resp → Outcome (Option Command)
unfolding text
geoadd_command p els = do
  key ← text els 1
  longitude ← parsed p.floats.parse els 2
  latitude ← parsed p.floats.parse els 3
  member ← text els 4
  ok (some (Command.geoadd key longitude latitude member))

abbrev geopos_command : List Resp → Outcome (Option Command)
unfolding text strings
geopos_command els = do
  key ← text els 1
  rest ← from els 2
  members ← strings rest
  ok (some (Command.geopos key members))

-- `assert!(word == expected)`
abbrev expect_word : Bytes → Bytes → Outcome Bytes
expect_word expected word = if bytes_eq word expected then ok word else panic

abbrev known_unit : Bytes → Outcome Bytes
known_unit unit =
    if bytes_eq unit (codes "M")
      || bytes_eq unit (codes "KM")
      || bytes_eq unit (codes "FT")
      || bytes_eq unit (codes "MI")
    then ok unit
    else panic

abbrev geosearch_command : Platform → List Resp → Outcome (Option Command)
unfolding text
geosearch_command p els = do
  key ← text els 1
  fromlonlat ← text els 2
  _ ← expect_word (codes "FROMLONLAT") fromlonlat
  longitude ← parsed p.floats.parse els 3
  latitude ← parsed p.floats.parse els 4
  byradius ← text els 5
  _ ← expect_word (codes "BYRADIUS") byradius
  radius ← parsed p.floats.parse els 6
  unit_text ← text els 7
  unit ← known_unit (p.to_uppercase unit_text)
  ok (some (Command.geosearch key longitude latitude radius unit))

-- `assert!(password.starts_with(">")); password.remove(0);`
abbrev without_mark : Bytes → Outcome Bytes
without_mark [] = panic
without_mark (c ∷ password) = if c == b'>' then ok password else panic

abbrev setuser_command : List Resp → Outcome (Option Command)
unfolding text
setuser_command els = do
  username ← text els 2
  marked ← text els 3
  password ← without_mark marked
  ok (some (Command.acl_setuser username password))

abbrev getuser_command : List Resp → Outcome (Option Command)
unfolding text
getuser_command els = do username ← text els 2; ok (some (Command.acl_getuser username))

abbrev pub acl_word : Bytes → List Resp → Outcome (Option Command)
unfolding setuser_command getuser_command
acl_word word els =
    if bytes_eq word (codes "WHOAMI")
    then ok (some Command.acl_whoami)
    else if bytes_eq word (codes "GETUSER")
    then getuser_command els
    else if bytes_eq word (codes "SETUSER")
    then setuser_command els
    else ok none

abbrev acl_command : List Resp → Outcome (Option Command)
unfolding text acl_word
acl_command els = do word ← text els 1; acl_word word els

unfoldable pub scored_command :
    Platform → Bytes → List Resp → Outcome (Option Command) → Outcome (Option Command)
unfolding one_text two_texts three_texts zadd_command zrange_command geoadd_command geopos_command
    geosearch_command acl_command
scored_command p name els other =
    if bytes_eq name (codes "ZADD")
    then zadd_command p els
    else if bytes_eq name (codes "ZRANK")
    then two_texts Command.zrank els
    else if bytes_eq name (codes "ZRANGE")
    then zrange_command els
    else if bytes_eq name (codes "ZCARD")
    then one_text Command.zcard els
    else if bytes_eq name (codes "ZSCORE")
    then two_texts Command.zscore els
    else if bytes_eq name (codes "ZREM")
    then two_texts Command.zrem els
    else if bytes_eq name (codes "GEOADD")
    then geoadd_command p els
    else if bytes_eq name (codes "GEOPOS")
    then geopos_command els
    else if bytes_eq name (codes "GEODIST")
    then three_texts Command.geodist els
    else if bytes_eq name (codes "GEOSEARCH")
    then geosearch_command p els
    else if bytes_eq name (codes "ACL")
    then acl_command els
    else if bytes_eq name (codes "AUTH")
    then two_texts Command.auth els
    else other
