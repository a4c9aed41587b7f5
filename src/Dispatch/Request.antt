-- ===== src/Dispatch/Request.antt =====
-- `do_request` of server.cpp.
use redis_lite.Base.{ℕ, List, [], ◌∷◌, Option, some, if◌then◌else◌}
use redis_lite.Bytes.{Str}
use redis_lite.Reply.{out_err, err_unknown}
use redis_lite.Db.{Db, same_str}
use redis_lite.Db.Commands.{do_get, do_set, do_del, do_keys, do_expire, do_ttl}
use redis_lite.ZSet.{ZSet, zset_clear}
use redis_lite.Dispatch.Words.{
  unknown_command, name_keys, name_get, name_del, name_pttl, name_set, name_zrem, name_zscore,
  name_pexpire, name_zadd, name_zquery,
}
use redis_lite.Dispatch.Sets.{do_zadd, do_zrem, do_zscore, do_zquery, empty_zset}

abbrev pub unknown : List ℕ → List ℕ
unknown out = out_err out err_unknown unknown_command

module _ (strtod : Str → ℕ × ℕ) where
  -- The tests of the command's size and name; the second test for `del` is never reached.
  unfoldable pub do_request : ℕ → Db ZSet → List Str → List ℕ → Option (Db ZSet × List ℕ)
  do_request now d (name ∷ []) out =
      if same_str name name_keys then do_keys d out else some (d, unknown out)
  do_request now d (name ∷ a ∷ []) out =
      if same_str name name_get
      then do_get d a out
      else if same_str name name_del
      then do_del zset_clear d a out
      else if same_str name name_pttl
      then do_ttl now d a out
      else some (d, unknown out)
  do_request now d (name ∷ a ∷ b ∷ []) out =
      if same_str name name_set
      then do_set empty_zset d a b out
      else if same_str name name_zrem
      then do_zrem d a b out
      else if same_str name name_zscore
      then do_zscore d a b out
      else if same_str name name_pexpire
      then do_expire now d a b out
      else some (d, unknown out)
  do_request now d (name ∷ a ∷ b ∷ c ∷ []) out =
      if same_str name name_zadd then do_zadd strtod d a b c out else some (d, unknown out)
  do_request now d (name ∷ a ∷ b ∷ c ∷ e ∷ f ∷ []) out =
      if same_str name name_zquery then do_zquery strtod d a b c e f out else some (d, unknown out)
  do_request now d _ out = some (d, unknown out)
