-- ===== src/Dispatch/Total.antt =====
-- server.cpp: `do_request` on a valid database, whatever the command.
use redis_lite.Base.{
  ℕ, refl, Bool, true, false, List, [], ◌∷◌, Option, some, if◌then◌else◌, Returns,
}
use redis_lite.Bytes.{Str}
use redis_lite.Db.{Db, same_str}
use redis_lite.ZSet.{ZSet}
use redis_lite.Dispatch.Words.{
  name_keys, name_get, name_del, name_pttl, name_set, name_zrem, name_zscore, name_pexpire,
  name_zadd, name_zquery,
}
use redis_lite.Dispatch.Request.{do_request, unknown}
use redis_lite.Dispatch.Safe.{
  IsSafe, IsRoomy, KeepsSafe, get-KeepsSafe, ttl-KeepsSafe, keys-KeepsSafe, expire-KeepsSafe,
  del-KeepsSafe,
}
use redis_lite.Dispatch.Overwrite.{set-KeepsSafe}
use redis_lite.Dispatch.Add.{do_zadd-Added}
use redis_lite.Dispatch.Score.{do_zscore-Scored}
use redis_lite.Dispatch.Drop.{do_zrem-Dropped}
use redis_lite.Dispatch.Range.{do_zquery-Queried}

-- A command is chosen by a test.
choose :
    {A : Type 0} {P : A → Type 0} (b : Bool) (x y : Option A)
    → Returns P x
    → Returns P y
    → Returns P (if b then x else y)
choose true x y p q = p
choose false x y p q = q

first_part :
    {A : Type 0} {P Q : A → Type 0} (o : Option A) → Returns (λ a. P a × Q a) o → Returns P o
first_part o (a, e, pq) = (a, e, pq.0)

module _ (strtod : Str → ℕ × ℕ) (now : ℕ) (d : Db ZSet) (v : IsSafe d) (room : IsRoomy d) where
  no_command : (out : List ℕ) → Returns KeepsSafe (some (d, unknown out))
  no_command out = ((d, unknown out), refl, v)

  -- On a valid database with room for one more timer and for one more node in each sorted set,
  -- `do_request` answers every command, known or not and with any arguments, without a fault: no
  -- assertion fails, no loop runs on, and the database stays valid: the map of keys, the timers, and
  -- the map and the tree of every sorted set.
  pub do_request-KeepsSafe :
      (cmd : List Str) (out : List ℕ) → Returns KeepsSafe (do_request strtod now d cmd out)
  unfolding do_request
  do_request-KeepsSafe [] out = no_command out
  do_request-KeepsSafe (name ∷ []) out =
      choose (same_str name name_keys) _ _ (keys-KeepsSafe d out v) (no_command out)
  do_request-KeepsSafe (name ∷ a ∷ []) out =
      choose (same_str name name_get) _ _ (get-KeepsSafe d a out v) (
        choose (same_str name name_del) _ _ (del-KeepsSafe d a out v)
          (choose (same_str name name_pttl) _ _ (ttl-KeepsSafe now d a out v) (no_command out)))
  do_request-KeepsSafe (name ∷ a ∷ b ∷ []) out =
      choose (same_str name name_set) _ _ (set-KeepsSafe d a b out v) (
        choose (same_str name name_zrem) _ _ (first_part _ (do_zrem-Dropped d a b out v room)) (
          choose (same_str name name_zscore) _ _ (first_part _ (do_zscore-Scored d a b out v)) (
            choose (same_str name name_pexpire) _ _ (expire-KeepsSafe now d a b out v room)
              (no_command out))))
  do_request-KeepsSafe (name ∷ a ∷ b ∷ c ∷ []) out =
      choose (same_str name name_zadd) _ _ (first_part _ (do_zadd-Added strtod d a b c out v room))
        (no_command out)
  do_request-KeepsSafe (name ∷ a ∷ b ∷ c ∷ e ∷ []) out = no_command out
  do_request-KeepsSafe (name ∷ a ∷ b ∷ c ∷ e ∷ f ∷ []) out =
      choose (same_str name name_zquery) _ _
        (first_part _ (do_zquery-Queried strtod d a b c e f out v room)) (no_command out)
  do_request-KeepsSafe (name ∷ a ∷ b ∷ c ∷ e ∷ f ∷ g ∷ more) out = no_command out
