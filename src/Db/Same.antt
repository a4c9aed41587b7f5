-- ===== src/Db/Same.antt =====
-- server.cpp: the invariants of the database, between databases that agree on what they are about.
use redis_lite.Base.{ℕ, ◌≡◌, sym, List}
use mathlib.Core.Path.{subst}
use redis_lite.HashTable.{Chain}
use redis_lite.Db.{Db}
use redis_lite.Db.Lookup.{IsDb}
use redis_lite.Db.Timers.{IsTimed}

module _ {Z : Type 0} (d d' : Db Z) where
  pub IsTimed-same : IsTimed d → d'.entries ≡ d.entries → d'.heap ≡ d.heap → IsTimed d'
  IsTimed-same v e h =
      let start : IsTimed (record d' { entries = d.entries; heap = d.heap }) = record {
        heap = v.heap;
        short = v.short;
        owned = v.owned;
        free = v.free;
        held = v.held;
      } in
      subst (λ m. IsTimed (record d' { heap = m })) (sym h)
        (subst (λ E. IsTimed (record d' { entries = E; heap = d.heap })) (sym e) start)

  pub IsDb-same :
      (nb ob : List (Chain ℕ))
      → IsDb d nb ob
      → d'.db ≡ d.db
      → d'.entries ≡ d.entries
      → d'.fresh ≡ d.fresh
      → IsDb d' nb ob
  IsDb-same nb ob v m e f =
      let start : IsDb (record d' { db = d.db; entries = d.entries; fresh = d.fresh }) nb ob =
        record {
          map = v.map;
          live = v.live;
          unique = v.unique;
          below = v.below;
          rooted = v.rooted;
        } in
      subst (λ n. IsDb (record d' { fresh = n }) nb ob) (sym f)
        (subst (λ E. IsDb (record d' { entries = E; fresh = d.fresh }) nb ob) (sym e)
          (subst (λ x. IsDb (record d' { db = x; entries = d.entries; fresh = d.fresh }) nb ob)
            (sym m) start))
