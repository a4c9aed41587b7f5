-- ===== src/Dispatch/Safe.antt =====
-- server.cpp: what every command keeps, and the commands on strings and deadlines.
use redis_lite.Base.{
  ℕ, ◌+◌, ◌<◌, ◌≡◌, inl, inr, refl, ◌∙◌, sym, ap, List, some, arith, length, Returns, [],
}
use redis_lite.Bytes.{Str}
use redis_lite.HashTable.{Chain}
use redis_lite.Avl.Inorder.{size}
use redis_lite.Db.{Entry, Db, no_timer}
use redis_lite.Db.Commands.{do_get, do_del, do_keys, do_expire, do_ttl}
use redis_lite.Db.Lookup.{IsDb}
use redis_lite.Db.Timers.{IsTimed}
use redis_lite.Db.Same.{IsTimed-same}
use redis_lite.Db.Get.{do_get-Got}
use redis_lite.Db.Del.{do_del-Gone}
use redis_lite.Db.Keys.{do_keys-AreKeys}
use redis_lite.Db.Ask.{do_ttl-Asked}
use redis_lite.Db.Expiring.{do_expire-Expiring}
use redis_lite.ZSet.{ZSet, zset_clear}
use redis_lite.ZSet.Valid.{IsZSet}
use redis_lite.Dispatch.Sets.{empty_zset}
use redis_lite.HashTable.Shape.{unused}
use redis_lite.Db.Dated.{not_both}

-- The set is valid, on some arrays of chains.
abbrev pub IsSomeZSet : ZSet → Type 0
IsSomeZSet z = (nb : List (Chain ℕ)) × (ob : List (Chain ℕ)) × IsZSet z nb ob

-- The database, its timers and the sorted sets of its entries are valid.
pub record IsSafe (d : Db ZSet) : Type 0 where
  pub nb : List (Chain ℕ)
  pub ob : List (Chain ℕ)
  pub db : IsDb d nb ob
  pub timed : IsTimed d
  pub sets : (p : ℕ) (ent : Entry ZSet) → d.entries p ≡ some ent → IsSomeZSet ent.zset

-- There is room for one more timer, and for one more node in each sorted set.
pub record IsRoomy (d : Db ZSet) : Type 0 where
  pub timers : length d.heap.items + 1 < no_timer
  pub sets : (p : ℕ) (ent : Entry ZSet) → d.entries p ≡ some ent → size ent.zset.root < 2147483647

abbrev pub KeepsSafe : Db ZSet × List ℕ → Type 0
KeepsSafe r = IsSafe r.0

pub IsSafe-same :
    (d d' : Db ZSet) (nb ob : List (Chain ℕ))
    → IsSafe d
    → IsDb d' nb ob
    → d'.entries ≡ d.entries
    → d'.heap ≡ d.heap
    → IsSafe d'
IsSafe-same d d' nb ob v w e h = record {
  nb = nb;
  ob = ob;
  db = w;
  timed = IsTimed-same d d' v.timed e h;
  sets = λ p ent f. v.sets p ent (ap (λ E. E p) (sym e) ∙ f);
}

pub get-KeepsSafe :
    (d : Db ZSet) (key : Str) (out : List ℕ) → IsSafe d → Returns KeepsSafe (do_get d key out)
get-KeepsSafe d key out v =
    let (r, run, (nb, ob, s)) = do_get-Got d v.nb v.ob key out v.db in
    (r, run, IsSafe-same d r.0 nb ob v s.valid s.entries s.heap)

pub ttl-KeepsSafe :
    (now : ℕ) (d : Db ZSet) (key : Str) (out : List ℕ)
    → IsSafe d
    → Returns KeepsSafe (do_ttl now d key out)
ttl-KeepsSafe now d key out v =
    let (r, run, (nb, ob, s)) = do_ttl-Asked now d v.nb v.ob key out v.db v.timed in
    (r, run, IsSafe-same d r.0 nb ob v s.valid s.entries s.heap)

pub keys-KeepsSafe : (d : Db ZSet) (out : List ℕ) → IsSafe d → Returns KeepsSafe (do_keys d out)
keys-KeepsSafe d out v = let (keys, run, _, _) = do_keys-AreKeys d v.nb v.ob out v.db in (_, run, v)

pub expire-KeepsSafe :
    (now : ℕ) (d : Db ZSet) (key ttl : Str) (out : List ℕ)
    → IsSafe d
    → IsRoomy d
    → Returns KeepsSafe (do_expire now d key ttl out)
expire-KeepsSafe now d key ttl out v room =
    let (r, run, (nb, ob, s)) =
      do_expire-Expiring now d v.nb v.ob key ttl out v.db v.timed room.timers in
    (
      r,
      run,
      record {
        nb = nb;
        ob = ob;
        db = s.valid;
        timed = s.timed;
        sets = λ p ent f. v.sets p ent (ap (λ E. E p) (sym s.entries) ∙ f);
      },
    )

pub del-KeepsSafe :
    (d : Db ZSet) (key : Str) (out : List ℕ)
    → IsSafe d
    → Returns KeepsSafe (do_del zset_clear d key out)
del-KeepsSafe d key out v =
    let (r, run, (nb, ob, s)) = do_del-Gone zset_clear d v.nb v.ob key out v.db v.timed in
    (
      r,
      run,
      record {
        nb = nb;
        ob = ob;
        db = s.valid;
        timed = s.timed;
        sets = λ p ent f. elim s.outcome [
          | inl (_, same, _) ↦ v.sets p ent (ap (λ E. E p) (sym same) ∙ f)
          | inr (_, _, _, only, _) ↦ v.sets p ent (only p ent (f, s.valid.rooted p ent f)).0
        ];
      },
    )

pub empty-IsSomeZSet : IsSomeZSet empty_zset
empty-IsSomeZSet = (
  [],
  [],
  record {
    map = record {
      map = unused refl refl refl refl;
      live = refl;
      unique = λ k. omega arith;
      below = λ p ent e. absurd (not_both e);
      rooted = λ p ent e. absurd (not_both e);
    };
    tree = _;
    sorted = _;
    same = λ f. refl;
  },
)
