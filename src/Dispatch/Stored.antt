-- ===== src/Dispatch/Stored.antt =====
-- server.cpp: a valid set in the place of an entry's, and a new key with an empty set.
use redis_lite.Base.{ℕ, ◌+◌, ◌≡◌, inl, inr, refl, ◌∙◌, sym, ap, [], some}
use mathlib.Core.Option.{some-injective}
use mathlib.Core.Path.{subst}
use redis_lite.Base.Memory.{store, store-cases, store-same, store-other, eq-cases}
use redis_lite.Bytes.{Str}
use redis_lite.HashTable.{HNode, HMap, hm_insert}
use redis_lite.HashTable.Insert.{hm_insert-Inserted}
use redis_lite.HashTable.Lookup.{tally}
use redis_lite.Db.{t_zset, Entry, Db, no_timer, str_hash, entry_eq}
use redis_lite.Db.Set.{added, new_entry, free-none, added-HasValue}
use redis_lite.Db.SetTimed.{added-IsTimed, update-IsTimed}
use redis_lite.ZSet.{ZSet}
use redis_lite.Dispatch.Sets.{empty_zset, add_zset}
use redis_lite.Dispatch.Keyed.{key_of, IsDb-keyed}
use redis_lite.Dispatch.Safe.{IsSafe, IsSomeZSet, empty-IsSomeZSet}

-- A valid set goes in the place of an entry's set.
pub put-IsSafe :
    (d : Db ZSet) (p : ℕ) (ent : Entry ZSet) (z : ZSet)
    → IsSafe d
    → d.entries p ≡ some ent
    → IsSomeZSet z
    → IsSafe (record d { entries = store d.entries p (some (record ent { zset = z })) })
put-IsSafe d p ent z v e w = record {
  nb = v.nb;
  ob = v.ob;
  db =
      IsDb-keyed d (store d.entries p (some (record ent { zset = z }))) v.nb v.ob
        (λ q. elim (store-cases d.entries p q (some (record ent { zset = z })) _ refl) [
          | inl (at, same) ↦ ap key_of (sym same) ∙ sym (ap key_of (ap d.entries at ∙ e))
          | inr (_, same) ↦ ap key_of (sym same)
        ])
        v.db;
  timed = update-IsTimed d p ent (record ent { zset = z }) v.timed e;
  sets = λ q x f. elim (store-cases d.entries p q (some (record ent { zset = z })) (some x) f) [
    | inl (_, same) ↦
        subst (λ (y : Entry ZSet). IsSomeZSet y.zset)
          (some-injective (record ent { zset = z }) x same) w
    | inr (_, g) ↦ v.sets q x g
  ];
}

abbrev pub zset_entry : Str → Entry ZSet
zset_entry key = record { key = key; type = t_zset; str = []; zset = empty_zset }

abbrev pub with_zset : Db ZSet → Str → HMap ℕ → Db ZSet
with_zset d key db = record {
  db = db;
  entries = store d.entries d.fresh (some (zset_entry key));
  heap = record d.heap { idx = store d.heap.idx d.fresh no_timer };
  fresh = d.fresh + 1;
}

add_run :
    (strtod : Str → ℕ × ℕ) (d : Db ZSet) (key : Str) (db : HMap ℕ)
    → hm_insert d.db (record { hcode = str_hash key; item = d.fresh }) ≡ some db
    → add_zset strtod d key ≡ some (with_zset d key db)
unfolding add_zset
add_run strtod d key db e = rw e refl

-- A new key with an empty set.
pub add_zset-IsSafe :
    (strtod : Str → ℕ × ℕ) (d : Db ZSet) (key : Str) (v : IsSafe d)
    → tally v.nb v.ob (entry_eq d key) ≡ 0
    → (db : HMap ℕ) × (add_zset strtod d key ≡ some (with_zset d key db))
      × IsSafe (with_zset d key db)
add_zset-IsSafe strtod d key v gone =
    let node : HNode ℕ = record { hcode = str_hash key; item = d.fresh } in
    let (db, ins, (nb, ob, w)) = hm_insert-Inserted node v.db.map in
    let valid = (added-HasValue d v.nb v.ob empty_zset key [] db nb ob v.db w gone).valid in
    let t = added-IsTimed d (zset_entry key) v.timed (free-none d v.nb v.ob v.db) in
    (
      db,
      add_run strtod d key db ins,
      record {
        nb = nb;
        ob = ob;
        db =
            IsDb-keyed (added d empty_zset key [] db) (with_zset d key db).entries nb ob
              (λ q. elim (eq-cases q d.fresh) [
                | inl at ↦
                    ap key_of (ap (with_zset d key db).entries at)
                    ∙ ap key_of (store-same d.entries d.fresh (some (zset_entry key)))
                    ∙ sym (
                        ap key_of (ap (added d empty_zset key [] db).entries at)
                        ∙ ap key_of
                            (store-same d.entries d.fresh (some (new_entry empty_zset key []))))
                | inr off ↦
                    ap key_of (store-other d.entries d.fresh q (some (zset_entry key)) off)
                    ∙ sym (
                        ap key_of (
                          store-other d.entries d.fresh q (some (new_entry empty_zset key [])) off))
              ])
              valid;
        timed = record {
          heap = t.heap;
          short = t.short;
          owned = t.owned;
          free = t.free;
          held = t.held;
        };
        sets = λ q x f. elim (store-cases d.entries d.fresh q (some (zset_entry key)) (some x) f) [
          | inl (_, same) ↦
              subst (λ (y : Entry ZSet). IsSomeZSet y.zset) (some-injective (zset_entry key) x same)
                empty-IsSomeZSet
          | inr (_, g) ↦ v.sets q x g
        ];
      },
    )
