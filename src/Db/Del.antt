-- ===== src/Db/Del.antt =====
-- `do_del` of server.cpp.
use redis_lite.Base.{
  ℕ, ◌+◌, ◌<◌, ◌≡◌, ◌≢◌, ◌⊎◌, inl, inr, refl, ◌∙◌, sym, ap, Bool, true, List, Option, none, some,
  ◌>>=◌, ◌==◌, arith, to_nat,
}
use mathlib.Core.Path.{subst}
use redis_lite.Bytes.{Str}
use redis_lite.HashTable.{HNode, HMap, Chain, hm_delete}
use redis_lite.HashTable.Shape.{IsMap}
use redis_lite.HashTable.Lookup.{tally}
use redis_lite.HashTable.Delete.{hm_delete-Deleted}
use redis_lite.Reply.{out_int}
use redis_lite.Db.{Entry, Db, str_hash, store, entry_eq, entry_del}
use redis_lite.Db.Commands.{do_del}
use redis_lite.Db.Lookup.{IsDb, IsEntry, is_stale, missing, hit-IsEntry, and_right, eq_refl}
use redis_lite.Db.Delete.{
  left_live, left_keys, left_below, left_rooted, left_kept, left_only, left_other,
}
use redis_lite.Db.Timers.{IsTimed, Freed, entry_del-Freed}

module _ {Z : Type 0} where
  -- No entry has the key and the entries are the same, or one has and is gone, and the
  -- entries of all other keys are the same.
  abbrev pub Outcome :
      Db Z
      → List (Chain ℕ)
      → List (Chain ℕ)
      → Str
      → List ℕ
      → Db Z × List ℕ
      → List (Chain ℕ)
      → List (Chain ℕ)
      → Type 0
  Outcome d nb ob key out r nb' ob' =
      ((tally nb ob (entry_eq d key) ≡ 0) × (r.0.entries ≡ d.entries) × (r.1 ≡ out_int out 0))
      ⊎ ((0 < tally nb ob (entry_eq d key))
          × (tally nb' ob' (entry_eq r.0 key) ≡ 0)
          × ((q : ℕ) (x : Entry Z) → x.key ≢ key → IsEntry d nb ob q x → IsEntry r.0 nb' ob' q x)
          × ((q : ℕ) (x : Entry Z) → IsEntry r.0 nb' ob' q x → IsEntry d nb ob q x)
          × (r.1 ≡ out_int out 1))

  pub record Gone (d : Db Z) (nb ob : List (Chain ℕ)) (key : Str) (out : List ℕ) (r : Db Z × List ℕ)
      (nb' ob' : List (Chain ℕ)) : Type 0 where
    pub valid : IsDb r.0 nb' ob'
    pub timed : IsTimed r.0
    pub outcome : Outcome d nb ob key out r nb' ob'

  del_none :
      (zset_clear : Z → Z) (d : Db Z) (key : Str) (out : List ℕ) (db : HMap ℕ)
      → hm_delete d.db (str_hash key) (entry_eq d key) ≡ some (none, db)
      → do_del zset_clear d key out ≡ some (record d { db = db }, out_int out 0)
  unfolding do_del
  del_none zset_clear d key out db e = rw e refl

  del_some :
      (zset_clear : Z → Z) (d d' : Db Z) (key : Str) (out : List ℕ) (db : HMap ℕ) (n : HNode ℕ)
      → hm_delete d.db (str_hash key) (entry_eq d key) ≡ some (some n, db)
      → entry_del zset_clear (record d { db = db }) n.item ≡ some d'
      → do_del zset_clear d key out ≡ some (d', out_int out 1)
  unfolding do_del
  del_some zset_clear d d' key out db n e f = rw (e, ◌>>=◌, f) refl

  -- The database with a map, entries, and timers of their own.
  abbrev with_entries : Db Z → HMap ℕ → (ℕ → Option (Entry Z)) → Db Z → Db Z
  with_entries d db E d' = record d' { db = db; entries = E; fresh = d.fresh }

  Freed-form :
      (d d' : Db Z) (db : HMap ℕ) (p : ℕ)
      → Freed (record d { db = db }) p d'
      → with_entries d db (store d.entries p none) d' ≡ d'
  Freed-form d d' db p s =
      ap (λ m. record d' { db = m; entries = store d.entries p none; fresh = d.fresh }) (sym s.db)
      ∙ ap (λ E. record d' { entries = E; fresh = d.fresh }) (sym s.entries)
      ∙ ap (λ f. record d' { fresh = f }) (sym s.fresh)

  -- After the node of an entry has left the map, and the entry is freed.
  module _ (d d' : Db Z) (nb ob nb' ob' : List (Chain ℕ)) (db : HMap ℕ) (node : HNode ℕ)
      (ent : Entry Z) (v : IsDb d nb ob) (e : d.entries node.item ≡ some ent)
      (map : IsMap db nb' ob')
      (less : (f : HNode ℕ → Bool) → tally nb' ob' f + to_nat (f node) ≡ tally nb ob f)
      (s : Freed (record d { db = db }) node.item d') where
    abbrev form : Db Z
    form = with_entries d db (store d.entries node.item none) d'

    form-IsDb : IsDb form nb' ob'
    form-IsDb = record {
      map = map;
      live = left_live d nb ob nb' ob' node.item node ent v e refl less;
      unique = λ l.
          omega (arith, left_keys d nb ob nb' ob' node.item node ent v e refl less l, v.unique l);
      below = left_below d nb ob nb' ob' node.item node ent v e refl less;
      rooted = left_rooted d nb ob nb' ob' node.item node ent v e refl less;
    }

    pub freed-IsDb : IsDb d' nb' ob'
    freed-IsDb = subst (λ x. IsDb x nb' ob') (Freed-form d d' db node.item s) form-IsDb

    pub freed_other :
        (q : ℕ) (x : Entry Z) → q ≢ node.item → IsEntry d nb ob q x → IsEntry d' nb' ob' q x
    freed_other q x off here =
        subst (λ y. IsEntry y nb' ob' q x) (Freed-form d d' db node.item s)
          (left_other d nb ob nb' ob' node.item node ent v e refl less q x off here)

    pub freed_only : (q : ℕ) (x : Entry Z) → IsEntry d' nb' ob' q x → IsEntry d nb ob q x
    freed_only q x here =
        left_only d nb ob nb' ob' node.item node ent v e refl less q x
          (subst (λ y. IsEntry y nb' ob' q x) (sym (Freed-form d d' db node.item s)) here)

  module _ (d d' : Db Z) (nb ob nb' ob' : List (Chain ℕ)) (key : Str) (out : List ℕ) (db : HMap ℕ)
      (node : HNode ℕ) (ent : Entry Z) (v : IsDb d nb ob) (e : d.entries node.item ≡ some ent)
      (k : ent.key ≡ key) (hit : entry_eq d key node ≡ true) (map : IsMap db nb' ob')
      (less : (f : HNode ℕ → Bool) → tally nb' ob' f + to_nat (f node) ≡ tally nb ob f)
      (s : Freed (record d { db = db }) node.item d') where
    form-Outcome :
        Outcome d nb ob key out
          (with_entries d db (store d.entries node.item none) d', out_int out 1)
          nb'
          ob'
    form-Outcome = inr (
      omega (arith, less (entry_eq d key), ap to_nat hit),
      omega (
        arith,
        left_keys d nb ob nb' ob' node.item node ent v e refl less key,
        v.unique key,
        ap to_nat hit,
      ),
      λ q x other.
          left_kept d nb ob nb' ob' node.item node ent v e refl less q x (λ same. other (same ∙ k)),
      left_only d nb ob nb' ob' node.item node ent v e refl less,
      refl,
    )

    freed-Gone : Gone d nb ob key out (d', out_int out 1) nb' ob'
    freed-Gone = record {
      valid = freed-IsDb d d' nb ob nb' ob' db node ent v e map less s;
      timed = s.timed;
      outcome =
          subst (λ x. Outcome d nb ob key out (x, out_int out 1) nb' ob')
            (Freed-form d d' db node.item s) form-Outcome;
    }

  -- On a valid database with valid timers `do_del` does not fault, and both stay valid. If no entry
  -- has the key, the entries are unchanged and the reply is 0; if one has, no entry has the key
  -- afterwards, the entries of all other keys are the same and no other is there, and the reply is 1.
  pub do_del-Gone :
      (zset_clear : Z → Z) (d : Db Z) (nb ob : List (Chain ℕ)) (key : Str) (out : List ℕ)
      → IsDb d nb ob
      → IsTimed d
      → (r : Db Z × List ℕ) × (do_del zset_clear d key out ≡ some r)
        × ((nb' : List (Chain ℕ)) × (ob' : List (Chain ℕ)) × Gone d nb ob key out r nb' ob')
  do_del-Gone zset_clear d nb ob key out v t =
      let ((o, db), run, (nb', ob', s)) = hm_delete-Deleted (str_hash key) (entry_eq d key) v.map in
      elim s.removes [
        | inl (e, zero_hits, same) ↦ (
          (record d { db = db }, out_int out 0),
          del_none zset_clear d key out db (run ∙ ap (λ q. some (q, db)) e),
          (
            nb',
            ob',
            record {
              valid = record {
                map = s.valid;
                live = same (is_stale d) ∙ v.live;
                unique = λ l. omega (arith, same (entry_eq d l), v.unique l);
                below = v.below;
                rooted = λ q x f. omega (arith, same (λ n. n.item == q), v.rooted q x f);
              };
              timed = record {
                heap = t.heap;
                short = t.short;
                owned = t.owned;
                free = t.free;
                held = t.held;
              };
              outcome = inl (missing d nb ob key v zero_hits, refl, refl);
            },
          ),
        )
        | inr (n, e, h, less) ↦
            let here : 0 < tally nb ob (λ m. m.item == n.item) =
              omega (arith, less (λ m. m.item == n.item), ap to_nat (eq_refl n.item)) in
            let (ent, (f, _), k) = hit-IsEntry d nb ob key n h here in
            let d₁ : Db Z = record d { db = db } in
            let t₁ : IsTimed d₁ = record {
              heap = t.heap;
              short = t.short;
              owned = t.owned;
              free = t.free;
              held = t.held;
            } in
            let (d', freed, w) = entry_del-Freed zset_clear d₁ n.item ent t₁ f in
            (
              (d', out_int out 1),
              del_some zset_clear d d' key out db n (run ∙ ap (λ q. some (q, db)) e) freed,
              (
                nb',
                ob',
                freed-Gone d d' nb ob nb' ob' key out db n ent v f k
                    (and_right (n.hcode == str_hash key) (entry_eq d key n) h) s.valid less w,
              ),
            )
      ]
