-- ===== src/Db/Expired.antt =====
-- `process_timers` of server.cpp, on the entries whose timers have ended.
use redis_lite.Base.{
  ℕ, suc, ◌+◌, ◌≤◌, ◌<◌, ◌≡◌, ◌≢◌, inl, inr, refl, ◌∙◌, sym, ap, Bool, true, false, List, [], ◌∷◌,
  Option, none, some, ◌>>=◌, ltb, ◌==◌, ◌&&◌, arith, count, to_nat, length, Bool-cases,
  Option-cases,
}
use mathlib.Core.Bool.{not}
use mathlib.Core.Path.{subst}
use redis_lite.HashTable.{HNode, HMap, Chain, hits, hm_delete}
use redis_lite.HashTable.Shape.{IsMap}
use redis_lite.HashTable.Buckets.{chain_nodes}
use redis_lite.HashTable.Lookup.{tally}
use redis_lite.HashTable.Delete.{hm_delete-Deleted}
use redis_lite.Heap.{HeapItem}
use redis_lite.Heap.Order.{at}
use redis_lite.Heap.Links.{is_owner}
use redis_lite.Ttl.Owners.{linked_once}
use redis_lite.Db.{Entry, Db, str_hash, entry_del}
use redis_lite.Db.Store.{==-true, ==-same, store-same}
use redis_lite.Db.Lookup.{IsDb, IsEntry, is_wrong, is_stale, and_right}
use redis_lite.Db.Timers.{IsTimed, Freed, entry_del-Freed}
use redis_lite.Db.Same.{IsTimed-same}
use redis_lite.Db.Del.{freed-IsDb, freed_other, freed_only}
use redis_lite.Db.Expire.{hnode_same, free_expired, expire_key}

-- A timer of the entry at `q` that has ended.
abbrev pub has_ended : ℕ → ℕ → HeapItem → Bool
has_ended now q t = is_owner q t && ltb t.val now

count-split :
    (f : HeapItem → Bool) (a : List HeapItem) → count f a + count (λ t. not (f t)) a ≡ length a
count-split f [] = refl
count-split f (t ∷ a) = elim (Bool-cases (f t)) [
  | inl e ↦ rw e (omega (arith, count-split f a))
  | inr e ↦ rw e (omega (arith, count-split f a))
]

pub none_ended :
    (now k : ℕ) (a : List HeapItem)
    → ((i : ℕ) → i < length a → k ≤ (at a i).val)
    → now ≤ k
    → count (λ t. ltb t.val now) a ≡ 0
none_ended now k [] h le = refl
none_ended now k (t ∷ a) h le =
    ground (arith, h 0 (omega arith), none_ended now k a (λ i p. h (suc i) (omega (arith, p))) le)

module _ {Z : Type 0} where
  -- The node of an entry is hit by its address and the hash code of its key.
  node_hits :
      (hcode p i : ℕ) (o : Option (Entry Z)) (ent : Entry Z)
      → ((i == p) ≡ true → o ≡ some ent)
      → to_nat (i == p)
        ≤ to_nat ((hcode == str_hash ent.key) && (i == p)) + to_nat (is_wrong hcode o)
  node_hits hcode p i o ent same = elim (Bool-cases (i == p)) [
    | inl e ↦
        rw (e, same e)
          (elim (Bool-cases (hcode == str_hash ent.key)) [
            | inl h ↦ rw h (omega arith)
            | inr h ↦ rw h (omega arith)
          ])
    | inr e ↦ rw e (omega arith)
  ]

  count-node_hits :
      (d : Db Z) (p : ℕ) (ent : Entry Z) (c : Chain ℕ)
      → d.entries p ≡ some ent
      → count (λ n. n.item == p) c
        ≤ count (hits (str_hash ent.key) (hnode_same p)) c + count (is_stale d) c
  count-node_hits d p ent [] e = omega arith
  count-node_hits d p ent (n ∷ c) e = omega (
    arith,
    node_hits n.hcode p n.item (d.entries n.item) ent
        (λ same. ap d.entries (==-true n.item p same) ∙ e),
    count-node_hits d p ent c e,
  )

  -- The entry at `p` and its timer are gone, and all else is kept.
  pub record Expired (d : Db Z) (nb ob : List (Chain ℕ)) (p : ℕ) (d' : Db Z)
      (nb' ob' : List (Chain ℕ)) : Type 0 where
    pub valid : IsDb d' nb' ob'
    pub timed : IsTimed d'
    pub others : (q : ℕ) (x : Entry Z) → q ≢ p → IsEntry d nb ob q x → IsEntry d' nb' ob' q x
    pub only : (q : ℕ) (x : Entry Z) → IsEntry d' nb' ob' q x → IsEntry d nb ob q x
    pub timers :
        (f : HeapItem → Bool)
        → ((t : HeapItem) → t.ref ≡ p → f t ≡ false)
        → count f d'.heap.items ≡ count f d.heap.items
    pub freed : d'.entries p ≡ none
    pub gone : count (is_owner p) d'.heap.items ≡ 0
    pub shorter : length d'.heap.items + 1 ≡ length d.heap.items

  expire_found :
      (zset_clear : Z → Z) (d d' : Db Z) (p : ℕ) (ent : Entry Z) (node : HNode ℕ) (db : HMap ℕ)
      → d.entries p ≡ some ent
      → hm_delete d.db (str_hash ent.key) (hnode_same p) ≡ some (some node, db)
      → entry_del zset_clear (record d { db = db }) p ≡ some d'
      → expire_key zset_clear d p ≡ some (true, d')
  unfolding expire_key free_expired
  expire_found zset_clear d d' p ent node db e f g = rw (e, ◌>>=◌, f, ◌>>=◌, g) refl

  -- A freed entry with one timer leaves one timer fewer.
  one_shorter :
      (d d' : Db Z) (p : ℕ)
      → IsTimed d
      → 0 < count (is_owner p) d.heap.items
      → Freed d p d'
      → d'.entries p ≡ none
      → length d'.heap.items + 1 ≡ length d.heap.items
  one_shorter d d' p t one s gone = omega (
    arith,
    one,
    linked_once d.heap p t.heap.linked,
    s.timed.held p gone,
    s.timers (λ t. not (is_owner p t)) (λ t e. ap not (ap (λ r. r == p) e ∙ ==-same p)),
    count-split (is_owner p) d.heap.items,
    count-split (is_owner p) d'.heap.items,
  )

  Freed-Expired :
      (d d' : Db Z) (nb ob nb' ob' : List (Chain ℕ)) (db : HMap ℕ) (node : HNode ℕ) (ent : Entry Z)
      → IsDb d nb ob
      → IsTimed (record d { db = db })
      → 0 < count (is_owner node.item) d.heap.items
      → d.entries node.item ≡ some ent
      → IsMap db nb' ob'
      → ((f : HNode ℕ → Bool) → tally nb' ob' f + to_nat (f node) ≡ tally nb ob f)
      → Freed (record d { db = db }) node.item d'
      → Expired d nb ob node.item d' nb' ob'
  Freed-Expired d d' nb ob nb' ob' db node ent v t one e map less s = record {
    valid = freed-IsDb d d' nb ob nb' ob' db node ent v e map less s;
    timed = s.timed;
    others = freed_other d d' nb ob nb' ob' db node ent v e map less s;
    only = freed_only d d' nb ob nb' ob' db node ent v e map less s;
    timers = s.timers;
    freed = ap (λ E. E node.item) s.entries ∙ store-same d.entries node.item none;
    gone =
        s.timed.held node.item
          (ap (λ E. E node.item) s.entries ∙ store-same d.entries node.item none);
    shorter =
        one_shorter (record d { db = db }) d' node.item t one s
          (ap (λ E. E node.item) s.entries ∙ store-same d.entries node.item none);
  }

  pub expire_key-Expired :
      (zset_clear : Z → Z) (d : Db Z) (nb ob : List (Chain ℕ)) (p : ℕ)
      → IsDb d nb ob
      → IsTimed d
      → 0 < count (is_owner p) d.heap.items
      → (d' : Db Z) × (expire_key zset_clear d p ≡ some (true, d'))
        × ((nb' : List (Chain ℕ)) × (ob' : List (Chain ℕ)) × Expired d nb ob p d' nb' ob')
  expire_key-Expired zset_clear d nb ob p v t one = elim (Option-cases (d.entries p)) [
    | inl lost ↦ absurd (omega (arith, one, t.held p lost))
    | inr (ent, e) ↦
        let ((o, db), run, (nb', ob', s)) =
          hm_delete-Deleted (str_hash ent.key) (hnode_same p) v.map in
        elim s.removes [
          | inl (_, zero_hits, _) ↦ absurd (
              omega (
                arith,
                zero_hits,
                v.rooted p ent e,
                v.live,
                count-node_hits d p ent (chain_nodes nb) e,
                count-node_hits d p ent (chain_nodes ob) e,
              ))
          | inr (n, f, h, less) ↦
              let own =
                ==-true n.item p (and_right (n.hcode == str_hash ent.key) (n.item == p) h) in
              let e' = ap d.entries own ∙ e in
              let t' = IsTimed-same d (record d { db = db }) t refl refl in
              let (d', freed, w) =
                entry_del-Freed zset_clear (record d { db = db }) n.item ent t' e' in
              (
                d',
                expire_found zset_clear d d' p ent n db e (run ∙ ap (λ q. some (q, db)) f)
                    (ap (λ q. entry_del zset_clear (record d { db = db }) q) (sym own) ∙ freed),
                (
                  nb',
                  ob',
                  subst (λ q. Expired d nb ob q d' nb' ob') own
                      (Freed-Expired d d' nb ob nb' ob' db n ent v t'
                        (omega (arith, one, ap (λ q. count (is_owner q) d.heap.items) own)) e'
                        s.valid less w),
                ),
              )
        ]
  ]
