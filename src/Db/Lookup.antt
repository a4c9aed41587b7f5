-- ===== src/Db/Lookup.antt =====
-- server.cpp: the database's invariant, and looking a key up in it.
use redis_lite.Base.{
  ℕ, ◌+◌, ◌≤◌, ◌<◌, ◌≡◌, ◌⊎◌, inl, inr, refl, ◌∙◌, ap, Bool, true, List, [], ◌∷◌, Option, none,
  some, ◌==◌, ◌&&◌, arith, count, to_nat, Bool-cases,
}
use mathlib.Core.Bool.{not}
use mathlib.Core.Path.{ap₂}
use redis_lite.Bytes.{Str}
use redis_lite.HashTable.{HNode, HMap, Chain, hits, hm_lookup}
use redis_lite.HashTable.Buckets.{chain_nodes}
use redis_lite.HashTable.Rehash.{SameNodes}
use redis_lite.HashTable.Shape.{IsMap}
use redis_lite.HashTable.Lookup.{tally, hm_lookup-LookedUp}
use redis_lite.Db.{Entry, Db, str_hash, same_str, has_key, entry_eq, lookup_key}

pub same_str_sound : (s t : Str) → same_str s t ≡ true → s ≡ t
same_str_sound [] [] e = refl
same_str_sound (a ∷ s) (b ∷ t) e =
    ap₂ (λ x y. x ∷ y) (ground (arith, e)) (same_str_sound s t (ground (arith, e)))
same_str_sound [] (b ∷ t) e = cc
same_str_sound (a ∷ s) [] e = cc

pub eq_refl : (n : ℕ) → (n == n) ≡ true
eq_refl n = ground arith

pub and_right : (a b : Bool) → (a && b) ≡ true → b ≡ true
and_right a b e = ground arith

module _ {Z : Type 0} where
  -- A node of a freed entry, or with a hash code that is not its key's.
  abbrev pub is_wrong : ℕ → Option (Entry Z) → Bool
  is_wrong hcode none = true
  is_wrong hcode (some ent) = not (hcode == str_hash ent.key)

  abbrev pub is_stale : Db Z → HNode ℕ → Bool
  is_stale d n = is_wrong n.hcode (d.entries n.item)

  -- The map is valid, its nodes are those of entries, with the hash codes of their keys, no two of
  -- them have the same key, the addresses that `new` will give are free, and no entry is lost.
  pub record IsDb (d : Db Z) (nb ob : List (Chain ℕ)) : Type 0 where
    pub map : IsMap d.db nb ob
    pub live : tally nb ob (is_stale d) ≡ 0
    pub unique : (key : Str) → tally nb ob (entry_eq d key) ≤ 1
    pub below : (p : ℕ) (ent : Entry Z) → d.entries p ≡ some ent → p < d.fresh
    pub rooted :
        (p : ℕ) (ent : Entry Z) → d.entries p ≡ some ent → 0 < tally nb ob (λ n. n.item == p)

  -- The entry at `p` is `ent`, and its node is in the map.
  abbrev pub IsEntry : Db Z → List (Chain ℕ) → List (Chain ℕ) → ℕ → Entry Z → Type 0
  IsEntry d nb ob p ent = (d.entries p ≡ some ent) × (0 < tally nb ob (λ n. n.item == p))

  -- No entry has the key, or one that has it is found.
  abbrev pub IsFound : Db Z → List (Chain ℕ) → List (Chain ℕ) → Str → Option ℕ → Type 0
  IsFound d nb ob key o =
      ((o ≡ none) × (tally nb ob (entry_eq d key) ≡ 0))
      ⊎ ((p : ℕ) × (ent : Entry Z) × (o ≡ some p) × IsEntry d nb ob p ent × (ent.key ≡ key))

  pub record Found (d : Db Z) (nb ob : List (Chain ℕ)) (key : Str) (r : Option ℕ × Db Z)
      (nb' ob' : List (Chain ℕ)) : Type 0 where
    pub valid : IsDb r.1 nb' ob'
    pub same : SameNodes nb ob nb' ob'
    pub entries : r.1.entries ≡ d.entries
    pub heap : r.1.heap ≡ d.heap
    pub fresh : r.1.fresh ≡ d.fresh
    pub answer : IsFound d nb ob key r.0

  key_hits :
      (key : Str) (hcode : ℕ) (o : Option (Entry Z))
      → to_nat (has_key key o)
        ≤ to_nat ((hcode == str_hash key) && has_key key o) + to_nat (is_wrong hcode o)
  key_hits key hcode none = omega arith
  key_hits key hcode (some ent) = elim (Bool-cases (same_str ent.key key)) [
    | inl s ↦
        let same : str_hash ent.key ≡ str_hash key = ap str_hash (same_str_sound ent.key key s) in
        rw (s, same) (ground arith)
    | inr s ↦ rw s (omega arith)
  ]

  count-key_hits :
      (d : Db Z) (key : Str) (c : Chain ℕ)
      → count (entry_eq d key) c
        ≤ count (hits (str_hash key) (entry_eq d key)) c + count (is_stale d) c
  count-key_hits d key [] = omega arith
  count-key_hits d key (n ∷ c) =
      omega (arith, key_hits key n.hcode (d.entries n.item), count-key_hits d key c)

  -- Without a hit, no entry of a valid database has the key.
  pub missing :
      (d : Db Z) (nb ob : List (Chain ℕ)) (key : Str)
      → IsDb d nb ob
      → tally nb ob (hits (str_hash key) (entry_eq d key)) ≡ 0
      → tally nb ob (entry_eq d key) ≡ 0
  missing d nb ob key v e = omega (
    arith,
    v.live,
    e,
    count-key_hits d key (chain_nodes nb),
    count-key_hits d key (chain_nodes ob),
  )

  found_key :
      (key : Str) (o : Option (Entry Z))
      → has_key key o ≡ true
      → (ent : Entry Z) × (o ≡ some ent) × (ent.key ≡ key)
  found_key key none e = cc
  found_key key (some ent) e = (ent, refl, same_str_sound ent.key key e)

  -- A hit has an entry with the key.
  pub hit-IsEntry :
      (d : Db Z) (nb ob : List (Chain ℕ)) (key : Str) (n : HNode ℕ)
      → hits (str_hash key) (entry_eq d key) n ≡ true
      → 0 < tally nb ob (λ m. m.item == n.item)
      → (ent : Entry Z) × IsEntry d nb ob n.item ent × (ent.key ≡ key)
  hit-IsEntry d nb ob key n h p =
      let eq = and_right (n.hcode == str_hash key) (entry_eq d key n) h in
      let (ent, e, k) = found_key key (d.entries n.item) eq in (ent, (e, p), k)

  lookup_key-none :
      (d : Db Z) (key : Str) (db : HMap ℕ)
      → hm_lookup d.db (str_hash key) (entry_eq d key) ≡ some (none, db)
      → lookup_key d key ≡ some (none, record d { db = db })
  unfolding lookup_key
  lookup_key-none d key db e = rw e refl

  lookup_key-some :
      (d : Db Z) (key : Str) (db : HMap ℕ) (n : HNode ℕ)
      → hm_lookup d.db (str_hash key) (entry_eq d key) ≡ some (some n, db)
      → lookup_key d key ≡ some (some n.item, record d { db = db })
  unfolding lookup_key
  lookup_key-some d key db n e = rw e refl

  -- Looking a key up in a valid database.
  pub lookup_key-Found :
      (d : Db Z) (nb ob : List (Chain ℕ)) (key : Str)
      → IsDb d nb ob
      → (r : Option ℕ × Db Z) × (lookup_key d key ≡ some r)
        × ((nb' : List (Chain ℕ)) × (ob' : List (Chain ℕ)) × Found d nb ob key r nb' ob')
  lookup_key-Found d nb ob key v =
      let ((o, db), run, (nb', ob', s)) =
        hm_lookup-LookedUp (str_hash key) (entry_eq d key) v.map in
      let d' : Db Z = record d { db = db } in
      let valid : IsDb d' nb' ob' = record {
        map = s.valid;
        live = s.same (is_stale d) ∙ v.live;
        unique = λ k. omega (arith, s.same (entry_eq d k), v.unique k);
        below = v.below;
        rooted = λ q x f. omega (arith, s.same (λ n. n.item == q), v.rooted q x f);
      } in
      elim s.answer [
        | inl (e, zero_hits) ↦ (
          (none, d'),
          lookup_key-none d key db (run ∙ ap (λ o. some (o, db)) e),
          (
            nb',
            ob',
            record {
              valid = valid;
              same = s.same;
              entries = refl;
              heap = refl;
              fresh = refl;
              answer = inl (refl, missing d nb ob key v zero_hits);
            },
          ),
        )
        | inr (n, e, h, member) ↦
            let (ent, here, k) =
              hit-IsEntry d nb ob key n h (member (λ m. m.item == n.item) (eq_refl n.item)) in
            (
              (some n.item, d'),
              lookup_key-some d key db n (run ∙ ap (λ o. some (o, db)) e),
              (
                nb',
                ob',
                record {
                  valid = valid;
                  same = s.same;
                  entries = refl;
                  heap = refl;
                  fresh = refl;
                  answer = inr (n.item, ent, refl, here, k);
                },
              ),
            )
      ]
