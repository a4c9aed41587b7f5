-- ===== src/ZSet/Stored.antt =====
-- `zset_insert` of zset.cpp.
use redis_lite.Base.{
  ℕ, ◌+◌, ◌≤◌, ◌<◌, ◌≡◌, ◌≢◌, ◌⊎◌, inl, inr, refl, ◌∙◌, sym, ap, Bool, true, false, List, [], ◌∷◌,
  Option, none, some, ◌==◌, ◌>>=◌, arith, count, to_nat, Bool-cases,
}
use redis_lite.Base.Memory.{store, store-same, store-other, store-cases, ==-true}
use redis_lite.Bytes.{Str}
use redis_lite.HashTable.Lookup.{tally}
use redis_lite.HashTable.{HMap, Chain, hm_insert}
use redis_lite.HashTable.Buckets.{chain_nodes}
use redis_lite.HashTable.Insert.{hm_insert-Inserted}
use redis_lite.Avl.{Tree}
use redis_lite.Avl.Inorder.{size}
use mathlib.Core.Option.{some-injective}
use redis_lite.Db.Unique.{same_str-same}
use redis_lite.Db.{same_str, str_hash, has_key, entry_eq}
use redis_lite.Db.Dated.{not_both}
use redis_lite.Db.Set.{new_entry}
use redis_lite.ZSet.{
  ZNode, ZSet, dbl_rank, tree_insert, add_node, zset_update, zset_insert, zset_lookup,
}
use redis_lite.ZSet.Valid.{IsZSet, named, as_db}
use redis_lite.ZSet.Lookup.{zset_lookup-Looked}
use redis_lite.ZSet.Update.{zset_update-Scored}
use redis_lite.ZSet.Add.{hash_node, free_node, added_tree, added-IsZSet}

-- A node of the map that has the name is counted.
pub count-named :
    (z : ZSet) (name : Str) (p : ℕ) (c : Chain ℕ)
    → has_key name (named (z.nodes p)) ≡ true
    → count (λ m. m.item == p) c ≤ count (entry_eq (as_db z) name) c
count-named z name p [] e = omega arith
count-named z name p (m ∷ c) e = elim (Bool-cases (m.item == p)) [
  | inl here ↦ omega (
    arith,
    ap to_nat here,
    count-named z name p c e,
    ap to_nat (ap (λ q. has_key name (named (z.nodes q))) (==-true m.item p here) ∙ e),
  )
  | inr off ↦ omega (arith, ap to_nat off, count-named z name p c e)
]

other_name : (x y : ZNode) → some x ≡ some y → x.name ≡ y.name
other_name x y e = ap (λ (n : ZNode). n.name) (some-injective x y e)

by_name :
    (o : Option ZNode) (n : ZNode) (name : Str)
    → o ≡ some n
    → n.name ≡ name
    → has_key name (named o) ≡ true
by_name o n name e same =
    ap (λ p. has_key name (named p)) e ∙ ap (λ s. same_str s name) same ∙ same_str-same name

-- Without a node of the name in the map, no node has it.
pub no_name :
    (z : ZSet) (nb ob : List (Chain ℕ)) (name : Str)
    → IsZSet z nb ob
    → tally nb ob (entry_eq (as_db z) name) ≡ 0
    → (q : ℕ) (n : ZNode) → z.nodes q ≡ some n
    → n.name ≢ name
no_name z nb ob name v gone q n e same = omega (
  arith,
  gone,
  v.map.rooted q (new_entry 0 n.name []) (ap named e),
  count-named z name q (chain_nodes nb) (by_name (z.nodes q) n name e same),
  count-named z name q (chain_nodes ob) (by_name (z.nodes q) n name e same),
)

-- The set after an insertion. The flag says whether the name is new; it has the score, up to the two
-- zeros, and the nodes of all other names are the same.
pub record Stored (z : ZSet) (name : Str) (score : ℕ) (r : Bool × ZSet) (nb' ob' : List (Chain ℕ))
    : Type 0 where
  pub valid : IsZSet r.1 nb' ob'
  pub has :
      (p : ℕ) × (m : ZNode) × (r.1.nodes p ≡ some m)
      × (m.name ≡ name)
      × (dbl_rank m.score ≡ dbl_rank score)
  pub kept : (q : ℕ) (m : ZNode) → m.name ≢ name → z.nodes q ≡ some m → r.1.nodes q ≡ some m
  pub only : (q : ℕ) (m : ZNode) → m.name ≢ name → r.1.nodes q ≡ some m → z.nodes q ≡ some m
  pub flag :
      ((r.0 ≡ true) × ((q : ℕ) (m : ZNode) → z.nodes q ≡ some m → m.name ≢ name))
      ⊎ ((r.0 ≡ false) × ((q : ℕ) × (m : ZNode) × (z.nodes q ≡ some m) × (m.name ≡ name)))

insert_new :
    (z z₁ z₂ : ZSet) (name : Str) (score : ℕ)
    → zset_lookup z name ≡ some (none, z₁)
    → add_node z₁ name score ≡ some z₂
    → zset_insert z name score ≡ some (true, z₂)
unfolding zset_insert
insert_new z z₁ z₂ name score e f = rw (e, ◌>>=◌, f) refl

insert_old :
    (z z₁ z₂ : ZSet) (name : Str) (score p : ℕ)
    → zset_lookup z name ≡ some (some p, z₁)
    → zset_update z₁ p score ≡ some z₂
    → zset_insert z name score ≡ some (false, z₂)
unfolding zset_insert
insert_old z z₁ z₂ name score p e f = rw (e, ◌>>=◌, f) refl

add_run :
    (z : ZSet) (name : Str) (score : ℕ) (m : HMap ℕ) (root : Tree ℕ)
    → hm_insert z.hmap (record { hcode = str_hash name; item = z.fresh }) ≡ some m
    → tree_insert
        (record {
          root = z.root;
          hmap = m;
          nodes = store z.nodes z.fresh (some (record { score = score; name = name }));
          fresh = z.fresh + 1;
        })
        z.fresh
      ≡ some (record {
        root = root;
        hmap = m;
        nodes = store z.nodes z.fresh (some (record { score = score; name = name }));
        fresh = z.fresh + 1;
      })
    → add_node z name score
      ≡ some (record {
        root = root;
        hmap = m;
        nodes = store z.nodes z.fresh (some (record { score = score; name = name }));
        fresh = z.fresh + 1;
      })
unfolding add_node
add_run z name score m root e f = rw (e, ◌>>=◌, f) refl

-- On a valid sorted set with fewer than 2 ^ 31 - 1 nodes `zset_insert` does not fault, and the set
-- stays valid: the tree balanced and in the order of the tuples, with the nodes of the map. The flag
-- says whether the name is new; the name has the score afterwards, up to the two zeros, and the nodes
-- of all other names are the same.
pub zset_insert-Stored :
    (z : ZSet) (nb ob : List (Chain ℕ)) (name : Str) (score : ℕ)
    → IsZSet z nb ob
    → size z.root < 2147483647
    → (r : Bool × ZSet) × (zset_insert z name score ≡ some r)
      × ((nb' : List (Chain ℕ)) × (ob' : List (Chain ℕ)) × Stored z name score r nb' ob')
zset_insert-Stored z nb ob name score v small =
    let ((o, z₁), run, (nb₁, ob₁, s)) = zset_lookup-Looked z nb ob name v in
    let old = λ (q : ℕ). ap (λ N. N q) s.nodes in
    let small₁ : size z₁.root < 2147483647 = omega (arith, small, ap size s.root) in
    elim s.answer [
      | inl (e, gone) ↦
          let (m, ins, (nb₂, ob₂, w)) =
            hm_insert-Inserted (hash_node z₁ nb₁ ob₁ name score s.valid) s.valid.map.map in
          let (root, put, x) =
            added_tree z₁ nb₁ ob₁ name score s.valid m nb₂ ob₂ w gone (omega (arith, small₁)) in
          let new : ZNode = record { score = score; name = name } in
          (
            (true, _),
            insert_new z z₁ _ name score (run ∙ ap (λ q. some (q, z₁)) e)
                (add_run z₁ name score m root ins put),
            (
              nb₂,
              ob₂,
              record {
                valid = added-IsZSet z₁ nb₁ ob₁ name score s.valid m nb₂ ob₂ w gone root x;
                has = (z₁.fresh, new, store-same z₁.nodes z₁.fresh (some new), refl, refl);
                kept = λ q n off f.
                    store-other z₁.nodes z₁.fresh q (some new) (λ same. not_both (
                      sym (free_node z₁ nb₁ ob₁ name score s.valid)
                      ∙ sym (ap z₁.nodes same)
                      ∙ old q
                      ∙ f))
                    ∙ old q
                    ∙ f;
                only = λ q n off f. elim (store-cases z₁.nodes z₁.fresh q (some new) (some n) f) [
                  | inl (_, same) ↦
                      absurd (off (ap (λ (y : ZNode). y.name) (sym (some-injective new n same))))
                  | inr (_, g) ↦ sym (old q) ∙ g
                ];
                flag = inl (refl, λ q n f. no_name z₁ nb₁ ob₁ name s.valid gone q n (old q ∙ f));
              },
            ),
          )
      | inr (p, n, e, f, k, here) ↦
          let (z₂, up, w) = zset_update-Scored z₁ nb₁ ob₁ p n score s.valid f here small₁ in
          let (m, g, name₂, rank) = w.has in
          (
            (false, z₂),
            insert_old z z₁ z₂ name score p (run ∙ ap (λ q. some (q, z₁)) e) up,
            (
              nb₁,
              ob₁,
              record {
                valid = w.valid;
                has = (p, m, g, name₂ ∙ k, rank);
                kept = λ q x off h.
                    w.others q (λ same.
                      off (other_name x n (sym (sym (ap z₁.nodes same) ∙ old q ∙ h) ∙ f) ∙ k))
                    ∙ old q
                    ∙ h;
                only = λ q x off h.
                    sym (old q)
                    ∙ sym (
                        w.others q
                          (λ same. off (other_name x m (sym h ∙ ap z₂.nodes same ∙ g) ∙ name₂ ∙ k)))
                    ∙ h;
                flag = inr (refl, (p, n, sym (old p) ∙ f, k));
              },
            ),
          )
    ]
