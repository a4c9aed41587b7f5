-- ===== src/ZSet/Lookup.antt =====
-- `zset_lookup` of zset.cpp.
use redis_lite.Base.{
  ℕ, ◌<◌, ◌≡◌, ◌⊎◌, inl, inr, refl, ◌∙◌, sym, ap, true, false, List, [], Option, none, some, ◌==◌,
  arith, count, if◌then◌else◌,
}
use mathlib.Core.Path.{fun_ext}
use redis_lite.Bytes.{Str}
use redis_lite.HashTable.Shape.{IsMap}
use mathlib.Core.Option.{some-injective}
use redis_lite.HashTable.{HNode, HMap, Chain, hits, hm_lookup}
use redis_lite.HashTable.Lookup.{tally, hm_lookup-LookedUp}
use redis_lite.HashTable.Rehash.{SameNodes}
use redis_lite.Avl.{Tree, leaf, node}
use redis_lite.Avl.Inorder.{inorder}
use redis_lite.Db.Set.{new_entry}
use redis_lite.Db.{Entry, str_hash, has_key, entry_eq}
use redis_lite.Db.Lookup.{is_stale, missing, hit-IsEntry, eq_refl}
use redis_lite.ZSet.{ZNode, ZSet, same_name, hcmp, lookup_name, zset_lookup, is_leaf}
use redis_lite.ZSet.Order.{memcmp-same_str}
use redis_lite.ZSet.Valid.{IsZSet, named, as_db}

same_name-has_key : (name : Str) (o : Option ZNode) → same_name name o ≡ has_key name (named o)
same_name-has_key name none = refl
same_name-has_key name (some n) = memcmp-same_str n.name name

-- `hcmp` is the comparison of keys.
pub hcmp-entry_eq : (z : ZSet) (name : Str) → hcmp z name ≡ entry_eq (as_db z) name
hcmp-entry_eq z name = fun_ext (λ n. same_name-has_key name (z.nodes n.item))

named-some :
    (o : Option ZNode) (name : Str) → has_key name (named o) ≡ true → (n : ZNode) × (o ≡ some n)
named-some none name e = cc
named-some (some n) name e = (n, refl)

-- The node with the name is in the set, or no node has it.
abbrev pub IsFound : ZSet → List (Chain ℕ) → List (Chain ℕ) → Str → Option ℕ → Type 0
IsFound z nb ob name o =
    ((o ≡ none) × (tally nb ob (entry_eq (as_db z) name) ≡ 0))
    ⊎ ((p : ℕ) × (n : ZNode) × (o ≡ some p)
        × (z.nodes p ≡ some n)
        × (n.name ≡ name)
        × (0 < tally nb ob (λ m. m.item == p)))

-- After a lookup the set is valid and the same but for its map, which has the same nodes.
pub record Looked (z : ZSet) (name : Str) (r : Option ℕ × ZSet) (nb' ob' : List (Chain ℕ))
    : Type 0 where
  pub valid : IsZSet r.1 nb' ob'
  pub root : r.1.root ≡ z.root
  pub nodes : r.1.nodes ≡ z.nodes
  pub answer : IsFound r.1 nb' ob' name r.0

with_map-IsZSet :
    (z : ZSet) (nb ob nb' ob' : List (Chain ℕ)) (m : HMap ℕ)
    → IsZSet z nb ob
    → IsMap m nb' ob'
    → SameNodes nb ob nb' ob'
    → IsZSet (record z { hmap = m }) nb' ob'
with_map-IsZSet z nb ob nb' ob' m v map same = record {
  map = record {
    map = map;
    live = same (is_stale (as_db z)) ∙ v.map.live;
    unique = λ k. omega (arith, same (entry_eq (as_db z) k), v.map.unique k);
    below = v.map.below;
    rooted = λ q x f. omega (arith, same (λ n. n.item == q), v.map.rooted q x f);
  };
  tree = v.tree;
  sorted = v.sorted;
  same = λ f. v.same f ∙ sym (same (λ n. f n.item));
}

name_none :
    (z : ZSet) (name : Str) (m : HMap ℕ)
    → hm_lookup z.hmap (str_hash name) (hcmp z name) ≡ some (none, m)
    → lookup_name z name ≡ some (none, record z { hmap = m })
unfolding lookup_name
name_none z name m e = rw e refl

name_some :
    (z : ZSet) (name : Str) (m : HMap ℕ) (n : HNode ℕ)
    → hm_lookup z.hmap (str_hash name) (hcmp z name) ≡ some (some n, m)
    → lookup_name z name ≡ some (some n.item, record z { hmap = m })
unfolding lookup_name
name_some z name m n e = rw e refl

named-node :
    (o : Option ZNode) (ent : Entry ℕ)
    → named o ≡ some ent
    → (n : ZNode) × (o ≡ some n) × (n.name ≡ ent.key)
named-node none ent e = cc
named-node (some n) ent e =
    (n, refl, ap (λ (x : Entry ℕ). x.key) (some-injective (new_entry 0 n.name []) ent e))

abbrev Answer : ZSet → Str → Option (Option ℕ × ZSet) → Type 0
Answer z name o =
    (r : Option ℕ × ZSet) × (o ≡ some r)
    × ((nb' : List (Chain ℕ)) × (ob' : List (Chain ℕ)) × Looked z name r nb' ob')

lookup_name-Looked :
    (z : ZSet) (nb ob : List (Chain ℕ)) (name : Str)
    → IsZSet z nb ob
    → Answer z name (lookup_name z name)
lookup_name-Looked z nb ob name v =
    let ((o, m), run, (nb', ob', s)) = hm_lookup-LookedUp (str_hash name) (hcmp z name) v.map.map in
    let v' = with_map-IsZSet z nb ob nb' ob' m v s.valid s.same in
    elim s.answer [
      | inl (e, zero_hits) ↦ (
        (none, record z { hmap = m }),
        name_none z name m (run ∙ ap (λ o. some (o, m)) e),
        (
          nb',
          ob',
          record {
            valid = v';
            root = refl;
            nodes = refl;
            answer = inl (
              refl,
              s.same (entry_eq (as_db z) name)
                  ∙ missing (as_db z) nb ob name v.map (
                      ap (λ eq. tally nb ob (hits (str_hash name) eq)) (sym (hcmp-entry_eq z name))
                      ∙ zero_hits),
            );
          },
        ),
      )
      | inr (n, e, h, member) ↦
          let here = member (λ q. q.item == n.item) (eq_refl n.item) in
          let (ent, (f, _), k) =
            hit-IsEntry (as_db z) nb ob name n
              (ap (λ eq. hits (str_hash name) eq n) (sym (hcmp-entry_eq z name)) ∙ h) here in
          let (x, g, same) = named-node (z.nodes n.item) ent f in
          (
            (some n.item, record z { hmap = m }),
            name_some z name m n (run ∙ ap (λ o. some (o, m)) e),
            (
              nb',
              ob',
              record {
                valid = v';
                root = refl;
                nodes = refl;
                answer = inr (
                  n.item,
                  x,
                  refl,
                  g,
                  same ∙ k,
                  omega (arith, here, s.same (λ q. q.item == n.item)),
                );
              },
            ),
          )
    ]

leaf_or_node : (t : Tree ℕ) → (t ≡ leaf) ⊎ (is_leaf t ≡ false)
leaf_or_node leaf = inl refl
leaf_or_node (node l x h c r) = inr refl

-- In a valid sorted set `zset_lookup` does not fault, and the set stays valid, with the same tree and
-- nodes. It gives a node of the set with the name, or NULL if none has it.
pub zset_lookup-Looked :
    (z : ZSet) (nb ob : List (Chain ℕ)) (name : Str)
    → IsZSet z nb ob
    → (r : Option ℕ × ZSet) × (zset_lookup z name ≡ some r)
      × ((nb' : List (Chain ℕ)) × (ob' : List (Chain ℕ)) × Looked z name r nb' ob')
unfolding zset_lookup
zset_lookup-Looked z nb ob name v = elim (leaf_or_node z.root) [
  | inl e ↦ (
    (none, z),
    ap (λ t. if is_leaf t then some (none, z) else lookup_name z name) e,
    (
      nb,
      ob,
      record {
        valid = v;
        root = refl;
        nodes = refl;
        answer = inl (
          refl,
          sym (v.same (λ q. has_key name (named (z.nodes q))))
              ∙ ap (λ t. count (λ q. has_key name (named (z.nodes q))) (inorder t)) e,
        );
      },
    ),
  )
  | inr e ↦
      let (r, run, w) = lookup_name-Looked z nb ob name v in
      (r, ap (λ b. if b then some (none, z) else lookup_name z name) e ∙ run, w)
]
