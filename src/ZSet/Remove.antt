-- ===== src/ZSet/Remove.antt =====
-- `zset_delete` of zset.cpp.
use redis_lite.Base.{
  ℕ, ◌+◌, ◌<◌, ◌≡◌, ◌≢◌, inl, inr, refl, ◌∙◌, sym, ap, Bool, List, [], ◌∷◌, none, some, ◌==◌, ◌>>=◌,
  arith, count, count-append, to_nat,
}
use mathlib.Core.Path.{subst}
use redis_lite.Base.Memory.{store, store-same, store-other, ==-same}
use redis_lite.HashTable.{HNode, HMap, Chain, hits, hm_delete}
use redis_lite.HashTable.Buckets.{chain_nodes}
use redis_lite.HashTable.Shape.{IsMap}
use redis_lite.HashTable.Lookup.{tally}
use redis_lite.HashTable.Delete.{hm_delete-Deleted}
use redis_lite.Avl.{Tree}
use redis_lite.Avl.Inorder.{inorder, size}
use redis_lite.Db.{Entry, Db, str_hash, has_key}
use redis_lite.Db.Lookup.{IsDb, hit-IsEntry, missing, eq_refl}
use redis_lite.Db.Same.{IsDb-same}
use redis_lite.Db.Set.{new_entry}
use redis_lite.Db.Unique.{one_node, one_place, same_str-same}
use redis_lite.Db.Delete.{left_live, left_keys, left_below, left_rooted}
use redis_lite.ZSet.{ZNode, ZSet, zless, zless_nodes, hcmp, tree_delete, delete_found, zset_delete}
use redis_lite.ZSet.Valid.{IsZSet, IsSorted, named, as_db}
use redis_lite.ZSet.Sorted.{IsSorted-without, IsSorted-frame}
use redis_lite.ZSet.Locate.{occurs}
use redis_lite.ZSet.Cut.{Cut, tree_delete-Cut}
use redis_lite.ZSet.Lookup.{hcmp-entry_eq}
use redis_lite.ZSet.Update.{named-store}
use redis_lite.ZSet.Stored.{count-named}

-- The node is freed, and all others are the same.
pub record Removed (z : ZSet) (p : ℕ) (z' : ZSet) (nb' ob' : List (Chain ℕ)) : Type 0 where
  pub valid : IsZSet z' nb' ob'
  pub gone : z'.nodes p ≡ none
  pub others : (q : ℕ) → q ≢ p → z'.nodes q ≡ z.nodes q

module _ (z : ZSet) (nb ob nb' ob' : List (Chain ℕ)) (p : ℕ) (n : ZNode) (v : IsZSet z nb ob)
    (e : z.nodes p ≡ some n) (here : 0 < tally nb ob (λ m. m.item == p)) (m : HMap ℕ)
    (node : HNode ℕ) (own : node.item ≡ p) (map : IsMap m nb' ob')
    (less : (f : HNode ℕ → Bool) → tally nb' ob' f + to_nat (f node) ≡ tally nb ob f)
    (root : Tree ℕ) (w : Cut p z.root root) where
  abbrev removed : ZSet
  removed = record { root = root; hmap = m; nodes = store z.nodes p none; fresh = z.fresh }

  abbrev ent : Entry ℕ
  ent = new_entry 0 n.name []

  removed-IsDb : IsDb (as_db removed) nb' ob'
  removed-IsDb =
      let d = as_db z in
      let f = ap named e in
      let t : Db ℕ = record d { db = m; entries = store d.entries p none } in
      let start : IsDb t nb' ob' = record {
        map = map;
        live = left_live d nb ob nb' ob' p node ent v.map f own less;
        unique = λ l.
            omega (arith, left_keys d nb ob nb' ob' p node ent v.map f own less l, v.map.unique l);
        below = left_below d nb ob nb' ob' p node ent v.map f own less;
        rooted = left_rooted d nb ob nb' ob' p node ent v.map f own less;
      } in
      IsDb-same t (as_db removed) nb' ob' start refl (named-store z.nodes p none) refl

  counts : (f : ℕ → Bool) → count f (inorder z.root) ≡ to_nat (f p) + count f (inorder root)
  counts f = omega (
    arith,
    ap (count f) w.was,
    ap (count f) w.is,
    count-append f w.before (p ∷ w.behind),
    count-append f w.before w.behind,
  )

  off_tree : occurs p (inorder root) ≡ 0
  off_tree = omega (
    arith,
    counts (λ q. q == p),
    ap to_nat (==-same p),
    v.same (λ q. q == p),
    one_node (as_db z) nb ob p (new_entry 0 n.name []) v.map (ap named e),
  )

  removed-Removed : Removed z p removed nb' ob'
  removed-Removed = record {
    valid = record {
      map = removed-IsDb;
      tree = w.tree;
      sorted =
          IsSorted-frame (zless z.nodes) (zless removed.nodes) p (inorder root)
            (λ x y a b.
              ap (λ o. zless_nodes o (removed.nodes y)) (store-other z.nodes p x none a)
              ∙ ap (zless_nodes (z.nodes x)) (store-other z.nodes p y none b))
            off_tree
            (subst (IsSorted (zless z.nodes)) (sym w.is) (
              IsSorted-without (zless z.nodes) w.before p w.behind
                (subst (IsSorted (zless z.nodes)) w.was v.sorted)));
      same =
          λ f. omega (arith, counts f, v.same f, less (λ q. f q.item), ap (λ q. to_nat (f q)) own);
    };
    gone = store-same z.nodes p none;
    others = λ q off. store-other z.nodes p q none off;
  }

delete_run :
    (z : ZSet) (p : ℕ) (n : ZNode) (m : HMap ℕ) (node : HNode ℕ) (root : Tree ℕ)
    → z.nodes p ≡ some n
    → hm_delete z.hmap (str_hash n.name) (hcmp z n.name) ≡ some (some node, m)
    → tree_delete (record z { hmap = m }) p ≡ some (record z { hmap = m; root = root })
    → zset_delete z p
      ≡ some (record { root = root; hmap = m; nodes = store z.nodes p none; fresh = z.fresh })
unfolding zset_delete delete_found
delete_run z p n m node root e f g = rw (e, ◌>>=◌, f, ◌>>=◌, g) refl

-- `zset_delete` of a node of a valid sorted set with fewer than 2 ^ 31 - 1 nodes does not fault, its
-- assertion included, and the set stays valid. The node is freed and out of the map and the tree; all
-- other nodes are the same.
pub zset_delete-Removed :
    (z : ZSet) (nb ob : List (Chain ℕ)) (p : ℕ) (n : ZNode)
    → IsZSet z nb ob
    → z.nodes p ≡ some n
    → size z.root < 2147483647
    → (z' : ZSet) × (zset_delete z p ≡ some z')
      × ((nb' : List (Chain ℕ)) × (ob' : List (Chain ℕ)) × Removed z p z' nb' ob')
zset_delete-Removed z nb ob p n v e small =
    let here = v.map.rooted p (new_entry 0 n.name []) (ap named e) in
    let hit = λ (q : HNode ℕ). ap (λ eq. hits (str_hash n.name) eq q) (hcmp-entry_eq z n.name) in
    let own_name = ap (λ o. has_key n.name (named o)) e ∙ same_str-same n.name in
    let ((o, m), run, (nb', ob', s)) =
      hm_delete-Deleted (str_hash n.name) (hcmp z n.name) v.map.map in
    elim s.removes [
      | inl (_, zero_hits, _) ↦ absurd (
          omega (
            arith,
            here,
            missing (as_db z) nb ob n.name v.map (
                ap (λ eq. tally nb ob (hits (str_hash n.name) eq)) (sym (hcmp-entry_eq z n.name))
                ∙ zero_hits),
            count-named z n.name p (chain_nodes nb) own_name,
            count-named z n.name p (chain_nodes ob) own_name,
          ))
      | inr (node, f, h, less) ↦
          let there : 0 < tally nb ob (λ q. q.item == node.item) =
            omega (arith, less (λ q. q.item == node.item), ap to_nat (eq_refl node.item)) in
          let (x, at_node, k) =
            hit-IsEntry (as_db z) nb ob n.name node (sym (hit node) ∙ h) there in
          let own = sym (
            one_place (as_db z) nb ob p node.item (new_entry 0 n.name []) x v.map (ap named e, here)
              at_node k) in
          let (root, del, w) =
            tree_delete-Cut (record z { hmap = m }) p v.tree
              (omega (
                arith,
                here,
                v.same (λ q. q == p),
                one_node (as_db z) nb ob p (new_entry 0 n.name []) v.map (ap named e),
              ))
              small in
          (
            _,
            delete_run z p n m node root e (run ∙ ap (λ q. some (q, m)) f) del,
            (nb', ob', removed-Removed z nb ob nb' ob' p n v e here m node own s.valid less root w),
          )
    ]
