-- ===== src/ZSet/Add.antt =====
-- `zset_insert` of zset.cpp: the node of a new name.
use redis_lite.Base.{
  ℕ, ◌+◌, ◌≤◌, ◌<◌, ◌≡◌, inl, inr, refl, ◌∙◌, sym, ap, List, [], ◌∷◌, Option, none, some, ◌==◌,
  arith, count, to_nat, Bool-cases,
}
use redis_lite.Base.Memory.{store, store-same, store-other, ==-true}
use redis_lite.Bytes.{Str}
use redis_lite.HashTable.{HNode, HMap, Chain}
use redis_lite.HashTable.Buckets.{chain_nodes}
use redis_lite.HashTable.Insert.{Inserted}
use redis_lite.HashTable.Lookup.{tally}
use redis_lite.Avl.{Tree}
use redis_lite.Avl.Inorder.{inorder, size}
use redis_lite.Db.{str_hash, entry_eq}
use redis_lite.Db.Lookup.{IsDb, is_stale, is_wrong}
use redis_lite.Db.Same.{IsDb-same}
use redis_lite.Db.Dated.{not_both}
use redis_lite.Db.Set.{added, added-HasValue, free-none}
use redis_lite.ZSet.{ZNode, ZSet, zless, zless_nodes, tree_insert}
use redis_lite.ZSet.Valid.{IsZSet, IsSorted, named, as_db}
use redis_lite.ZSet.Sorted.{IsSorted-frame}
use redis_lite.ZSet.Locate.{occurs}
use redis_lite.ZSet.Insert.{Put, tree_insert-Put}
use redis_lite.ZSet.Update.{is_rival, all_apart, rivals_lem, named-store, rivals-frame}

named-none : (o : Option ZNode) → named o ≡ none → o ≡ none
named-none none e = refl
named-none (some n) e = absurd (not_both (sym e))

module _ (z : ZSet) (nb ob : List (Chain ℕ)) (name : Str) (score : ℕ) (v : IsZSet z nb ob) where
  abbrev pub new_node : ZNode
  new_node = record { score = score; name = name }

  abbrev pub hash_node : HNode ℕ
  hash_node = record { hcode = str_hash name; item = z.fresh }

  pub free_node : z.nodes z.fresh ≡ none
  free_node = named-none (z.nodes z.fresh) (free-none (as_db z) nb ob v.map)

  -- A node at a free address would be stale.
  count-fresh : (c : Chain ℕ) → count (λ m. m.item == z.fresh) c ≤ count (is_stale (as_db z)) c
  count-fresh [] = omega arith
  count-fresh (m ∷ c) = elim (Bool-cases (m.item == z.fresh)) [
    | inl e ↦ omega (
      arith,
      ap to_nat e,
      count-fresh c,
      ap (λ o. to_nat (is_wrong m.hcode (named o)))
          (ap z.nodes (==-true m.item z.fresh e) ∙ free_node),
    )
    | inr e ↦ omega (arith, ap to_nat e, count-fresh c)
  ]

  off_tree : occurs z.fresh (inorder z.root) ≡ 0
  off_tree = omega (
    arith,
    v.same (λ q. q == z.fresh),
    v.map.live,
    count-fresh (chain_nodes nb),
    count-fresh (chain_nodes ob),
  )

  module _ (m : HMap ℕ) (nb' ob' : List (Chain ℕ)) (ins : Inserted nb ob hash_node m nb' ob')
      (missing : tally nb ob (entry_eq (as_db z) name) ≡ 0) where
    abbrev pub between : ZSet
    between = record {
      root = z.root;
      hmap = m;
      nodes = store z.nodes z.fresh (some new_node);
      fresh = z.fresh + 1;
    }

    between-IsDb : IsDb (as_db between) nb' ob'
    between-IsDb =
        IsDb-same (added (as_db z) 0 name [] m) (as_db between) nb' ob'
          (added-HasValue (as_db z) nb ob 0 name [] m nb' ob' v.map ins missing).valid refl
          (named-store z.nodes z.fresh (some new_node)) refl

    still-IsSorted : IsSorted (zless between.nodes) (inorder z.root)
    still-IsSorted =
        IsSorted-frame (zless z.nodes) (zless between.nodes) z.fresh (inorder z.root)
          (λ x y a b.
            ap (λ o. zless_nodes o (between.nodes y))
              (store-other z.nodes z.fresh x (some new_node) a)
            ∙ ap (zless_nodes (z.nodes x)) (store-other z.nodes z.fresh y (some new_node) b))
          off_tree v.sorted

    no_rivals : count (λ q. is_rival name (between.nodes q)) (inorder z.root) ≡ 0
    no_rivals = omega (
      arith,
      rivals-frame z.nodes z.fresh (some new_node) name (inorder z.root) off_tree,
      rivals_lem z nb ob name v,
      missing,
    )

    pub added_tree :
        1 + size z.root < 2147483648
        → (root : Tree ℕ) × (tree_insert between z.fresh ≡ some (record between { root = root }))
          × Put between z.fresh root
    added_tree small =
        tree_insert-Put between z.fresh v.tree still-IsSorted
          (all_apart between.nodes z.fresh new_node (inorder z.root)
            (store-same z.nodes z.fresh (some new_node)) no_rivals)
          small

    pub added-IsZSet :
        (root : Tree ℕ) → Put between z.fresh root → IsZSet (record between { root = root }) nb' ob'
    added-IsZSet root x = record {
      map = between-IsDb;
      tree = x.tree;
      sorted = x.sorted;
      same = λ f. omega (arith, x.more f, v.same f, ins.more (λ n. f n.item));
    }
