-- ===== src/ZSet/Update.antt =====
-- `zset_insert` of zset.cpp on a name that the set has: the new score, and the node's new place.
use redis_lite.Base.{
  ℕ, ◌+◌, ◌≤◌, ◌<◌, ◌≡◌, ◌≢◌, ◌⊎◌, inl, inr, refl, ◌∙◌, sym, ap, Bool, true, false, List, [], ◌∷◌,
  Option, none, some, ◌==◌, ◌&&◌, ◌>>=◌, arith, count, count-append, to_nat, Bool-cases, length,
  length-append, Returns,
}
use mathlib.Core.Bool.{not}
use mathlib.Core.Path.{fun_ext, subst}
use redis_lite.Base.Memory.{store, store-same, store-other, ==-same, ==-true}
use redis_lite.Bytes.{Str}
use redis_lite.HashTable.{Chain}
use redis_lite.HashTable.Buckets.{chain_nodes}
use redis_lite.HashTable.Lookup.{tally}
use redis_lite.Avl.{Tree}
use redis_lite.Avl.Inorder.{inorder, size, length-inorder}
use redis_lite.Db.{has_key, entry_eq}
use redis_lite.Db.Lookup.{is_stale, is_wrong}
use redis_lite.Db.Set.{new_entry}
use redis_lite.Db.Unique.{one_node, same_str-same}
use redis_lite.Db.Same.{IsDb-same}
use redis_lite.Db.Dated.{not_both}
use redis_lite.ZSet.{
  ZNode, ZSet, zless, zless_nodes, dbl_rank, tree_insert, tree_delete, zset_update,
}
use redis_lite.ZSet.Valid.{IsZSet, IsSorted, named, as_db}
use redis_lite.ZSet.Sorted.{IsSorted-without, IsSorted-frame}
use redis_lite.ZSet.Locate.{occurs}
use redis_lite.ZSet.Cut.{Cut, tree_delete-Cut}
use redis_lite.ZSet.Insert.{same_tuple, Put, tree_insert-Put}

-- A freed node, or one with the name.
abbrev pub is_rival : Str → Option ZNode → Bool
is_rival name none = true
is_rival name (some m) = has_key name (named (some m))

rival_lem :
    (o : Option ZNode) (name : Str)
    → (o ≡ none) ⊎ (has_key name (named o) ≡ true)
    → to_nat (is_rival name o) ≡ 1
rival_lem none name h = refl
rival_lem (some m) name (inl e) = absurd (not_both (sym e))
rival_lem (some m) name (inr e) = ap to_nat e

-- Where no other node has the name of `p`, each of them is less or greater.
pub all_apart :
    (nodes : ℕ → Option ZNode) (p : ℕ) (n : ZNode) (xs : List ℕ)
    → nodes p ≡ some n
    → count (λ q. is_rival n.name (nodes q)) xs ≡ 0
    → count (λ y. not (zless nodes p y) && not (zless nodes y p)) xs ≡ 0
all_apart nodes p n [] e none_rival = refl
all_apart nodes p n (y ∷ ys) e none_rival =
    elim (Bool-cases (not (zless nodes p y) && not (zless nodes y p))) [
      | inl h ↦ absurd (
          omega
            (arith, none_rival, rival_lem (nodes y) n.name (same_tuple (nodes p) (nodes y) n e h)))
      | inr h ↦ omega (arith, ap to_nat h, all_apart nodes p n ys e (omega (arith, none_rival)))
    ]

-- The nodes of a map have entries, so that rivals are found by the map's counts.
rival_wrong :
    (name : Str) (hcode : ℕ) (o : Option ZNode)
    → to_nat (is_rival name o) ≤ to_nat (has_key name (named o)) + to_nat (is_wrong hcode (named o))
rival_wrong name hcode none = omega arith
rival_wrong name hcode (some m) = omega arith

count-rival :
    (z : ZSet) (name : Str) (c : Chain ℕ)
    → count (λ m. is_rival name (z.nodes m.item)) c
      ≤ count (entry_eq (as_db z) name) c + count (is_stale (as_db z)) c
count-rival z name [] = omega arith
count-rival z name (m ∷ c) =
    omega (arith, rival_wrong name m.hcode (z.nodes m.item), count-rival z name c)

-- As many rivals are in the tree as nodes with the name are in the map.
pub rivals_lem :
    (z : ZSet) (nb ob : List (Chain ℕ)) (name : Str)
    → IsZSet z nb ob
    → count (λ q. is_rival name (z.nodes q)) (inorder z.root)
      ≤ tally nb ob (entry_eq (as_db z) name)
rivals_lem z nb ob name v = omega (
  arith,
  v.same (λ q. is_rival name (z.nodes q)),
  v.map.live,
  count-rival z name (chain_nodes nb),
  count-rival z name (chain_nodes ob),
)

-- A write off the list does not change the rivals on it.
pub rivals-frame :
    (nodes : ℕ → Option ZNode) (p : ℕ) (o : Option ZNode) (name : Str) (xs : List ℕ)
    → occurs p xs ≡ 0
    → count (λ q. is_rival name (store nodes p o q)) xs ≡ count (λ q. is_rival name (nodes q)) xs
rivals-frame nodes p o name [] off = refl
rivals-frame nodes p o name (x ∷ xs) off = omega (
  arith,
  ap (λ r. to_nat (is_rival name r))
      (store-other nodes p x o
        (λ same. omega (arith, off, ap to_nat (ap (λ q. q == p) same ∙ ==-same p)))),
  rivals-frame nodes p o name xs (omega (arith, off)),
)

-- The nodes of the memory by name, when one is written.
pub named-store :
    (nodes : ℕ → Option ZNode) (p : ℕ) (o : Option ZNode)
    → (λ q. named (store nodes p o q)) ≡ store (λ q. named (nodes q)) p (named o)
named-store nodes p o =
    fun_ext (λ q. elim (Bool-cases (q == p)) [ inl e ↦ rw e refl | inr e ↦ rw e refl ])

-- The node at `p` has the score, up to the two zeros; all other nodes and the map are the same.
pub record Scored (z : ZSet) (p : ℕ) (n : ZNode) (score : ℕ) (z' : ZSet) (nb ob : List (Chain ℕ))
    : Type 0 where
  pub valid : IsZSet z' nb ob
  pub has :
      (m : ZNode) × (z'.nodes p ≡ some m) × (m.name ≡ n.name) × (dbl_rank m.score ≡ dbl_rank score)
  pub others : (q : ℕ) → q ≢ p → z'.nodes q ≡ z.nodes q

module _ (z : ZSet) (nb ob : List (Chain ℕ)) (p : ℕ) (n : ZNode) (score : ℕ) (v : IsZSet z nb ob)
    (e : z.nodes p ≡ some n) (here : 0 < tally nb ob (λ m. m.item == p)) where
  once : occurs p (inorder z.root) ≡ 1
  once = omega (
    arith,
    v.same (λ q. q == p),
    here,
    one_node (as_db z) nb ob p (new_entry 0 n.name []) v.map (ap named e),
  )

  abbrev scored : ZNode
  scored = record n { score = score }

  module _ (root : Tree ℕ) (w : Cut p z.root root) where
    -- The set between the deletion and the insertion.
    abbrev between : ZSet
    between = record z { root = root; nodes = store z.nodes p (some scored) }

    counts : (f : ℕ → Bool) → count f (inorder z.root) ≡ to_nat (f p) + count f (inorder root)
    counts f = omega (
      arith,
      ap (count f) w.was,
      ap (count f) w.is,
      count-append f w.before (p ∷ w.behind),
      count-append f w.before w.behind,
    )

    off_tree : occurs p (inorder root) ≡ 0
    off_tree = omega (arith, once, counts (λ q. q == p), ap to_nat (==-same p))

    still-IsSorted : IsSorted (zless between.nodes) (inorder root)
    still-IsSorted =
        IsSorted-frame (zless z.nodes) (zless between.nodes) p (inorder root)
          (λ x y a b.
            ap (λ o. zless_nodes o (between.nodes y)) (store-other z.nodes p x (some scored) a)
            ∙ ap (zless_nodes (z.nodes x)) (store-other z.nodes p y (some scored) b))
          off_tree
          (subst (IsSorted (zless z.nodes)) (sym w.is) (
            IsSorted-without (zless z.nodes) w.before p w.behind
              (subst (IsSorted (zless z.nodes)) w.was v.sorted)))

    no_rivals : count (λ q. is_rival n.name (between.nodes q)) (inorder root) ≡ 0
    no_rivals = omega (
      arith,
      rivals-frame z.nodes p (some scored) n.name (inorder root) off_tree,
      counts (λ q. is_rival n.name (z.nodes q)),
      rivals_lem z nb ob n.name v,
      v.map.unique n.name,
      rival_lem (z.nodes p) n.name
          (inr (ap (λ o. has_key n.name (named o)) e ∙ same_str-same n.name)),
    )

    smaller_tree : size root + 1 ≡ size z.root
    smaller_tree = omega (
      arith,
      length-inorder root,
      length-inorder z.root,
      ap length w.was,
      ap length w.is,
      length-append w.before (p ∷ w.behind),
      length-append w.before w.behind,
    )

    same_entries : (as_db between).entries ≡ (as_db z).entries
    same_entries =
        named-store z.nodes p (some scored)
        ∙ fun_ext (λ q. elim (Bool-cases (q == p)) [
          | inl at ↦ rw at (sym (ap (λ r. named (z.nodes r)) (==-true q p at) ∙ ap named e))
          | inr off ↦ rw off refl
        ])

    Put-Scored :
        (root' : Tree ℕ)
        → Put between p root'
        → Scored z p n score (record between { root = root' }) nb ob
    Put-Scored root' x = record {
      valid = record {
        map = IsDb-same (as_db z) (as_db between) nb ob v.map refl same_entries refl;
        tree = x.tree;
        sorted = x.sorted;
        same = λ f. omega (arith, x.more f, counts f, v.same f);
      };
      has = (scored, store-same z.nodes p (some scored), refl, refl);
      others = λ q off. store-other z.nodes p q (some scored) off;
    }

  update_same : (dbl_rank n.score == dbl_rank score) ≡ true → zset_update z p score ≡ some z
  unfolding zset_update
  update_same same = rw (e, ◌>>=◌, same) refl

  update_moved :
      (root : Tree ℕ) (root' : Tree ℕ)
      → (dbl_rank n.score == dbl_rank score) ≡ false
      → tree_delete z p ≡ some (record z { root = root })
      → tree_insert (record z { root = root; nodes = store z.nodes p (some scored) }) p
        ≡ some (record z { root = root'; nodes = store z.nodes p (some scored) })
      → zset_update z p score
        ≡ some (record z { root = root'; nodes = store z.nodes p (some scored) })
  unfolding zset_update
  update_moved root root' other del ins = rw (e, ◌>>=◌, other, del, ◌>>=◌, ins) refl

  pub zset_update-Scored :
      size z.root < 2147483647 → Returns (λ z'. Scored z p n score z' nb ob) (zset_update z p score)
  zset_update-Scored small = elim (Bool-cases (dbl_rank n.score == dbl_rank score)) [
    | inl same ↦ (
      z,
      update_same same,
      record {
        valid = v;
        has = (n, e, refl, ==-true (dbl_rank n.score) (dbl_rank score) same);
        others = λ q off. refl;
      },
    )
    | inr other ↦
        let (root, del, w) = tree_delete-Cut z p v.tree once small in
        let (root', ins, x) =
          tree_insert-Put (between root w) p w.tree (still-IsSorted root w)
            (all_apart (between root w).nodes p scored (inorder root)
              (store-same z.nodes p (some scored)) (no_rivals root w))
            (omega (arith, small, smaller_tree root w)) in
        (_, update_moved root root' other del ins, Put-Scored root w root' x)
  ]
