-- ===== src/ZSet/Insert.antt =====
-- zset.cpp: a node goes into the tree of a sorted set.
use redis_lite.Base.{
  ℕ, ◌+◌, ◌<◌, ◌≡◌, ◌⊎◌, inl, inr, refl, ◌∙◌, sym, ap, Bool, true, false, [], ◌∷◌, ◌++◌, Option,
  none, some, ◌&&◌, arith, count, to_nat, Bool-cases,
}
use mathlib.Core.Bool.{not}
use mathlib.Core.Path.{subst}
use redis_lite.Avl.{Tree, top}
use redis_lite.Avl.Inorder.{inorder, size}
use redis_lite.Avl.Rotate.{IsAvl}
use redis_lite.Avl.Remove.{avl_fix-init}
use redis_lite.Db.{same_str, has_key}
use redis_lite.Db.Timers.{same_bool}
use redis_lite.Db.Unique.{same_str-same}
use redis_lite.ZSet.{ZNode, ZSet, zless, zless_nodes, dbl_rank, descend, tree_insert}
use redis_lite.ZSet.Order.{tuple_less-key_less, key_less_total}
use redis_lite.ZSet.Search.{
  take_while, drop_while, descend-around, descend-IsPath, path_size-descend,
}
use redis_lite.ZSet.Valid.{IsSorted, sorted-IsDown, zless_nodes_trans, named}
use redis_lite.ZSet.Sorted.{IsSorted-insert, count-around}

neither : (a b : Bool) → (not a && not b) ≡ true → a ≡ true → ⊥
neither a b h e = absurd (same_bool h (ap (λ x. not x && not b) e))

neither_back : (a b : Bool) → (not a && not b) ≡ true → b ≡ true → ⊥
neither_back true b h e = cc
neither_back false b h e = absurd (same_bool h (ap not e))

-- Of two nodes that compare neither way, the second has the name of the first.
pub same_tuple :
    (a b : Option ZNode) (n : ZNode)
    → a ≡ some n
    → (not (zless_nodes a b) && not (zless_nodes b a)) ≡ true
    → (b ≡ none) ⊎ (has_key n.name (named b) ≡ true)
same_tuple a none n e h = inl refl
same_tuple a (some m) n e h =
    inr (elim (key_less_total (dbl_rank n.score) (dbl_rank m.score) n.name m.name) [
      | inl less ↦
          let f =
            ap (λ o. zless_nodes o (some m)) e ∙ tuple_less-key_less n m.score m.name ∙ less in
          absurd (neither (zless_nodes a (some m)) (zless_nodes (some m) a) h f)
      | inr (inl (_, same)) ↦ ap (λ s. same_str s n.name) (sym same) ∙ same_str-same n.name
      | inr (inr more) ↦
          let f =
            ap (λ o. zless_nodes (some m) o) e ∙ tuple_less-key_less m n.score n.name ∙ more in
          absurd (neither_back (zless_nodes a (some m)) (zless_nodes (some m) a) h f)
    ])

-- `p` is put behind all nodes that it is not less than.
pub record Put (z : ZSet) (p : ℕ) (root : Tree ℕ) : Type 0 where
  pub tree : IsAvl root
  pub sorted : IsSorted (zless z.nodes) (inorder root)
  pub more : (f : ℕ → Bool) → count f (inorder root) ≡ to_nat (f p) + count f (inorder z.root)

trans :
    (z : ZSet) (a b c : ℕ)
    → zless z.nodes a b ≡ true
    → zless z.nodes b c ≡ true
    → zless z.nodes a c ≡ true
trans z a b c e f = zless_nodes_trans (z.nodes a) (z.nodes b) (z.nodes c) e f

not_greater :
    (z : ZSet) (p x y : ℕ)
    → zless z.nodes x y ≡ true
    → not (zless z.nodes p y) ≡ true
    → not (zless z.nodes p x) ≡ true
not_greater z p x y e f = elim (Bool-cases (zless z.nodes p x)) [
  | inl g ↦ absurd (same_bool f (ap not (trans z p x y g e)))
  | inr g ↦ ap not g
]

-- Inserting a node that compares with all others into a balanced tree in order.
pub tree_insert-Put :
    (z : ZSet) (p : ℕ)
    → IsAvl z.root
    → IsSorted (zless z.nodes) (inorder z.root)
    → count (λ y. not (zless z.nodes p y) && not (zless z.nodes y p)) (inorder z.root) ≡ 0
    → 1 + size z.root < 2147483648
    → (root : Tree ℕ) × (tree_insert z p ≡ some (record z { root = root })) × Put z p root
unfolding tree_insert
tree_insert-Put z p v s apart small =
    let goes_left = λ (x : ℕ). zless z.nodes p x in
    let up = descend goes_left z.root top in
    let path = descend-IsPath goes_left z.root top v _ in
    let (root, run, (tree, nodes)) =
      avl_fix-init p up path (omega (arith, small, path_size-descend goes_left z.root top)) in
    let down =
      sorted-IsDown (zless z.nodes) (λ x. not (goes_left x)) (not_greater z p) (inorder z.root) s in
    let placed : inorder root
        ≡ take_while (λ x. not (goes_left x)) (inorder z.root)
          ++ (p ∷ drop_while (λ x. not (goes_left x)) (inorder z.root)) =
      nodes ∙ descend-around goes_left z.root top (p ∷ []) down in
    (
      root,
      rw run refl,
      record {
        tree = tree;
        sorted =
            subst (IsSorted (zless z.nodes)) (sym placed)
              (IsSorted-insert (zless z.nodes) p (inorder z.root) (trans z) apart s);
        more = λ f.
            ap (count f) placed
            ∙ count-around (zless z.nodes) f (λ x. not (goes_left x)) p (inorder z.root);
      },
    )
