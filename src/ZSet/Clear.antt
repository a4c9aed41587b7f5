-- ===== src/ZSet/Clear.antt =====
-- `zset_clear` of zset.cpp.
use redis_lite.Base.{
  ℕ, ◌<◌, ◌≡◌, ◌≢◌, ◌⊎◌, inl, inr, refl, ◌∙◌, sym, ap, true, List, [], ◌∷◌, ◌++◌, Option, none,
  ◌==◌, arith, count-append, to_nat, Option-cases, Bool-cases,
}
use redis_lite.Base.Memory.{store, store-same, store-other, eq-cases, ==-false, ==-true}
use redis_lite.HashTable.{Chain, hm_clear}
use redis_lite.HashTable.Shape.{unused}
use redis_lite.Avl.{Tree, leaf, node}
use redis_lite.Avl.Inorder.{inorder}
use redis_lite.Db.Dated.{not_both}
use redis_lite.Db.Set.{new_entry}
use redis_lite.ZSet.{ZNode, ZSet, tree_dispose, zset_clear}
use redis_lite.ZSet.Valid.{IsZSet, named}
use redis_lite.ZSet.Locate.{occurs, some_nonzero}

dispose-frame :
    (t : Tree ℕ) (nodes : ℕ → Option ZNode) (q : ℕ) → nodes q ≡ none → tree_dispose t nodes q ≡ none
dispose-frame leaf nodes q e = e
dispose-frame (node l x h c r) nodes q e = elim (eq-cases q x) [
  | inl same ↦
      ap (store (tree_dispose r (tree_dispose l nodes)) x none) same
      ∙ store-same (tree_dispose r (tree_dispose l nodes)) x none
  | inr off ↦
      store-other (tree_dispose r (tree_dispose l nodes)) x q none off
      ∙ dispose-frame r (tree_dispose l nodes) q (dispose-frame l nodes q e)
]

rest_right :
    (q x : ℕ) (l r : Tree ℕ)
    → 0 < occurs q (inorder l ++ (x ∷ inorder r))
    → q ≢ x
    → (occurs q (inorder l) == 0) ≡ true
    → 0 < occurs q (inorder r)
rest_right q x l r on off none_left = omega (
  arith,
  on,
  count-append (λ p. p == q) (inorder l) (x ∷ inorder r),
  ==-true (occurs q (inorder l)) 0 none_left,
  ap to_nat (==-false x q (λ e. off (sym e))),
)

-- `tree_dispose` frees the nodes of the tree.
dispose_lem :
    (t : Tree ℕ) (nodes : ℕ → Option ZNode) (q : ℕ)
    → (nodes q ≡ none) ⊎ (0 < occurs q (inorder t))
    → tree_dispose t nodes q ≡ none
dispose_lem t nodes q (inl e) = dispose-frame t nodes q e
dispose_lem leaf nodes q (inr on) = absurd (omega (arith, on))
dispose_lem (node l x h c r) nodes q (inr on) = elim (eq-cases q x) [
  | inl same ↦
      ap (store (tree_dispose r (tree_dispose l nodes)) x none) same
      ∙ store-same (tree_dispose r (tree_dispose l nodes)) x none
  | inr off ↦
      store-other (tree_dispose r (tree_dispose l nodes)) x q none off
      ∙ elim (Bool-cases (occurs q (inorder l) == 0)) [
        | inl none_left ↦
            dispose_lem r (tree_dispose l nodes) q (inr (rest_right q x l r on off none_left))
        | inr some_left ↦
            dispose-frame r (tree_dispose l nodes) q
              (dispose_lem l nodes q (inr (some_nonzero (occurs q (inorder l)) some_left)))
      ]
]

-- Clearing a valid sorted set frees all its nodes, and leaves a valid set without any.
pub zset_clear-IsZSet :
    (z : ZSet) (nb ob : List (Chain ℕ))
    → IsZSet z nb ob
    → IsZSet (zset_clear z) [] [] × ((p : ℕ) → (zset_clear z).nodes p ≡ none)
unfolding zset_clear hm_clear
zset_clear-IsZSet z nb ob v =
    let freed = λ (p : ℕ). dispose_lem z.root z.nodes p (elim (Option-cases (z.nodes p)) [
      | inl e ↦ inl e
      | inr (n, e) ↦
          inr (
            omega
              (arith, v.map.rooted p (new_entry 0 n.name []) (ap named e), v.same (λ q. q == p)))
    ]) in
    let lost = λ (p : ℕ). ap named (freed p) in
    (
      record {
        map = record {
          map = unused refl refl refl refl;
          live = refl;
          unique = λ k. omega arith;
          below = λ p ent e. absurd (not_both (sym (lost p) ∙ e));
          rooted = λ p ent e. absurd (not_both (sym (lost p) ∙ e));
        };
        tree = _;
        sorted = _;
        same = λ f. refl;
      },
      freed,
    )
