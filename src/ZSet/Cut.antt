-- ===== src/ZSet/Cut.antt =====
-- zset.cpp: the deletion of a tree node.
use redis_lite.Base.{
  ℕ, ◌+◌, ◌<◌, ◌≡◌, refl, ◌∙◌, sym, ap, List, [], ◌∷◌, ◌++◌, some, ◌>>=◌, ◌==◌, arith, count-append,
  to_nat, Bool-cases, inl, inr, Returns,
}
use mathlib.Core.List.{append_assoc}
use redis_lite.Base.Memory.{==-true}
use redis_lite.Avl.{Tree, node, PathUp, top, left_of, right_of, avl_del}
use redis_lite.Avl.Inorder.{inorder, size, around}
use redis_lite.Avl.Rotate.{IsAvl}
use redis_lite.Avl.Path.{IsTreeOf}
use redis_lite.Avl.Swap.{AreOthers, PathOthers, avl_del-removed}
use redis_lite.ZSet.{ZSet, tree_delete}
use redis_lite.ZSet.Locate.{occurs, up_left, up_right, around-split, Located, located}

others_of : (p : ℕ) (xs : List ℕ) → occurs p xs ≡ 0 → AreOthers (λ q. q == p) xs
others_of p [] off = _
others_of p (x ∷ xs) off = elim (Bool-cases (x == p)) [
  | inl e ↦ absurd (omega (arith, off, ap to_nat e))
  | inr e ↦ (e, others_of p xs (omega (arith, off, ap to_nat e)))
]

path_others :
    (p : ℕ) (up : PathUp ℕ)
    → occurs p (up_left up) ≡ 0
    → occurs p (up_right up) ≡ 0
    → PathOthers (λ q. q == p) up
path_others p top a b = _
path_others p (left_of x h c r up) a b =
    let split = count-append (λ q. q == p) (inorder r) (up_right up) in
    let own = others_of p (x ∷ inorder r) (omega (arith, b, split)) in
    (own.0, own.1, path_others p up a (omega (arith, b, split)))
path_others p (right_of l x h c up) a b =
    let outer = count-append (λ q. q == p) (up_left up) (inorder l ++ (x ∷ [])) in
    let inner = count-append (λ q. q == p) (inorder l) (x ∷ []) in
    let own = others_of p (x ∷ []) (omega (arith, a, outer, inner)) in
    (
      own.0,
      others_of p (inorder l) (omega (arith, a, outer, inner)),
      path_others p up (omega (arith, a, outer)) b,
    )

-- The tree without the node, whose others keep their order.
pub record Cut (p : ℕ) (t t' : Tree ℕ) : Type 0 where
  pub tree : IsAvl t'
  pub before : List ℕ
  pub behind : List ℕ
  pub was : inorder t ≡ before ++ (p ∷ behind)
  pub is : inorder t' ≡ before ++ behind

module _ (p : ℕ) (t : Tree ℕ) (once : occurs p (inorder t) ≡ 1) (m : Located p t top) where
  abbrev outer : List ℕ
  outer = up_left m.path

  abbrev rear : List ℕ
  rear = up_right m.path

  own_lem : m.x ≡ p
  own_lem = ==-true m.x p m.own

  whole : inorder t ≡ (outer ++ inorder m.l) ++ (m.x ∷ (inorder m.r ++ rear))
  whole =
      sym m.nodes
      ∙ around-split (inorder m.l ++ (m.x ∷ inorder m.r)) m.path
      ∙ ap (λ zs. outer ++ zs) (append_assoc (inorder m.l) (m.x ∷ inorder m.r) rear)
      ∙ sym (append_assoc outer (inorder m.l) (m.x ∷ (inorder m.r ++ rear)))

  cut : around (inorder m.l ++ inorder m.r) m.path ≡ (outer ++ inorder m.l) ++ (inorder m.r ++ rear)
  cut =
      around-split (inorder m.l ++ inorder m.r) m.path
      ∙ ap (λ zs. outer ++ zs) (append_assoc (inorder m.l) (inorder m.r) rear)
      ∙ sym (append_assoc outer (inorder m.l) (inorder m.r ++ rear))

  -- The node stands once, so that it is none of the others.
  apart : occurs p outer + occurs p (inorder m.l) + (occurs p (inorder m.r) + occurs p rear) ≡ 0
  apart = omega (
    arith,
    once,
    ap (occurs p) whole,
    count-append (λ q. q == p) (outer ++ inorder m.l) (m.x ∷ (inorder m.r ++ rear)),
    count-append (λ q. q == p) outer (inorder m.l),
    count-append (λ q. q == p) (inorder m.r) rear,
    ap to_nat m.own,
  )

  deleted :
      size t < 2147483647
      → Returns
          (IsTreeOf (around (inorder m.l ++ inorder m.r) m.path))
          (avl_del (λ q. q == p) (node m.l m.x m.h m.c m.r) m.path)
  deleted small =
      avl_del-removed (λ q. q == p) m.l m.x m.h m.c m.r m.path m.tree m.valid
        (omega (arith, m.sizes, small)) m.own (others_of p (inorder m.l) (omega (arith, apart)))
        (others_of p (inorder m.r) (omega (arith, apart)))
        (path_others p m.path (omega (arith, apart)) (omega (arith, apart)))

-- Deleting the one node at an address from a balanced tree.
pub tree_delete-Cut :
    (z : ZSet) (p : ℕ)
    → IsAvl z.root
    → occurs p (inorder z.root) ≡ 1
    → size z.root < 2147483647
    → (root : Tree ℕ) × (tree_delete z p ≡ some (record z { root = root })) × Cut p z.root root
unfolding tree_delete
tree_delete-Cut z p v once small =
    let m = located p z.root top (omega (arith, once)) v _ in
    let (root, run, (tree, nodes)) = deleted p z.root once m small in
    (
      root,
      rw (m.found, ◌>>=◌, run) refl,
      record {
        tree = tree;
        before = up_left m.path ++ inorder m.l;
        behind = inorder m.r ++ up_right m.path;
        was =
            whole p z.root once m
            ∙ ap (λ x. (up_left m.path ++ inorder m.l) ++ (x ∷ (inorder m.r ++ up_right m.path)))
                (own_lem p z.root once m);
        is = nodes ∙ cut p z.root once m;
      },
    )
