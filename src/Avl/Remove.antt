-- ===== src/Avl/Remove.antt =====
-- avl.cpp: linking a node and `avl_del_easy`, from their ends at the bottom of the tree.
use redis_lite.Base.{
  ℕ, suc, ◌+◌, ◌<◌, ◌≡◌, ◌⊎◌, inl, inr, refl, ◌∙◌, sym, ap, List, [], ◌∷◌, ◌++◌, arith, Returns,
}
use mathlib.Core.List.{append-nil}
use redis_lite.Avl.{
  Tree, leaf, node, PathUp, top, left_of, right_of, avl_height, avl_init, avl_fix, attach,
  avl_del_easy, leftmost,
}
use redis_lite.Avl.Inorder.{inorder, size, around}
use redis_lite.Avl.Rotate.{IsAvl}
use redis_lite.Avl.Path.{IsPath, IsTreeOf, path_size, fix_walk}

module _ {ℓ} {A : Type ℓ} where
  -- Linking a new node at an empty place of a balanced tree below 2 ^ 31 nodes and calling `avl_fix`
  -- on it gives a balanced tree, with the node at that place of the order and all others as they
  -- were.
  pub avl_fix-init :
      (x : A) (up : PathUp A)
      → IsPath 0 up
      → 1 + path_size up < 2147483648
      → Returns (IsTreeOf (around (x ∷ []) up)) (avl_fix (avl_init x) up)
  avl_fix-init x up path small =
      fix_walk 0 leaf x 1 1 leaf up _ _
        (omega arith, omega arith, omega arith, omega arith, λ e. omega arith, λ e. omega arith)
        path (omega arith)

  attach_walk :
      (h : ℕ) (child : Tree A) (up : PathUp A)
      → IsAvl child
      → h ≡ avl_height child + 1
      → IsPath h up
      → size child + path_size up < 2147483648
      → Returns (IsTreeOf (around (inorder child) up)) (attach child up)
  unfolding attach
  attach_walk h child top v e path small = (child, refl, (v, refl))
  attach_walk h child (left_of x k c r up) v e (vr, ek, p, q, path) small =
      fix_walk k child x k c r up v vr
        (omega arith, omega arith, omega arith, omega arith, λ e'. omega arith, λ e'. omega arith)
        path (omega arith)
  attach_walk h child (right_of l x k c up) v e (vl, ek, p, q, path) small =
      fix_walk k l x k c child up vl v
        (omega arith, omega arith, omega arith, omega arith, λ e'. omega arith, λ e'. omega arith)
        path (omega arith)

  pub del_easy_walk :
      (l : Tree A) (x : A) (h c : ℕ) (r : Tree A) (up : PathUp A)
      → (l ≡ leaf) ⊎ (r ≡ leaf)
      → IsAvl (node l x h c r)
      → IsPath h up
      → size l + size r + path_size up < 2147483648
      → Returns (IsTreeOf (around (inorder l ++ inorder r) up)) (avl_del_easy (node l x h c r) up)
  unfolding avl_del_easy
  del_easy_walk leaf x h c r up empty v path small =
      attach_walk h r up v.1 (omega arith) path (omega arith)
  del_easy_walk (node a y k d b) x h c leaf up empty v path small =
      let (t, e, g) = attach_walk h (node a y k d b) up v.0 (omega arith) path (omega arith) in
      (t, e, (g.0, g.1 ∙ ap (λ xs. around xs up) (sym (append-nil (inorder (node a y k d b))))))
  del_easy_walk (node a y k d b) x h c (node a' y' k' d' b') up (inl e) v path small =
      absurd (omega (arith, ap size e))
  del_easy_walk (node a y k d b) x h c (node a' y' k' d' b') up (inr e) v path small =
      absurd (omega (arith, ap size e))

  -- The walk down from a subtree ends at a node `v` with no left child, the first of the order.
  pub record IsLeftmost (t : Tree A) (up : PathUp A) : Type ℓ where
    pub v : A
    pub h : ℕ
    pub c : ℕ
    pub r : Tree A
    pub path : PathUp A
    pub rest : List A
    pub found : leftmost t up ≡ (node leaf v h c r, path)
    pub is_first : inorder t ≡ v ∷ rest
    pub rest_around : around (inorder r) path ≡ around rest up
    pub valid : IsAvl (node leaf v h c r)
    pub valid_path : IsPath h path
    pub same_size : suc (size r + path_size path) ≡ size t + path_size up

  pub walk_down :
      (l : Tree A) (x : A) (h c : ℕ) (r : Tree A) (up : PathUp A)
      → IsAvl (node l x h c r)
      → IsPath h up
      → IsLeftmost (node l x h c r) up
  unfolding leftmost
  walk_down leaf x h c r up valid path = record {
    v = x;
    h = h;
    c = c;
    r = r;
    path = up;
    rest = inorder r;
    found = refl;
    is_first = refl;
    rest_around = refl;
    valid = valid;
    valid_path = path;
    same_size = omega arith;
  }
  walk_down (node a y k d b) x h c r up (vl, vr, eh, ec, p, q) path =
      let m = walk_down a y k d b (left_of x h c r up) vl (vr, eh, p, q, path) in
      record {
        v = m.v;
        h = m.h;
        c = m.c;
        r = m.r;
        path = m.path;
        rest = m.rest ++ (x ∷ inorder r);
        found = m.found;
        is_first = ap (λ xs. xs ++ (x ∷ inorder r)) m.is_first;
        rest_around = m.rest_around;
        valid = m.valid;
        valid_path = m.valid_path;
        same_size = m.same_size ∙ omega arith;
      }
