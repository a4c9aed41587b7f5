-- ===== src/Avl/Inorder.antt =====
-- avl.cpp: the nodes of a tree, and of the tree around a path, in order.
use redis_lite.Base.{ℕ, ◌+◌, ◌≡◌, List, [], ◌∷◌, ◌++◌, length, suc, length-append, arith}
use redis_lite.Avl.{Tree, leaf, node, PathUp, top, left_of, right_of}

module _ {ℓ} {A : Type ℓ} where
  abbrev pub inorder : Tree A → List A
  inorder leaf = []
  inorder (node l x h c r) = inorder l ++ (x ∷ inorder r)

  -- The nodes of the whole tree, from those of the subtree at the end of a path.
  abbrev pub around : List A → PathUp A → List A
  around xs top = xs
  around xs (left_of x h c r up) = around (xs ++ (x ∷ inorder r)) up
  around xs (right_of l x h c up) = around (inorder l ++ (x ∷ xs)) up

  abbrev pub size : Tree A → ℕ
  size leaf = 0
  size (node l x h c r) = suc (size l + size r)

  pub length-inorder : (t : Tree A) → length (inorder t) ≡ size t
  length-inorder leaf = omega arith
  length-inorder (node l x h c r) =
      omega (arith, length-append (inorder l) (x ∷ inorder r), length-inorder l, length-inorder r)
