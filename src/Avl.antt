-- ===== src/Avl.antt =====
-- avl.h and avl.cpp: the balanced tree. A node with its parent pointer is a subtree with the path
-- above it, so that `parent->left == node` is the kind of the path's first step. `none` is an
-- access through NULL or a failed assertion.
pub mod Inorder
pub mod Rotate
pub mod Fix
pub mod Path
pub mod Remove
pub mod Swap
pub mod Offset
pub mod Position
pub mod Move
use redis_lite.Base.{
  ℕ, zero, suc, ◌+◌, ◌%◌, ◌^◌, Bool, true, false, Option, none, some, ◌>>=◌, ltb, ◌==◌,
  if◌then◌else◌,
}

pub data Tree {ℓ} (A : Type ℓ) : Type ℓ where
  leaf : Tree A
  node : Tree A → A → ℕ → ℕ → Tree A → Tree A

-- The path from a subtree up to the root: each parent with its height, its count and its other
-- subtree.
pub data PathUp {ℓ} (A : Type ℓ) : Type ℓ where
  top : PathUp A
  left_of : A → ℕ → ℕ → Tree A → PathUp A → PathUp A
  right_of : Tree A → A → ℕ → ℕ → PathUp A → PathUp A

-- `max` of avl.cpp
abbrev pub larger : ℕ → ℕ → ℕ
larger lhs rhs = if ltb lhs rhs then rhs else lhs

module _ {ℓ} {A : Type ℓ} where
  abbrev pub avl_height : Tree A → ℕ
  avl_height leaf = 0
  avl_height (node l x h c r) = h

  abbrev pub avl_cnt : Tree A → ℕ
  avl_cnt leaf = 0
  avl_cnt (node l x h c r) = c

  -- `avl_init`
  abbrev pub avl_init : A → Tree A
  avl_init x = node leaf x 1 1 leaf

  -- `avl_update` of a node with these children, in 32 bits.
  unfoldable pub avl_update : Tree A → A → Tree A → Tree A
  avl_update l x r =
      node l x ((1 + larger (avl_height l) (avl_height r)) % 2 ^ 32)
        ((1 + avl_cnt l + avl_cnt r) % 2 ^ 32) r

  unfoldable pub rot_left : Tree A → Option (Tree A)
  rot_left (node a x h c (node inner y h' c' b)) = some (avl_update (avl_update a x inner) y b)
  rot_left _ = none

  unfoldable pub rot_right : Tree A → Option (Tree A)
  rot_right (node (node a y h' c' inner) x h c b) = some (avl_update a y (avl_update inner x b))
  rot_right _ = none

  -- the left subtree is taller by 2
  unfoldable pub avl_fix_left : Tree A → Option (Tree A)
  avl_fix_left (node (node a y h' c' b) x h c r) =
      (if ltb (avl_height a) (avl_height b)
        then rot_left (node a y h' c' b)
        else some (node a y h' c' b))
      >>= λ l. rot_right (node l x h c r)
  avl_fix_left _ = none

  -- the right subtree is taller by 2
  unfoldable pub avl_fix_right : Tree A → Option (Tree A)
  avl_fix_right (node l x h c (node a y h' c' b)) =
      (if ltb (avl_height b) (avl_height a)
        then rot_right (node a y h' c' b)
        else some (node a y h' c' b))
      >>= λ r. rot_left (node l x h c r)
  avl_fix_right _ = none

  -- One round of the loop of `avl_fix`, on the subtree.
  unfoldable pub fix_node : Tree A → Option (Tree A)
  fix_node leaf = none
  fix_node (node left x h c right) =
      let t = avl_update left x right in
      let l = avl_height left in
      let r = avl_height right in
      if l == (r + 2) % 2 ^ 32
      then avl_fix_left t
      else if (l + 2) % 2 ^ 32 == r
      then avl_fix_right t
      else some t

  -- The loop of `avl_fix`: on to the parent until the root is reached.
  unfoldable pub avl_fix : Tree A → PathUp A → Option (Tree A)
  avl_fix t top = fix_node t
  avl_fix t (left_of x h c r up) = fix_node t >>= λ t'. avl_fix (node t' x h c r) up
  avl_fix t (right_of l x h c up) = fix_node t >>= λ t'. avl_fix (node l x h c t') up

  -- The child takes the place of the node; a root is replaced without rebalancing.
  unfoldable pub attach : Tree A → PathUp A → Option (Tree A)
  attach child top = some child
  attach child (left_of x h c r up) = avl_fix (node child x h c r) up
  attach child (right_of l x h c up) = avl_fix (node l x h c child) up

  unfoldable pub avl_del_easy : Tree A → PathUp A → Option (Tree A)
  avl_del_easy (node leaf x h c r) up = attach r up
  avl_del_easy (node l x h c leaf) up = attach l up
  avl_del_easy _ up = none

  -- `while (victim->left)`: down to the leftmost node, with the path to it.
  unfoldable pub leftmost : Tree A → PathUp A → Tree A × PathUp A
  leftmost (node (node a y h' c' b) x h c r) up = leftmost (node a y h' c' b) (left_of x h c r up)
  leftmost t up = (t, up)

  -- The node that is `old` becomes `new`, with its links, its height and its count.
  unfoldable pub swap_node : (A → Bool) → A → Tree A → Tree A
  swap_node is_old new leaf = leaf
  swap_node is_old new (node l x h c r) =
      node (swap_node is_old new l) (if is_old x then new else x) h c (swap_node is_old new r)

  -- The successor is detached and takes the place of the node, with its links.
  unfoldable pub del_victim : (A → Bool) → Tree A → PathUp A → Option (Tree A)
  del_victim is_old leaf path = none
  del_victim is_old (node l v h c r) path =
      avl_del_easy (node l v h c r) path >>= λ root. some (swap_node is_old v root)

  -- `is_old` tells the node itself from the others.
  unfoldable pub avl_del : (A → Bool) → Tree A → PathUp A → Option (Tree A)
  avl_del is_old (node (node a y h' c' b) x h c (node a' z h'' c'' b')) up =
      let (victim, path) = leftmost (node a' z h'' c'' b') (right_of (node a y h' c' b) x h c up) in
      del_victim is_old victim path
  avl_del is_old t up = avl_del_easy t up
