-- ===== src/Avl/Path.antt =====
-- `avl_fix` of avl.cpp: the walk from a changed subtree to the root.
use redis_lite.Base.{
  ℕ, suc, ◌+◌, ◌≤◌, ◌<◌, ◌≡◌, ◌∙◌, sym, ap, List, ◌∷◌, ◌++◌, ◌>>=◌, arith, Returns,
}
use Prim.Native.Nat.{max}
use redis_lite.Avl.{Tree, node, PathUp, top, left_of, right_of, avl_height, avl_fix}
use redis_lite.Avl.Inorder.{inorder, size, around}
use redis_lite.Avl.Rotate.{IsAvl}
use redis_lite.Avl.Fix.{left, right, even, balance, fix_node-IsRepaired}
use mathlib.Core.Path.{subst}

-- A node over subtrees of these heights is at most one away from the height `h`, also after the
-- repair of a difference of two.
abbrev pub IsNear : ℕ → ℕ → ℕ → Type 0
IsNear l r h =
    (l ≤ r + 2)
    × (r ≤ l + 2)
    × (max l r ≤ h)
    × (h ≤ max l r + 2)
    × ((l ≡ r + 2) → h ≤ l + 1)
    × ((r ≡ l + 2) → h ≤ r + 1)

near_height :
    (l r h h' : ℕ)
    → IsNear l r h
    → max l r ≤ h'
    → h' ≤ 1 + max l r
    → ((l ≤ r + 1) → (r ≤ l + 1) → h' ≡ 1 + max l r)
    → (h ≤ h' + 1) × (h' ≤ h + 1)
near_height l r h h' (p, q, lo, hi, tall, short) lo' hi' eq = elim (balance l r p q) [
  | left e ↦ omega (arith, tall e)
  | right e ↦ omega (arith, short e)
  | even s t ↦ omega (arith, eq s t)
]

IsNear-left :
    (h h' r : ℕ) → h ≤ r + 1 → r ≤ h + 1 → (h ≤ h' + 1) × (h' ≤ h + 1) → IsNear h' r (1 + max h r)
IsNear-left h h' r p q st =
    (omega arith, omega arith, omega arith, omega arith, λ e. omega arith, λ e. omega arith)

IsNear-right :
    (h h' l : ℕ) → h ≤ l + 1 → l ≤ h + 1 → (h ≤ h' + 1) × (h' ≤ h + 1) → IsNear l h' (1 + max l h)
IsNear-right h h' l p q st =
    (omega arith, omega arith, omega arith, omega arith, λ e. omega arith, λ e. omega arith)

module _ {ℓ} {A : Type ℓ} where
  -- The tree around the path is balanced when the subtree at its end has the height `h`.
  abbrev pub IsPath : ℕ → PathUp A → Type 0
  IsPath h top = Unit
  IsPath h (left_of x k c r up) =
      IsAvl r
      × (k ≡ 1 + max h (avl_height r))
      × (h ≤ avl_height r + 1)
      × (avl_height r ≤ h + 1)
      × IsPath k up
  IsPath h (right_of l x k c up) =
      IsAvl l
      × (k ≡ 1 + max (avl_height l) h)
      × (h ≤ avl_height l + 1)
      × (avl_height l ≤ h + 1)
      × IsPath k up

  abbrev pub path_size : PathUp A → ℕ
  path_size top = 0
  path_size (left_of x k c r up) = suc (size r + path_size up)
  path_size (right_of l x k c up) = suc (size l + path_size up)

  abbrev pub IsTreeOf : List A → Tree A → Type ℓ
  IsTreeOf xs t = IsAvl t × (inorder t ≡ xs)

  pub fix_walk :
      (h : ℕ) (l : Tree A) (x : A) (k c : ℕ) (r : Tree A) (up : PathUp A)
      → IsAvl l
      → IsAvl r
      → IsNear (avl_height l) (avl_height r) h
      → IsPath h up
      → size l + size r + path_size up < 2147483648
      → Returns (IsTreeOf (around (inorder l ++ (x ∷ inorder r)) up)) (avl_fix (node l x k c r) up)
  unfolding avl_fix
  fix_walk h l x k c r top v w near path small =
      let (t, e, g) = fix_node-IsRepaired l x k c r v w (omega arith) near.0 near.1 in
      (t, e, (g.0, g.2))
  fix_walk h l x k c r (left_of y k' c' s up) v w near (vs, ek, p, q, path) small =
      let (t, e, (vt, st, it, lo, hi, eq)) =
        fix_node-IsRepaired l x k c r v w (omega arith) near.0 near.1 in
      let near' =
        IsNear-left h (avl_height t) (avl_height s) p q
          (near_height (avl_height l) (avl_height r) h (avl_height t) near lo hi eq) in
      let (root, e', (vr, ir)) =
        fix_walk k' t y k' c' s up vt vs
          (subst (IsNear (avl_height t) (avl_height s)) (sym ek) near') path (omega arith) in
      (
        root,
        ap (λ o. o >>= λ t'. avl_fix (node t' y k' c' s) up) e ∙ e',
        (vr, ir ∙ ap (λ xs. around (xs ++ (y ∷ inorder s)) up) it),
      )
  fix_walk h l x k c r (right_of s y k' c' up) v w near (vs, ek, p, q, path) small =
      let (t, e, (vt, st, it, lo, hi, eq)) =
        fix_node-IsRepaired l x k c r v w (omega arith) near.0 near.1 in
      let near' =
        IsNear-right h (avl_height t) (avl_height s) p q
          (near_height (avl_height l) (avl_height r) h (avl_height t) near lo hi eq) in
      let (root, e', (vr, ir)) =
        fix_walk k' s y k' c' t up vs vt
          (subst (IsNear (avl_height s) (avl_height t)) (sym ek) near') path (omega arith) in
      (
        root,
        ap (λ o. o >>= λ t'. avl_fix (node s y k' c' t') up) e ∙ e',
        (vr, ir ∙ ap (λ xs. around (inorder s ++ (y ∷ xs)) up) it),
      )
