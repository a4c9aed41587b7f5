-- ===== src/Avl/Fix.antt =====
-- avl.cpp: one round of the loop of `avl_fix`, at one node.
use redis_lite.Base.{
  ℕ, ◌+◌, ◌%◌, ◌^◌, ◌≤◌, ◌<◌, ◌≡◌, inl, inr, ◌∙◌, true, false, some, arith, ltb, ◌==◌, lt_cases,
  Returns, lt→ltb, le→ltb,
}
use redis_lite.Avl.{
  Tree, leaf, node, avl_height, avl_update, rot_left, rot_right, avl_fix_left, avl_fix_right,
  fix_node,
}
use redis_lite.Avl.Inorder.{size}
use redis_lite.Avl.Rotate.{
  IsAvl, IsRepaired, height-le-size, update-IsJoined, single_right, double_right, single_left,
  double_left,
}

pub data Balance (l r : ℕ) : Type 0 where
  even : l ≤ r + 1 → r ≤ l + 1 → Balance l r
  left : l ≡ r + 2 → Balance l r
  right : r ≡ l + 2 → Balance l r

pub balance : (l r : ℕ) → l ≤ r + 2 → r ≤ l + 2 → Balance l r
balance l r p q = elim (lt_cases (r + 1) l) [
  | inl s ↦ left (omega arith)
  | inr s ↦ elim (lt_cases (l + 1) r) [
    | inl t ↦ right (omega arith)
    | inr t ↦ even (omega arith) (omega arith)
  ]
]

-- The tests of `avl_fix`, whose sums are in 32 bits.
is_taller : (l r : ℕ) → r < 2147483648 → l ≡ r + 2 → (l == (r + 2) % 2 ^ 32) ≡ true
is_taller l r p e = ground arith

not_taller : (l r : ℕ) → r < 2147483648 → l ≤ r + 1 → (l == (r + 2) % 2 ^ 32) ≡ false
not_taller l r p e = ground arith

is_shorter : (l r : ℕ) → l < 2147483648 → r ≡ l + 2 → ((l + 2) % 2 ^ 32 == r) ≡ true
is_shorter l r p e = ground arith

not_shorter : (l r : ℕ) → l < 2147483648 → r ≤ l + 1 → ((l + 2) % 2 ^ 32 == r) ≡ false
not_shorter l r p e = ground arith

module _ {ℓ} {A : Type ℓ} where
  fix_left_single :
      (a : Tree A) (y : A) (h' c' : ℕ) (b : Tree A) (x : A) (h c : ℕ) (r : Tree A)
      → ltb (avl_height a) (avl_height b) ≡ false
      → avl_fix_left (node (node a y h' c' b) x h c r) ≡ some (avl_update a y (avl_update b x r))
  unfolding avl_fix_left rot_right
  fix_left_single a y h' c' b x h c r e = rw e

  fix_left_double :
      (a : Tree A) (y : A) (h' c' : ℕ) (b : Tree A) (z : A) (k d : ℕ) (b' : Tree A) (x : A)
      (h c : ℕ) (r : Tree A)
      → ltb (avl_height a) k ≡ true
      → avl_fix_left (node (node a y h' c' (node b z k d b')) x h c r)
        ≡ some (avl_update (avl_update a y b) z (avl_update b' x r))
  unfolding avl_fix_left rot_left rot_right avl_update
  fix_left_double a y h' c' b z k d b' x h c r e = rw e

  fix_left-IsRepaired :
      (l : Tree A) (x : A) (h c : ℕ) (r : Tree A)
      → IsAvl l
      → IsAvl r
      → size l + size r < 2147483648
      → avl_height l ≡ avl_height r + 2
      → Returns (IsRepaired l x r) (avl_fix_left (node l x h c r))
  fix_left-IsRepaired leaf x h c r v w small tall = absurd (omega arith)
  fix_left-IsRepaired (node a y h' c' leaf) x h c r v w small tall = (
    _,
    fix_left_single a y h' c' leaf x h c r (le→ltb (avl_height a) 0 (omega arith)),
    single_right a y h' c' leaf x r v w small tall (omega arith),
  )
  fix_left-IsRepaired (node a y h' c' (node b z k d b')) x h c r v w small tall =
      elim (lt_cases (avl_height a) k) [
        | inl p ↦ (
          _,
          fix_left_double a y h' c' b z k d b' x h c r (lt→ltb (avl_height a) k p),
          double_right a y h' c' b z k d b' x r v w small tall p,
        )
        | inr p ↦ (
          _,
          fix_left_single a y h' c' (node b z k d b') x h c r (le→ltb (avl_height a) k p),
          single_right a y h' c' (node b z k d b') x r v w small tall p,
        )
      ]

  fix_right_single :
      (l : Tree A) (x : A) (h c : ℕ) (a : Tree A) (y : A) (h' c' : ℕ) (b : Tree A)
      → ltb (avl_height b) (avl_height a) ≡ false
      → avl_fix_right (node l x h c (node a y h' c' b)) ≡ some (avl_update (avl_update l x a) y b)
  unfolding avl_fix_right rot_left
  fix_right_single l x h c a y h' c' b e = rw e

  fix_right_double :
      (l : Tree A) (x : A) (h c : ℕ) (b : Tree A) (z : A) (k d : ℕ) (b' : Tree A) (y : A)
      (h' c' : ℕ) (a : Tree A)
      → ltb (avl_height a) k ≡ true
      → avl_fix_right (node l x h c (node (node b z k d b') y h' c' a))
        ≡ some (avl_update (avl_update l x b) z (avl_update b' y a))
  unfolding avl_fix_right rot_left rot_right avl_update
  fix_right_double l x h c b z k d b' y h' c' a e = rw e

  fix_right-IsRepaired :
      (l : Tree A) (x : A) (h c : ℕ) (r : Tree A)
      → IsAvl l
      → IsAvl r
      → size l + size r < 2147483648
      → avl_height r ≡ avl_height l + 2
      → Returns (IsRepaired l x r) (avl_fix_right (node l x h c r))
  fix_right-IsRepaired l x h c leaf v w small tall = absurd (omega arith)
  fix_right-IsRepaired l x h c (node leaf y h' c' a) v w small tall = (
    _,
    fix_right_single l x h c leaf y h' c' a (le→ltb (avl_height a) 0 (omega arith)),
    single_left l x leaf y h' c' a v w small tall (omega arith),
  )
  fix_right-IsRepaired l x h c (node (node b z k d b') y h' c' a) v w small tall =
      elim (lt_cases (avl_height a) k) [
        | inl p ↦ (
          _,
          fix_right_double l x h c b z k d b' y h' c' a (lt→ltb (avl_height a) k p),
          double_left l x b z k d b' y h' c' a v w small tall p,
        )
        | inr p ↦ (
          _,
          fix_right_single l x h c (node b z k d b') y h' c' a (le→ltb (avl_height a) k p),
          single_left l x (node b z k d b') y h' c' a v w small tall p,
        )
      ]

  fix_node_left :
      (l : Tree A) (x : A) (h c : ℕ) (r : Tree A)
      → (avl_height l == (avl_height r + 2) % 2 ^ 32) ≡ true
      → fix_node (node l x h c r) ≡ avl_fix_left (avl_update l x r)
  unfolding fix_node
  fix_node_left l x h c r e = rw e

  fix_node_right :
      (l : Tree A) (x : A) (h c : ℕ) (r : Tree A)
      → (avl_height l == (avl_height r + 2) % 2 ^ 32) ≡ false
      → ((avl_height l + 2) % 2 ^ 32 == avl_height r) ≡ true
      → fix_node (node l x h c r) ≡ avl_fix_right (avl_update l x r)
  unfolding fix_node
  fix_node_right l x h c r e e' = rw (e, e')

  fix_node_even :
      (l : Tree A) (x : A) (h c : ℕ) (r : Tree A)
      → (avl_height l == (avl_height r + 2) % 2 ^ 32) ≡ false
      → ((avl_height l + 2) % 2 ^ 32 == avl_height r) ≡ false
      → fix_node (node l x h c r) ≡ some (avl_update l x r)
  unfolding fix_node
  fix_node_even l x h c r e e' = rw (e, e')

  pub fix_node-IsRepaired :
      (l : Tree A) (x : A) (h c : ℕ) (r : Tree A)
      → IsAvl l
      → IsAvl r
      → size l + size r < 2147483648
      → avl_height l ≤ avl_height r + 2
      → avl_height r ≤ avl_height l + 2
      → Returns (IsRepaired l x r) (fix_node (node l x h c r))
  unfolding avl_update
  fix_node-IsRepaired l x h c r v w small p q =
      let hl = avl_height l in
      let hr = avl_height r in
      let sl : avl_height l < 2147483648 = omega (arith, height-le-size l v) in
      let sr : avl_height r < 2147483648 = omega (arith, height-le-size r w) in
      elim (balance hl hr p q) [
        | left e ↦
            let (t, e', g) = fix_left-IsRepaired l x _ _ r v w small e in
            (t, fix_node_left l x h c r (is_taller hl hr sr e) ∙ e', g)
        | right e ↦
            let (t, e', g) = fix_right-IsRepaired l x _ _ r v w small e in
            (
              t,
              fix_node_right l x h c r (not_taller hl hr sr (omega arith)) (is_shorter hl hr sl e)
                  ∙ e',
              g,
            )
        | even s t ↦
            let (vt, ht, st, it) = update-IsJoined l x r v w small s t in
            (
              avl_update l x r,
              fix_node_even l x h c r (not_taller hl hr sr s) (not_shorter hl hr sl t),
              (vt, st, it, omega arith, omega arith, λ _ _. ht),
            )
      ]
