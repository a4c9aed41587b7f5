-- ===== src/ZSet/Search.antt =====
-- zset.cpp: the two searches in a tree whose nodes are in order.
use redis_lite.Base.{
  ◌+◌, ◌≡◌, inl, inr, refl, ◌∙◌, sym, ap, Bool, true, false, List, [], ◌∷◌, ◌++◌, Option, none,
  some, arith, count, count-append, to_nat, Bool-cases, if◌then◌else◌,
}
use mathlib.Core.Bool.{not}
use mathlib.Core.Path.{ap₂}
use mathlib.Core.List.{append_assoc, append-nil}
use redis_lite.Avl.{Tree, leaf, node, PathUp, left_of, right_of, avl_height}
use redis_lite.Avl.Inorder.{inorder, size, around}
use redis_lite.Avl.Rotate.{IsAvl}
use redis_lite.Avl.Path.{IsPath, path_size}
use redis_lite.ZSet.{descend, seek, or_else}

module _ {ℓ} {A : Type ℓ} (f : A → Bool) where
  -- The items at the front that pass the test, and the rest.
  abbrev pub take_while : List A → List A
  take_while [] = []
  take_while (x ∷ xs) = if f x then x ∷ take_while xs else []

  abbrev pub drop_while : List A → List A
  drop_while [] = []
  drop_while (x ∷ xs) = if f x then drop_while xs else x ∷ xs

  -- After an item that fails the test all items fail it.
  abbrev pub IsDown : List A → Type 0
  IsDown [] = Unit
  IsDown (x ∷ xs) = (f x ≡ false → count f xs ≡ 0) × IsDown xs

  before_pass :
      (y : A) (l : List A) (x : A) (r : List A)
      → f x ≡ true
      → (f y ≡ false → count f (l ++ (x ∷ r)) ≡ 0)
      → f y ≡ true
  before_pass y l x r e down = elim (Bool-cases (f y)) [
    | inl g ↦ g
    | inr g ↦ absurd (omega (arith, down g, count-append f l (x ∷ r), ap to_nat e))
  ]

  take_while-pass :
      (l : List A) (x : A) (r : List A)
      → f x ≡ true
      → IsDown (l ++ (x ∷ r))
      → take_while (l ++ (x ∷ r)) ≡ l ++ (x ∷ take_while r)
  take_while-pass [] x r e down = rw e refl
  take_while-pass (y ∷ l) x r e down =
      rw (before_pass y l x r e down.0) (ap (λ xs. y ∷ xs) (take_while-pass l x r e down.1))

  drop_while-pass :
      (l : List A) (x : A) (r : List A)
      → f x ≡ true
      → IsDown (l ++ (x ∷ r))
      → drop_while (l ++ (x ∷ r)) ≡ drop_while r
  drop_while-pass [] x r e down = rw e refl
  drop_while-pass (y ∷ l) x r e down =
      rw (before_pass y l x r e down.0) (drop_while-pass l x r e down.1)

  take_while-fail :
      (l : List A) (x : A) (r : List A) → f x ≡ false → take_while (l ++ (x ∷ r)) ≡ take_while l
  take_while-fail [] x r e = rw e refl
  take_while-fail (y ∷ l) x r e = elim (Bool-cases (f y)) [
    | inl g ↦ rw g (ap (λ xs. y ∷ xs) (take_while-fail l x r e))
    | inr g ↦ rw g refl
  ]

  drop_while-fail :
      (l : List A) (x : A) (r : List A)
      → f x ≡ false
      → drop_while (l ++ (x ∷ r)) ≡ drop_while l ++ (x ∷ r)
  drop_while-fail [] x r e = rw e refl
  drop_while-fail (y ∷ l) x r e = elim (Bool-cases (f y)) [
    | inl g ↦ rw g (drop_while-fail l x r e)
    | inr g ↦ rw g refl
  ]

  pub IsDown-left : (l r : List A) → IsDown (l ++ r) → IsDown l
  IsDown-left [] r down = _
  IsDown-left (y ∷ l) r down =
      (λ e. omega (arith, down.0 e, count-append f l r), IsDown-left l r down.1)

  pub IsDown-right : (l r : List A) → IsDown (l ++ r) → IsDown r
  IsDown-right [] r down = down
  IsDown-right (y ∷ l) r down = IsDown-right l r down.1

abbrev pub first {ℓ} : {A : Type ℓ} → List A → Option A
first [] = none
first (x ∷ xs) = some x

or_else-first {ℓ} :
    {A : Type ℓ} (l : List A) (x : A) (r : List A) (o : Option A)
    → or_else (first l) (some x) ≡ or_else (first (l ++ (x ∷ r))) o
or_else-first [] x r o = refl
or_else-first (y ∷ l) x r o = refl

module _ {ℓ} {A : Type ℓ} where
  -- The loop of `zset_seekge` finds the first node that is not less.
  pub seek-first :
      (f : A → Bool) (t : Tree A) (o : Option A)
      → IsDown f (inorder t)
      → seek f t o ≡ or_else (first (drop_while f (inorder t))) o
  unfolding seek
  seek-first f leaf o down = refl
  seek-first f (node l x h c r) o down = elim (Bool-cases (f x)) [
    | inl e ↦
        rw (seek, e, drop_while-pass f (inorder l) x (inorder r) e down)
          (seek-first f r o (IsDown-right f (inorder l) (x ∷ inorder r) down).1)
    | inr e ↦
        rw (seek, e, drop_while-fail f (inorder l) x (inorder r) e)
          (seek-first f l (some x) (IsDown-left f (inorder l) (x ∷ inorder r) down)
            ∙ or_else-first (drop_while f (inorder l)) x (inorder r) o)
  ]

  go_left :
      (g : A → Bool) (l : List A) (x : A) (r ys : List A)
      → g x ≡ false
      → (take_while g l ++ (ys ++ drop_while g l)) ++ (x ∷ r)
        ≡ take_while g (l ++ (x ∷ r)) ++ (ys ++ drop_while g (l ++ (x ∷ r)))
  go_left g l x r ys e =
      append_assoc (take_while g l) (ys ++ drop_while g l) (x ∷ r)
      ∙ ap (λ zs. take_while g l ++ zs) (append_assoc ys (drop_while g l) (x ∷ r))
      ∙ ap₂ (λ us vs. us ++ (ys ++ vs)) (sym (take_while-fail g l x r e))
          (sym (drop_while-fail g l x r e))

  go_right :
      (g : A → Bool) (l : List A) (x : A) (r ys : List A)
      → g x ≡ true
      → IsDown g (l ++ (x ∷ r))
      → l ++ (x ∷ (take_while g r ++ (ys ++ drop_while g r)))
        ≡ take_while g (l ++ (x ∷ r)) ++ (ys ++ drop_while g (l ++ (x ∷ r)))
  go_right g l x r ys e down =
      sym (append_assoc l (x ∷ take_while g r) (ys ++ drop_while g r))
      ∙ ap₂ (λ us vs. us ++ (ys ++ vs)) (sym (take_while-pass g l x r e down))
          (sym (drop_while-pass g l x r e down))

  -- The place that the search of `tree_insert` finds.
  pub descend-around :
      (f : A → Bool) (t : Tree A) (up : PathUp A) (ys : List A)
      → IsDown (λ x. not (f x)) (inorder t)
      → around ys (descend f t up)
        ≡ around
            (take_while (λ x. not (f x)) (inorder t)
              ++ (ys ++ drop_while (λ x. not (f x)) (inorder t)))
            up
  unfolding descend
  descend-around f leaf up ys down = ap (λ l. around l up) (sym (append-nil ys))
  descend-around f (node l x h c r) up ys down =
      let g = λ (x : A). not (f x) in
      elim (Bool-cases (f x)) [
        | inl e ↦
            rw (descend, e)
              (descend-around f l (left_of x h c r up) ys
                  (IsDown-left g (inorder l) (x ∷ inorder r) down)
                ∙ ap (λ zs. around zs up) (go_left g (inorder l) x (inorder r) ys (ap not e)))
        | inr e ↦
            rw (descend, e)
              (descend-around f r (right_of l x h c up) ys
                  (IsDown-right g (inorder l) (x ∷ inorder r) down).1
                ∙ ap (λ zs. around zs up) (go_right g (inorder l) x (inorder r) ys (ap not e) down))
      ]

  pub descend-IsPath :
      (f : A → Bool) (t : Tree A) (up : PathUp A)
      → IsAvl t
      → IsPath (avl_height t) up
      → IsPath 0 (descend f t up)
  unfolding descend
  descend-IsPath f leaf up v w = w
  descend-IsPath f (node l x h c r) up (vl, vr, eh, ec, p, q) w = elim (Bool-cases (f x)) [
    | inl e ↦ rw (descend, e) (descend-IsPath f l (left_of x h c r up) vl (vr, eh, p, q, w))
    | inr e ↦ rw (descend, e) (descend-IsPath f r (right_of l x h c up) vr (vl, eh, q, p, w))
  ]

  pub path_size-descend :
      (f : A → Bool) (t : Tree A) (up : PathUp A)
      → path_size (descend f t up) ≡ size t + path_size up
  unfolding descend
  path_size-descend f leaf up = omega arith
  path_size-descend f (node l x h c r) up = elim (Bool-cases (f x)) [
    | inl e ↦ rw (descend, e) (omega (arith, path_size-descend f l (left_of x h c r up)))
    | inr e ↦ rw (descend, e) (omega (arith, path_size-descend f r (right_of l x h c up)))
  ]
