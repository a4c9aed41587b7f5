-- ===== src/ZSet/Sorted.antt =====
-- zset.cpp: sorted sequences of nodes under insertion, removal and changes of memory.
use redis_lite.Base.{
  ℕ, ◌+◌, ◌≡◌, ◌≢◌, inl, inr, refl, ◌∙◌, ap, Bool, true, false, List, [], ◌∷◌, ◌++◌, ◌==◌, ◌&&◌,
  arith, count, count-append, to_nat, Bool-cases,
}
use mathlib.Core.Bool.{not}
use redis_lite.Base.Memory.{==-same}
use redis_lite.ZSet.Search.{take_while, drop_while}
use redis_lite.ZSet.Valid.{IsSorted}

module _ {ℓ} {A : Type ℓ} (less : A → A → Bool) where
  pub IsSorted-without :
      (l : List A) (x : A) (r : List A) → IsSorted less (l ++ (x ∷ r)) → IsSorted less (l ++ r)
  IsSorted-without [] x r s = s.1
  IsSorted-without (y ∷ l) x r s = (
    omega (
      arith,
      s.0,
      count-append (λ u. not (less y u)) l (x ∷ r),
      count-append (λ u. not (less y u)) l r,
    ),
    IsSorted-without l x r s.1,
  )

  pub take-drop : (f : A → Bool) (xs : List A) → take_while f xs ++ drop_while f xs ≡ xs
  take-drop f [] = refl
  take-drop f (x ∷ xs) = elim (Bool-cases (f x)) [
    | inl e ↦ rw e (ap (λ ys. x ∷ ys) (take-drop f xs))
    | inr e ↦ rw e refl
  ]

  -- A count of the items around one that is put in.
  pub count-around :
      (f g : A → Bool) (x : A) (xs : List A)
      → count f (take_while g xs ++ (x ∷ drop_while g xs)) ≡ to_nat (f x) + count f xs
  count-around f g x xs = omega (
    arith,
    count-append f (take_while g xs) (x ∷ drop_while g xs),
    count-append f (take_while g xs) (drop_while g xs),
    ap (count f) (take-drop g xs),
  )

  behind :
      (x y : A) (zs : List A)
      → ((c : A) → less x y ≡ true → less y c ≡ true → less x c ≡ true)
      → less x y ≡ true
      → count (λ u. not (less y u)) zs ≡ 0
      → count (λ u. not (less x u)) zs ≡ 0
  behind x y [] t e h = refl
  behind x y (z ∷ zs) t e h = elim (Bool-cases (less y z)) [
    | inl f ↦
        omega (arith, ap (λ b. to_nat (not b)) (t z e f), behind x y zs t e (omega (arith, h)))
    | inr f ↦ absurd (omega (arith, h, ap (λ b. to_nat (not b)) f))
  ]

  is_below :
      (x y : A) → less x y ≡ false → to_nat (not (less x y) && not (less y x)) ≡ 0 → less y x ≡ true
  is_below x y e h = ground (arith, e, h)

  -- A new item is put behind all that are not greater, and those are less.
  pub IsSorted-insert :
      (x : A) (xs : List A)
      → ((a b c : A) → less a b ≡ true → less b c ≡ true → less a c ≡ true)
      → count (λ y. not (less x y) && not (less y x)) xs ≡ 0
      → IsSorted less xs
      → IsSorted less
          (take_while (λ y. not (less x y)) xs ++ (x ∷ drop_while (λ y. not (less x y)) xs))
  IsSorted-insert x [] trans apart s = (refl, _)
  IsSorted-insert x (y ∷ ys) trans apart s = elim (Bool-cases (less x y)) [
    | inl e ↦ rw e ((omega (arith, ap (λ b. to_nat (not b)) e, behind x y ys (trans x y) e s.0), s))
    | inr e ↦ rw e (
        (
          omega (
            arith,
            s.0,
            count-around (λ u. not (less y u)) (λ u. not (less x u)) x ys,
            ap (λ b. to_nat (not b)) (is_below x y e (omega (arith, apart))),
          ),
          IsSorted-insert x ys trans (omega (arith, apart)) s.1,
        ))
  ]

count-frame :
    (less less' : ℕ → ℕ → Bool) (p x : ℕ) (ys : List ℕ)
    → ((y : ℕ) → y ≢ p → less' x y ≡ less x y)
    → count (λ q. q == p) ys ≡ 0
    → count (λ y. not (less' x y)) ys ≡ count (λ y. not (less x y)) ys
count-frame less less' p x [] same off = refl
count-frame less less' p x (y ∷ ys) same off =
    let away : y ≢ p = λ e. omega (arith, off, ap to_nat (ap (λ q. q == p) e ∙ ==-same p)) in
    omega (
      arith,
      ap (λ b. to_nat (not b)) (same y away),
      count-frame less less' p x ys same (omega (arith, off)),
    )

-- The order is kept where the items of the list compare as before.
pub IsSorted-frame :
    (less less' : ℕ → ℕ → Bool) (p : ℕ) (xs : List ℕ)
    → ((x y : ℕ) → x ≢ p → y ≢ p → less' x y ≡ less x y)
    → count (λ q. q == p) xs ≡ 0
    → IsSorted less xs
    → IsSorted less' xs
IsSorted-frame less less' p [] same off s = _
IsSorted-frame less less' p (x ∷ xs) same off s =
    let here : x ≢ p = λ e. omega (arith, off, ap to_nat (ap (λ q. q == p) e ∙ ==-same p)) in
    (
      count-frame less less' p x xs (λ y n. same x y here n) (omega (arith, off)) ∙ s.0,
      IsSorted-frame less less' p xs same (omega (arith, off)) s.1,
    )
