-- ===== src/Base/Counts.antt =====
-- How many items of a list pass a test. Two lists that agree on every test hold the same items,
-- each as often: this is how the development says that an operation moves items without
-- losing or doubling one.
use Prim.Native.Nat.{ℕ, zero, suc, ◌+◌, ◌<◌}
use mathlib.Core.Path.{◌≡◌}
use mathlib.Core.Bool.{Bool, true, false}
use mathlib.Core.List.{List, [], ◌∷◌, ◌++◌}
use native.Mathlib.Omega.{arith}
use redis_lite.Base.Lists.{length, get_or, set, take}

abbrev pub to_nat : Bool → ℕ
to_nat true = 1
to_nat false = 0

module _ {ℓ} {A : Type ℓ} where
  abbrev pub count : (A → Bool) → List A → ℕ
  count p [] = 0
  count p (x ∷ xs) = to_nat (p x) + count p xs

  -- The same items, each as often.
  abbrev pub SameItems : List A → List A → Type ℓ
  SameItems xs ys = (p : A → Bool) → count p xs ≡ count p ys

  pub count-append : (p : A → Bool) (xs ys : List A) → count p (xs ++ ys) ≡ count p xs + count p ys
  count-append p [] ys = omega arith
  count-append p (x ∷ xs) ys = omega (arith, count-append p xs ys)

  pub count-set :
      (p : A → Bool) (xs : List A) (i : ℕ) (v d : A)
      → i < length xs
      → count p (set xs i v) + to_nat (p (get_or xs i d)) ≡ count p xs + to_nat (p v)
  count-set p [] i v d h = elim h [ ]
  count-set p (x ∷ xs) zero v d h = omega arith
  count-set p (x ∷ xs) (suc i) v d h = omega (arith, count-set p xs i v d (omega arith))

  -- An item that passes a test is counted.
  pub count-get_or :
      (p : A → Bool) (xs : List A) (i : ℕ) (d : A)
      → i < length xs
      → p (get_or xs i d) ≡ true
      → 0 < count p xs
  count-get_or p [] i d h e = elim h [ ]
  count-get_or p (x ∷ xs) zero d h e = ground arith
  count-get_or p (x ∷ xs) (suc i) d h e =
      let ih = count-get_or p xs i d (omega arith) e in omega arith

  -- A list without its last item.
  pub count-take :
      (p : A → Bool) (n : ℕ) (xs : List A) (d : A)
      → length xs ≡ suc n
      → count p (take n xs) + to_nat (p (get_or xs n d)) ≡ count p xs
  count-take p zero (x ∷ []) d h = omega arith
  count-take p (suc n) (x ∷ xs) d h = omega (arith, count-take p n xs d (omega arith))
  count-take p n xs d h = absurd (omega arith)
