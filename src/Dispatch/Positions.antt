-- ===== src/Dispatch/Positions.antt =====
-- zset.cpp: positions in the list of a sorted set's nodes.
use redis_lite.Base.{
  ℕ, zero, suc, ◌+◌, ◌≤◌, ◌<◌, ◌≡◌, refl, ◌∙◌, ap, Bool, List, [], ◌∷◌, ◌++◌, none, some, ◌==◌,
  arith, to_nat, length, take, drop, get_elem?, Bool-cases, inl, inr, if◌then◌else◌,
}
use mathlib.Core.Option.{some-injective}
use redis_lite.Base.Memory.{==-same}
use redis_lite.ZSet.Locate.{occurs}
use redis_lite.ZSet.Search.{first, drop_while}

-- How many items at the front pass a test.
abbrev pub skip {ℓ} : {A : Type ℓ} → (A → Bool) → List A → ℕ
skip f [] = 0
skip f (x ∷ xs) = if f x then suc (skip f xs) else 0

pub first_at : (f : ℕ → Bool) (xs : List ℕ) → get_elem? xs (skip f xs) ≡ first (drop_while f xs)
first_at f [] = refl
first_at f (x ∷ xs) = elim (Bool-cases (f x)) [ inl e ↦ rw e (first_at f xs) | inr e ↦ rw e refl ]

pub drop_at : (xs : List ℕ) (j p : ℕ) → get_elem? xs j ≡ some p → drop j xs ≡ p ∷ drop (suc j) xs
drop_at [] j p e = cc
drop_at (x ∷ xs) zero p e = ap (λ q. q ∷ xs) (some-injective x p e)
drop_at (x ∷ xs) (suc j) p e = drop_at xs j p e

pub drop_out : (xs : List ℕ) (j : ℕ) → get_elem? xs j ≡ none → drop j xs ≡ []
drop_out [] zero e = refl
drop_out [] (suc j) e = refl
drop_out (x ∷ xs) zero e = cc
drop_out (x ∷ xs) (suc j) e = drop_out xs j e

pub in_range : (xs : List ℕ) (j p : ℕ) → get_elem? xs j ≡ some p → j < length xs
in_range [] j p e = cc
in_range (x ∷ xs) zero p e = omega arith
in_range (x ∷ xs) (suc j) p e = omega (arith, in_range xs j p e)

pub out_range : (xs : List ℕ) (j : ℕ) → length xs ≤ j → get_elem? xs j ≡ none
out_range [] j h = refl
out_range (x ∷ xs) zero h = absurd (omega (arith, h))
out_range (x ∷ xs) (suc j) h = out_range xs j (omega (arith, h))

pub take_nil : (k : ℕ) → take {A = ℕ} k [] ≡ []
take_nil zero = refl
take_nil (suc k) = refl

pub length_le : (xs : List ℕ) (j : ℕ) → get_elem? xs j ≡ none → length xs ≤ j
length_le [] j e = omega arith
length_le (x ∷ xs) zero e = cc
length_le (x ∷ xs) (suc j) e = omega (arith, length_le xs j e)

pub get_elem?-append :
    (xs ys : List ℕ) (i k : ℕ) → i ≡ length xs + k → get_elem? (xs ++ ys) i ≡ get_elem? ys k
get_elem?-append [] ys i k e = ap (get_elem? ys) (omega (arith, e))
get_elem?-append (x ∷ xs) ys zero k e = absurd (omega (arith, e))
get_elem?-append (x ∷ xs) ys (suc i) k e = get_elem?-append xs ys i k (omega (arith, e))

pub there : (xs : List ℕ) (i p : ℕ) → get_elem? xs i ≡ some p → 0 < occurs p xs
there [] i p e = cc
there (x ∷ xs) zero p e =
    omega (arith, ap to_nat (ap (λ q. q == p) (some-injective x p e) ∙ ==-same p))
there (x ∷ xs) (suc i) p e = omega (arith, there xs i p e)

pub one_position :
    (xs : List ℕ) (i j p : ℕ)
    → occurs p xs ≤ 1
    → get_elem? xs i ≡ some p
    → get_elem? xs j ≡ some p
    → i ≡ j
one_position [] i j p once e f = cc
one_position (x ∷ xs) zero zero p once e f = refl
one_position (x ∷ xs) zero (suc j) p once e f = absurd (
    omega (
      arith,
      once,
      there xs j p f,
      ap to_nat (ap (λ q. q == p) (some-injective x p e) ∙ ==-same p),
    ))
one_position (x ∷ xs) (suc i) zero p once e f = absurd (
    omega (
      arith,
      once,
      there xs i p e,
      ap to_nat (ap (λ q. q == p) (some-injective x p f) ∙ ==-same p),
    ))
one_position (x ∷ xs) (suc i) (suc j) p once e f =
    ap suc (one_position xs i j p (omega (arith, once)) e f)
