-- ===== src/DList/Ring.antt =====
-- list.h: rings of nodes, and what an operation that redirects one link does to them.
use redis_lite.Base.{
  ℕ, ◌+◌, ◌≤◌, ◌<◌, ◌≡◌, ◌≢◌, ◌∙◌, sym, ap, List, [], ◌∷◌, ◌++◌, ◌==◌, arith, count, to_nat,
}
use redis_lite.Base.Memory.{==-same}
use redis_lite.DList.{DList}

-- How often a node stands in a list of them.
abbrev pub times : ℕ → List ℕ → ℕ
times y xs = count (λ z. z == y) xs

-- From `a` the next pointers lead through `xs` to `b`, and the previous pointers back.
abbrev pub IsPath : DList → ℕ → List ℕ → ℕ → Type 0
IsPath m a [] b = (m.next a ≡ b) × (m.prev b ≡ a)
IsPath m a (x ∷ xs) b = (m.next a ≡ x) × (m.prev x ≡ a) × IsPath m x xs b

-- The list with the dummy `head` holds the nodes `xs` from front to back, which are distinct.
pub record IsRing (m : DList) (head : ℕ) (xs : List ℕ) : Type 0 where
  pub path : IsPath m head xs head
  pub once : (y : ℕ) → times y (head ∷ xs) ≤ 1

pub IsPath-split :
    (m : DList) (a : ℕ) (ys : List ℕ) (x : ℕ) (zs : List ℕ) (b : ℕ)
    → IsPath m a (ys ++ (x ∷ zs)) b
    → IsPath m a ys x × IsPath m x zs b
IsPath-split m a [] x zs b (n, p, w) = ((n, p), w)
IsPath-split m a (y ∷ ys) x zs b (n, p, w) =
    let (u, v) = IsPath-split m y ys x zs b w in ((n, p, u), v)

pub IsPath-join :
    (m : DList) (a : ℕ) (ys : List ℕ) (x : ℕ) (zs : List ℕ) (b : ℕ)
    → IsPath m a ys x
    → IsPath m x zs b
    → IsPath m a (ys ++ (x ∷ zs)) b
IsPath-join m a [] x zs b (n, p) w = (n, p, w)
IsPath-join m a (y ∷ ys) x zs b (n, p, u) w = (n, p, IsPath-join m y ys x zs b u w)

pub times_self : (y : ℕ) (xs : List ℕ) → 0 < times y (y ∷ xs)
times_self y xs = omega (arith, ap to_nat (==-same y))

pub times-tail : (y x : ℕ) (xs : List ℕ) → times y xs ≤ times y (x ∷ xs)
times-tail y x xs = omega arith

-- The previous node of a path's end is on the path.
pub last_on :
    (m : DList) (a : ℕ) (xs : List ℕ) (b : ℕ) → IsPath m a xs b → 0 < times (m.prev b) (a ∷ xs)
last_on m a [] b (n, p) = omega (arith, ap (λ y. times y (a ∷ [])) p, times_self a [])
last_on m a (x ∷ xs) b (n, p, w) = omega (arith, last_on m x xs b w)

-- A node off a list is none of those on it.
pub off_list : (y x : ℕ) (xs : List ℕ) → 0 < times y xs → times x xs ≡ 0 → x ≢ y
off_list y x xs here away same = omega (arith, here, away, ap (λ z. times z xs) same)

-- The next node of a path's start is on the path.
pub first_on :
    (m : DList) (a : ℕ) (xs : List ℕ) (b : ℕ)
    → IsPath m a xs b
    → 0 < times (m.next a) xs + times (m.next a) (b ∷ [])
first_on m a [] b (n, p) = omega (arith, ap (λ y. times y (b ∷ [])) n, times_self b [])
first_on m a (x ∷ xs) b (n, p, w) = omega (arith, ap (λ y. times y (x ∷ xs)) n, times_self x xs)

-- A path is kept where the pointers on it are.
pub IsPath-frame :
    (m m' : DList) (a : ℕ) (xs : List ℕ) (b : ℕ)
    → IsPath m a xs b
    → ((y : ℕ) → 0 < times y (a ∷ xs) → m'.next y ≡ m.next y)
    → ((y : ℕ) → 0 < times y xs → m'.prev y ≡ m.prev y)
    → m'.prev b ≡ m.prev b
    → IsPath m' a xs b
IsPath-frame m m' a [] b (n, p) fn fp last = (fn a (times_self a []) ∙ n, last ∙ p)
IsPath-frame m m' a (x ∷ xs) b (n, p, w) fn fp last = (
  fn a (times_self a (x ∷ xs)) ∙ n,
  fp x (times_self x xs) ∙ p,
  IsPath-frame m m' x xs b w (λ y h. fn y (omega (arith, h))) (λ y h. fp y (omega (arith, h))) last,
)

-- A path to `b` leads to `b'` when the last link does.
pub IsPath-relink :
    (m m' : DList) (a : ℕ) (xs : List ℕ) (b b' : ℕ)
    → IsPath m a xs b
    → ((y : ℕ) → times y (a ∷ xs) ≤ 1)
    → m'.next (m.prev b) ≡ b'
    → m'.prev b' ≡ m.prev b
    → ((y : ℕ) → 0 < times y (a ∷ xs) → y ≢ m.prev b → m'.next y ≡ m.next y)
    → ((y : ℕ) → 0 < times y xs → m'.prev y ≡ m.prev y)
    → IsPath m' a xs b'
IsPath-relink m m' a [] b b' (n, p) once to from fn fp = (sym (ap m'.next p) ∙ to, from ∙ p)
IsPath-relink m m' a (x ∷ xs) b b' (n, p, w) once to from fn fp =
    let off : a ≢ m.prev b =
      off_list (m.prev b) a (x ∷ xs) (last_on m x xs b w)
        (omega (arith, once a, ap to_nat (==-same a))) in
    (
      fn a (times_self a (x ∷ xs)) off ∙ n,
      fp x (times_self x xs) ∙ p,
      IsPath-relink m m' x xs b b' w (λ y. omega (arith, once y)) to from
          (λ y h. fn y (omega (arith, h))) (λ y h. fp y (omega (arith, h))),
    )
