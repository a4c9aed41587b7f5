-- ===== src/ZSet/Order.antt =====
-- zset.cpp: `zless` is the order of the scores, and for equal scores that of the names.
use redis_lite.Base.{
  ℕ, suc, ◌≡◌, ◌⊎◌, inl, inr, refl, ◌∙◌, ap, Bool, true, false, [], ◌∷◌, ◌==◌, ◌&&◌, ◌||◌, ltb,
  arith, length, Bool-cases, if◌then◌else◌,
}
use Prim.Native.Nat.{Ordering}
use mathlib.Core.Path.{ap₂}
use redis_lite.Bytes.{Str}
use redis_lite.ZSet.{ZNode, dbl_rank, smaller, memcmp, name_less, tuple_less, is_eq}
use redis_lite.Db.{same_str}

-- The order of a dictionary on strings.
abbrev pub str_less : Str → Str → Bool
str_less [] [] = false
str_less [] (b ∷ t) = true
str_less (a ∷ s) [] = false
str_less (a ∷ s) (b ∷ t) = ltb a b || ((a == b) && str_less s t)

name_less-cons :
    (a b : ℕ) (s t : Str) (o : Ordering) → name_less (a ∷ s) (b ∷ t) o ≡ name_less s t o
name_less-cons a b s t Ordering.lt = refl
name_less-cons a b s t Ordering.gt = refl
name_less-cons a b s t Ordering.eq = ground arith

smaller-suc : (m n : ℕ) → smaller (suc m) (suc n) ≡ suc (smaller m n)
smaller-suc m n = ground arith

-- One byte of `memcmp`.
memcmp-cons :
    (n a b : ℕ) (s t : Str)
    → memcmp (suc n) (a ∷ s) (b ∷ t)
      ≡ (if ltb a b then Ordering.lt else if a == b then memcmp n s t else Ordering.gt)
memcmp-cons n a b s t = ground arith

pub names_lem :
    (s t : Str) → name_less s t (memcmp (smaller (length s) (length t)) s t) ≡ str_less s t
names_lem [] [] = refl
names_lem [] (b ∷ t) = ground arith
names_lem (a ∷ s) [] = ground arith
names_lem (a ∷ s) (b ∷ t) =
    let n = smaller (length s) (length t) in
    let ih = names_lem s t in
    ap (λ k. name_less (a ∷ s) (b ∷ t) (memcmp k (a ∷ s) (b ∷ t)))
      (smaller-suc (length s) (length t))
    ∙ name_less-cons a b s t (memcmp (suc n) (a ∷ s) (b ∷ t))
    ∙ ap (name_less s t) (memcmp-cons n a b s t)
    ∙ elim (Bool-cases (ltb a b)) [
      | inl less ↦ rw less refl
      | inr more ↦ elim (Bool-cases (a == b)) [
        | inl same ↦ rw (more, same) ih
        | inr other ↦ rw (more, other) refl
      ]
    ]

pub str_less_irrefl : (s : Str) → str_less s s ≡ false
str_less_irrefl [] = refl
str_less_irrefl (a ∷ s) = ground (arith, str_less_irrefl s)

pub str_less_trans : (s t u : Str) → str_less s t ≡ true → str_less t u ≡ true → str_less s u ≡ true
str_less_trans [] [] u p q = cc
str_less_trans [] (b ∷ t) [] p q = cc
str_less_trans [] (b ∷ t) (c ∷ u) p q = refl
str_less_trans (a ∷ s) [] u p q = cc
str_less_trans (a ∷ s) (b ∷ t) [] p q = cc
str_less_trans (a ∷ s) (b ∷ t) (c ∷ u) p q = ground (arith, p, q, str_less_trans s t u)

-- Of two strings one is less, or they are the same.
pub str_less_total : (s t : Str) → (str_less s t ≡ true) ⊎ ((s ≡ t) ⊎ (str_less t s ≡ true))
str_less_total [] [] = inr (inl refl)
str_less_total [] (b ∷ t) = inl refl
str_less_total (a ∷ s) [] = inr (inr refl)
str_less_total (a ∷ s) (b ∷ t) = elim (Bool-cases (ltb a b)) [
  | inl e ↦ inl (ground (arith, e))
  | inr e ↦ elim (Bool-cases (ltb b a)) [
    | inl f ↦ inr (inr (ground (arith, f)))
    | inr f ↦
        let same : a ≡ b = ground (arith, e, f) in
        elim (str_less_total s t) [
          | inl g ↦ inl (ground (arith, e, same, g))
          | inr (inl g) ↦ inr (inl (ap₂ (λ x xs. x ∷ xs) same g))
          | inr (inr g) ↦ inr (inr (ground (arith, e, same, g)))
        ]
  ]
]

-- The order of (score, name) tuples, with the score by its rank.
abbrev pub key_less : ℕ → Str → ℕ → Str → Bool
key_less r s r' t = ltb r r' || ((r == r') && str_less s t)

pub tuple_less-key_less :
    (z : ZNode) (score : ℕ) (name : Str)
    → tuple_less z score name ≡ key_less (dbl_rank z.score) z.name (dbl_rank score) name
unfolding tuple_less
tuple_less-key_less z score name = elim (Bool-cases (dbl_rank z.score == dbl_rank score)) [
  | inl e ↦ rw (e, names_lem z.name name) (ground (arith, e))
  | inr e ↦ rw e (ground (arith, e))
]

pub key_less_irrefl : (r : ℕ) (s : Str) → key_less r s r s ≡ false
key_less_irrefl r s = ground (arith, str_less_irrefl s)

pub key_less_trans :
    (r r' r'' : ℕ) (s t u : Str)
    → key_less r s r' t ≡ true
    → key_less r' t r'' u ≡ true
    → key_less r s r'' u ≡ true
key_less_trans r r' r'' s t u p q = ground (arith, p, q, str_less_trans s t u)

pub key_less_total :
    (r r' : ℕ) (s t : Str)
    → (key_less r s r' t ≡ true) ⊎ (((r ≡ r') × (s ≡ t)) ⊎ (key_less r' t r s ≡ true))
key_less_total r r' s t = elim (Bool-cases (ltb r r')) [
  | inl e ↦ inl (ground (arith, e))
  | inr e ↦ elim (Bool-cases (ltb r' r)) [
    | inl f ↦ inr (inr (ground (arith, f)))
    | inr f ↦
        let same : r ≡ r' = ground (arith, e, f) in
        elim (str_less_total s t) [
          | inl g ↦ inl (ground (arith, e, same, g))
          | inr (inl g) ↦ inr (inl (same, g))
          | inr (inr g) ↦ inr (inr (ground (arith, e, same, g)))
        ]
  ]
]

one_longer : (m n : ℕ) (o : Ordering) → ((suc m == suc n) && is_eq o) ≡ ((m == n) && is_eq o)
one_longer m n o = ground arith

-- Names of the same length are compared byte by byte.
pub memcmp-same_str :
    (s t : Str) → ((length s == length t) && is_eq (memcmp (length s) s t)) ≡ same_str s t
memcmp-same_str [] [] = refl
memcmp-same_str [] (b ∷ t) = ground arith
memcmp-same_str (a ∷ s) [] = ground arith
memcmp-same_str (a ∷ s) (b ∷ t) =
    let ih = memcmp-same_str s t in
    rw (memcmp-cons (length s) a b s t) (elim (Bool-cases (ltb a b)) [
      | inl less ↦ rw less (ground (arith, less))
      | inr more ↦ elim (Bool-cases (a == b)) [
        | inl same ↦ rw (more, same) (one_longer (length s) (length t) (memcmp (length s) s t) ∙ ih)
        | inr other ↦ rw (more, other) (ground arith)
      ]
    ])
