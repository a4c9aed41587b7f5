-- ===== src/Base/Memory.antt =====
-- Memory as a function from addresses, as the models of pointers use it.
use redis_lite.Base.{
  ℕ, ◌≡◌, ◌≢◌, ◌⊎◌, inl, inr, ◌∙◌, sym, ap, true, false, ◌==◌, if◌then◌else◌, arith,
}
use mathlib.Core.Path.{fun_ext}

pub ==-true : (a b : ℕ) → (a == b) ≡ true → a ≡ b
==-true a b e = ground arith

pub ==-false : (a b : ℕ) → a ≢ b → (a == b) ≡ false
==-false a b e = ground arith

pub ==-same : (a : ℕ) → (a == a) ≡ true
==-same a = ground arith

pub eq-cases : (a b : ℕ) → (a ≡ b) ⊎ (a ≢ b)
eq-cases a b = ground arith

-- `*p = v`
abbrev pub store {ℓ} : {A : Type ℓ} → (ℕ → A) → ℕ → A → ℕ → A
store memory p v q = if q == p then v else memory q

module _ {ℓ} {A : Type ℓ} where
  pub store-same : (E : ℕ → A) (p : ℕ) (v : A) → store E p v p ≡ v
  store-same E p v = ap (λ b. if b then v else E p) (==-same p)

  pub store-other : (E : ℕ → A) (p q : ℕ) (v : A) → q ≢ p → store E p v q ≡ E q
  store-other E p q v ne = ap (λ b. if b then v else E q) (==-false q p ne)

  -- A second write at an address hides the first.
  pub store-again : (E : ℕ → A) (p : ℕ) (v w : A) → store (store E p v) p w ≡ store E p w
  store-again E p v w = fun_ext (λ q. elim (eq-cases q p) [
    | inl at ↦
        ap (store (store E p v) p w) at
        ∙ store-same (store E p v) p w
        ∙ sym (ap (store E p w) at ∙ store-same E p w)
    | inr off ↦
        store-other (store E p v) p q w off
        ∙ store-other E p q v off
        ∙ sym (store-other E p q w off)
  ])

  -- What is read after a write is what was written, or what was there.
  pub store-cases :
      (E : ℕ → A) (p q : ℕ) (v w : A)
      → store E p v q ≡ w
      → ((q ≡ p) × (v ≡ w)) ⊎ ((q ≢ p) × (E q ≡ w))
  store-cases E p q v w e = elim (eq-cases q p) [
    | inl at ↦ inl (at, sym (store-same E p v) ∙ sym (ap (store E p v) at) ∙ e)
    | inr off ↦ inr (off, sym (store-other E p q v off) ∙ e)
  ]
