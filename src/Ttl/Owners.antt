-- ===== src/Ttl/Owners.antt =====
-- heap.h: the timers of one owner.
use redis_lite.Base.{
  ℕ, zero, suc, ◌+◌, ◌≤◌, ◌<◌, ◌≡◌, inl, inr, refl, ◌∙◌, sym, ap, Bool, true, List, [], ◌∷◌, ◌==◌,
  arith, count, to_nat, length, Bool-cases,
}
use redis_lite.Heap.{HeapItem, HeapMem}
use redis_lite.Heap.Order.{at}
use redis_lite.Heap.Links.{IsLinked, is_owner}

same-ref : (x : HeapItem) (r : ℕ) → (x.ref == r) ≡ true → x.ref ≡ r
same-ref x r e = ground arith

none_owned :
    (idx : ℕ → ℕ) (r j k : ℕ) (a : List HeapItem)
    → idx r ≡ j
    → j < k
    → ((i : ℕ) → i < length a → idx (at a i).ref ≡ k + i)
    → count (is_owner r) a ≡ 0
none_owned idx r j k [] e p h = refl
none_owned idx r j k (x ∷ a) e p h =
    let rest =
      none_owned idx r j (suc k) a e (omega arith)
        (λ i q. h (suc i) (omega (arith, q)) ∙ omega arith) in
    elim (Bool-cases (x.ref == r)) [
      | inl own ↦ absurd (omega (arith, h zero (omega arith), ap idx (same-ref x r own), e))
      | inr other ↦ rw other (omega (arith, rest))
    ]

once_owned :
    (idx : ℕ → ℕ) (r k : ℕ) (a : List HeapItem)
    → ((i : ℕ) → i < length a → idx (at a i).ref ≡ k + i)
    → count (is_owner r) a ≤ 1
once_owned idx r k [] h = omega arith
once_owned idx r k (x ∷ a) h = elim (Bool-cases (x.ref == r)) [
  | inl own ↦
      let here : idx r ≡ k = sym (ap idx (same-ref x r own)) ∙ h zero (omega arith) ∙ omega arith in
      let rest =
        none_owned idx r k (suc k) a here (omega arith)
          (λ i q. h (suc i) (omega (arith, q)) ∙ omega arith) in
      rw own (omega (arith, rest))
  | inr other ↦
      let rest = once_owned idx r (suc k) a (λ i q. h (suc i) (omega (arith, q)) ∙ omega arith) in
      rw other (omega (arith, rest))
]

-- An owner has one timer at most.
pub linked_once : (m : HeapMem) (r : ℕ) → IsLinked m → count (is_owner r) m.items ≤ 1
linked_once m r l = once_owned m.idx r 0 m.items (λ i p. l i p ∙ omega arith)

pub index_of :
    (f : HeapItem → Bool) (a : List HeapItem)
    → 0 < count f a
    → (i : ℕ) × (i < length a) × (f (at a i) ≡ true)
index_of f [] p = absurd (omega arith)
index_of f (x ∷ a) p = elim (Bool-cases (f x)) [
  | inl e ↦ (0, omega arith, e)
  | inr e ↦ let (i, q, g) = index_of f a (omega (arith, p, ap to_nat e)) in (suc i, omega arith, g)
]

pub length-count : (a : List HeapItem) → length a ≡ count (λ t. true) a
length-count [] = refl
length-count (x ∷ a) = omega (arith, length-count a)
