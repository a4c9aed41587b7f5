-- ===== src/DList/Refined.antt =====
-- list.h: its operations on a ring are those on the sequence of its nodes.
use redis_lite.Base.{
  ℕ, ◌+◌, ◌≤◌, ◌<◌, ◌≡◌, ◌≢◌, inl, inr, ◌∙◌, sym, ap, Bool, true, false, List, [], ◌∷◌, ◌++◌, ◌==◌,
  arith, count-append, to_nat,
}
use redis_lite.Base.Memory.{store, store-same, store-other, ==-same, ==-false, eq-cases}
use redis_lite.DList.{DList, dlist_init, dlist_empty, dlist_detach, dlist_insert_before}
use redis_lite.DList.Ring.{
  times, IsPath, IsRing, IsPath-split, IsPath-join, IsPath-frame, IsPath-relink, last_on,
  times_self, first_on, off_list,
}
use mathlib.Core.Path.{subst}

to_nat-le : (b : Bool) → to_nat b ≤ 1
to_nat-le true = omega arith
to_nat-le false = omega arith

pub dlist_init-IsRing : (m : DList) (head : ℕ) → IsRing (dlist_init m head) head []
unfolding dlist_init
dlist_init-IsRing m head = record {
  path = (store-same m.next head head, store-same m.prev head head);
  once = λ y. omega (arith, to_nat-le (head == y));
}

abbrev pub is_nil : List ℕ → Bool
is_nil [] = true
is_nil (x ∷ xs) = false

pub dlist_empty-is_nil :
    (m : DList) (head : ℕ) (xs : List ℕ) → IsRing m head xs → dlist_empty m head ≡ is_nil xs
unfolding dlist_empty
dlist_empty-is_nil m head [] r = ap (λ n. n == head) r.path.0 ∙ ==-same head
dlist_empty-is_nil m head (x ∷ xs) r =
    ap (λ n. n == head) r.path.0
    ∙ ==-false x head (λ same. omega (
      arith,
      r.once x,
      times_self x xs,
      ap (λ h. to_nat (h == x)) (sym same),
      ap to_nat (==-same x),
    ))

module _ (m : DList) (head : ℕ) (ys : List ℕ) (x : ℕ) (zs : List ℕ)
    (r : IsRing m head (ys ++ (x ∷ zs))) where
  halves : IsPath m head ys x × IsPath m x zs head
  halves = IsPath-split m head ys x zs head r.path

  once_each : (y : ℕ) → times y (head ∷ ys) + times y (x ∷ zs) ≤ 1
  once_each y = omega (arith, r.once y, count-append (λ z. z == y) ys (x ∷ zs))

  apart : (y z : ℕ) → 0 < times y (head ∷ ys) → 0 < times z (x ∷ zs) → y ≢ z
  apart y z h k = off_list z y (x ∷ zs) k (omega (arith, h, once_each y))

  last_here : 0 < times (m.prev x) (head ∷ ys)
  last_here = last_on m head ys x halves.0

  -- The node behind `x` is not in front of it.
  next_apart : (y : ℕ) → 0 < times y ys → y ≢ m.next x
  next_apart y h same =
      omega
        (arith, first_on m x zs head halves.1, once_each (m.next x), h, ap (λ z. times z ys) same)

  detached : IsPath (dlist_detach m x) head ys (m.next x)
  unfolding dlist_detach
  detached =
      IsPath-relink m (dlist_detach m x) head ys x (m.next x) halves.0
        (λ y. omega (arith, once_each y)) (store-same m.next (m.prev x) (m.next x))
        (store-same m.prev (m.next x) (m.prev x))
        (λ y h off. store-other m.next (m.prev x) y (m.next x) off)
        (λ y h. store-other m.prev (m.next x) y (m.prev x) (next_apart y h))

IsPath-nil :
    (m : DList) (a : ℕ) (ys : List ℕ) (b c : ℕ) → b ≡ c → IsPath m a ys b → IsPath m a (ys ++ []) c
IsPath-nil m a [] b c e (n, p) = (n ∙ e, ap m.prev (sym e) ∙ p)
IsPath-nil m a (y ∷ ys) b c e (n, p, w) = (n, p, IsPath-nil m y ys b c e w)

detached-IsPath :
    (m : DList) (head : ℕ) (ys : List ℕ) (x : ℕ) (zs : List ℕ)
    → IsRing m head (ys ++ (x ∷ zs))
    → IsPath (dlist_detach m x) head (ys ++ zs) head
unfolding dlist_detach
detached-IsPath m head ys x [] r =
    IsPath-nil (dlist_detach m x) head ys (m.next x) head (halves m head ys x [] r).1.0
      (detached m head ys x [] r)
detached-IsPath m head ys x (z ∷ zs) r =
    let (n, p, w) = (halves m head ys x (z ∷ zs) r).1 in
    IsPath-join (dlist_detach m x) head ys z zs head
      (subst (λ b. IsPath (dlist_detach m x) head ys b) n (detached m head ys x (z ∷ zs) r))
      (IsPath-frame m (dlist_detach m x) z zs head w
        (λ y h. store-other m.next (m.prev x) y (m.next x) (λ same.
          apart m head ys x (z ∷ zs) r (m.prev x) y (last_here m head ys x (z ∷ zs) r)
            (omega (arith, h)) (sym same)))
        (λ y h. store-other m.prev (m.next x) y (m.prev x) (λ same. omega (
          arith,
          h,
          once_each m head ys x (z ∷ zs) r y,
          ap to_nat (ap (λ q. q == y) (sym n ∙ sym same) ∙ ==-same y),
        )))
        (store-other m.prev (m.next x) head (m.prev x) (λ same.
          apart m head ys x (z ∷ zs) r head z (times_self head ys) (omega (arith, times_self z zs))
            (same ∙ n))))

-- Detaching a node of a ring takes it out of the sequence, and keeps the order of the others.
pub dlist_detach-IsRing :
    (m : DList) (head : ℕ) (ys : List ℕ) (x : ℕ) (zs : List ℕ)
    → IsRing m head (ys ++ (x ∷ zs))
    → IsRing (dlist_detach m x) head (ys ++ zs)
dlist_detach-IsRing m head ys x zs r = record {
  path = detached-IsPath m head ys x zs r;
  once = λ y. omega (arith, once_each m head ys x zs r y, count-append (λ z. z == y) ys zs);
}

module _ (m : DList) (head : ℕ) (xs : List ℕ) (x : ℕ) (r : IsRing m head xs)
    (new : times x (head ∷ xs) ≡ 0) where
  new_off : (y : ℕ) → 0 < times y (head ∷ xs) → y ≢ x
  new_off y h same = off_list y x (head ∷ xs) h new (sym same)

  new_count : (y : ℕ) → y ≡ x → times y (head ∷ xs) ≡ 0
  new_count y same = ap (λ z. times z (head ∷ xs)) same ∙ new

  inserted : IsPath (dlist_insert_before m head x) head xs x
  unfolding dlist_insert_before
  inserted =
      IsPath-relink m (dlist_insert_before m head x) head xs head x r.path r.once
        (store-other (store m.next (m.prev head) x) x (m.prev head) head
            (new_off (m.prev head) (last_on m head xs head r.path))
          ∙ store-same m.next (m.prev head) x)
        (store-other (store m.prev x (m.prev head)) head x x
            (λ same. new_off head (times_self head xs) (sym same))
          ∙ store-same m.prev x (m.prev head))
        (λ y h off.
          store-other (store m.next (m.prev head) x) x y head (new_off y h)
          ∙ store-other m.next (m.prev head) y x off)
        (λ y h.
          store-other (store m.prev x (m.prev head)) head y x (λ same.
            omega (arith, h, r.once y, ap (λ q. to_nat (q == y)) (sym same), ap to_nat (==-same y)))
          ∙ store-other m.prev x y (m.prev head) (new_off y (omega (arith, h))))

  closed : IsPath (dlist_insert_before m head x) x [] head
  unfolding dlist_insert_before
  closed = (
    store-same (store m.next (m.prev head) x) x head,
    store-same (store m.prev x (m.prev head)) head x,
  )

  -- Inserting a new node before the head appends it to the sequence.
  pub dlist_insert_before-IsRing : IsRing (dlist_insert_before m head x) head (xs ++ (x ∷ []))
  dlist_insert_before-IsRing = record {
    path = IsPath-join (dlist_insert_before m head x) head xs x [] head inserted closed;
    once = λ y. elim (eq-cases y x) [
      | inl same ↦ omega (
        arith,
        new_count y same,
        r.once y,
        count-append (λ z. z == y) xs (x ∷ []),
        to_nat-le (x == y),
      )
      | inr off ↦ omega (
        arith,
        r.once y,
        count-append (λ z. z == y) xs (x ∷ []),
        ap to_nat (==-false x y (λ same. off (sym same))),
      )
    ];
  }
