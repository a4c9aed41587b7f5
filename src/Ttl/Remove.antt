-- ===== src/Ttl/Remove.antt =====
-- `heap_delete` of server.cpp.
use redis_lite.Base.{
  ℕ, suc, ◌+◌, ◌-◌, ◌<◌, ◌≡◌, refl, Bool, List, length, set, take, get_or-set, get_or-take,
  length-set, length-take, get_elem?-get_or, Bool-cases, lt→ltb, inl, inr, ltb, ◌>>=◌, count,
  count-set, count-take, to_nat, arith, Returns,
}
use redis_lite.Heap.{HeapItem, HeapMem, heap_parent}
use redis_lite.Heap.Order.{at, no_item, IsHeap, IsDented}
use redis_lite.Heap.Links.{IsLinked, IsLinkedFor, Settled, is_owner}
use redis_lite.Heap.Update.{heap_update-Settled}
use redis_lite.Ttl.{heap_delete}

-- The timers are in heap order and every owner knows where its timer is.
pub record IsValid (m : HeapMem) : Type 0 where
  pub heap : IsHeap m.items
  pub linked : IsLinked m

-- One timer, `x`, is gone; the others are kept, and no other memory has changed.
pub record Removed (m : HeapMem) (x : HeapItem) (r : HeapMem) : Type 0 where
  pub valid : IsValid r
  pub rest : (p : HeapItem → Bool) → count p r.items + to_nat (p x) ≡ count p m.items
  pub frame : (q : ℕ) → count (is_owner q) m.items ≡ 0 → r.idx q ≡ m.idx q

module _ (m : HeapMem) (v : IsValid m) (pos n : ℕ) (h : pos < length m.items)
    (size : length m.items ≡ suc n) where
  abbrev last : HeapItem
  last = at m.items n

  -- The vector after `a[pos] = a.back(); a.pop_back();`
  abbrev cut : List HeapItem
  cut = take n (set m.items pos last)

  length-cut : length cut ≡ n
  length-cut = omega (arith, length-take n (set m.items pos last), length-set m.items pos last)

  at-cut : (i : ℕ) → i < n → at cut i ≡ (at (set m.items pos last) i)
  at-cut i p = get_or-take n (set m.items pos last) i no_item p

  cut_rest : (p : HeapItem → Bool) → count p cut + to_nat (p (at m.items pos)) ≡ count p m.items
  cut_rest p =
      let a = set m.items pos last in
      let kept : at a n ≡ last = ground (arith, get_or-set m.items pos n last no_item) in
      omega (
        arith,
        count-set p m.items pos last no_item h,
        rw kept at (count-take p n a no_item (omega (arith, length-set m.items pos last))),
      )

  cut-IsDented : pos < n → IsDented cut pos
  cut-IsDented q =
      let read = λ (i : ℕ). get_or-set m.items pos i last no_item h in
      record {
        edges = λ c x y z w. ground (
          arith,
          length-cut,
          at-cut c,
          at-cut (heap_parent c),
          read c,
          read (heap_parent c),
          v.heap c,
        );
        bridges = λ c x y z w. ground (
          arith,
          length-cut,
          at-cut c,
          at-cut (heap_parent pos),
          read c,
          read (heap_parent pos),
          v.heap c,
          v.heap pos,
        );
      }

  cut-IsLinkedFor : pos < n → IsLinkedFor (record m { items = cut }) pos (at cut pos).ref
  cut-IsLinkedFor q =
      let read = λ (i : ℕ). get_or-set m.items pos i last no_item h in
      record {
        others = λ i x y. ground (arith, length-cut, at-cut i, read i, v.linked i);
        fresh = λ i x y.
            ground
              (arith, length-cut, at-cut i, at-cut pos, read i, read pos, v.linked i, v.linked n);
      }

  -- When the last timer is the one to go, nothing moves.
  cut-Removed : pos ≡ n → Removed m (at m.items pos) (record m { items = cut })
  cut-Removed e =
      let read = λ (i : ℕ). get_or-set m.items pos i last no_item h in
      record {
        valid = record {
          heap = λ c x y. ground (
            arith,
            length-cut,
            at-cut c,
            at-cut (heap_parent c),
            read c,
            read (heap_parent c),
            v.heap c,
          );
          linked = λ i x. ground (arith, length-cut, at-cut i, read i, v.linked i);
        };
        rest = cut_rest;
        frame = λ q z. refl;
      }

  -- Otherwise the last timer has taken the place, and `heap_update` finds it another.
  settle-Removed : (r : HeapMem) → Settled cut m.idx r → Removed m (at m.items pos) r
  settle-Removed r s = record {
    valid = record { heap = s.heap; linked = s.linked };
    rest = λ p. omega (arith, s.same p, cut_rest p);
    frame = λ q z. s.frame q (omega (arith, cut_rest (is_owner q)));
  }

-- Deleting the timer at `pos` does not fault: that one timer is gone, all others are kept, in
-- heap order with right back pointers, and the memory of entries without a timer is untouched.
pub heap_delete-Removed :
    (m : HeapMem) (pos : ℕ)
    → IsValid m
    → pos < length m.items
    → Returns (Removed m (at m.items pos)) (heap_delete m pos)
unfolding heap_delete
heap_delete-Removed m pos v h =
    let n = length m.items - 1 in
    let size : length m.items ≡ suc n = omega arith in
    let b = cut m v pos n h size in
    let same : length (set m.items pos (at m.items n)) - 1 ≡ n =
      omega (arith, length-set m.items pos (at m.items n)) in
    rw
      (
        get_elem?-get_or m.items n no_item (omega arith),
        ◌>>=◌,
        lt→ltb pos (length m.items) h,
        ◌>>=◌,
        same,
      )
      (elim (Bool-cases (ltb pos (length b))) [
        | inr end ↦
            rw end
              (_, refl, cut-Removed m v pos n h size (ground (arith, length-cut m v pos n h size)))
        | inl inner ↦
            let q : pos < n = ground (arith, length-cut m v pos n h size) in
            let (r, run, s) =
              heap_update-Settled (record m { items = b }) pos
                (omega (arith, length-cut m v pos n h size)) (cut-IsDented m v pos n h size q)
                (cut-IsLinkedFor m v pos n h size q) in
            rw (inner, run) (r, refl, settle-Removed m v pos n h size r s)
      ])
