-- ===== src/Heap/Update.antt =====
-- `heap_update` of heap.cpp: one place may be out of order, in either direction.
use redis_lite.Base.{
  ℕ, zero, suc, ◌<◌, ◌≡◌, refl, true, false, List, [], ◌∷◌, length, set, get_elem?-get_or,
  Bool-cases, inl, inr, ltb, ◌>>=◌, arith, Returns, ap,
}
use redis_lite.Heap.{HeapItem, HeapMem, heap_parent, heap_update, above_is_larger}
use redis_lite.Heap.Order.{at, no_item, IsDented, IsAboveParent}
use redis_lite.Heap.Links.{IsLinkedFor, Settled}
use redis_lite.Heap.Up.{heap_up-Settled}
use redis_lite.Heap.Down.{heap_down-Settled}

set_self : (a : List HeapItem) (i : ℕ) → set a i (at a i) ≡ a
set_self [] i = refl
set_self (x ∷ a) zero = refl
set_self (x ∷ a) (suc i) = ap (◌∷◌ x) (set_self a i)

-- What the test of `heap_update` says.
above_is_larger_lem :
    (m : HeapMem) (pos : ℕ)
    → pos < length m.items
    → Returns
        (λ b.
          (b ≡ true → (0 < pos) × ((at m.items pos).val < (at m.items (heap_parent pos)).val))
          × (b ≡ false → IsAboveParent m.items pos (at m.items pos).val))
        (above_is_larger m pos)
unfolding above_is_larger
above_is_larger_lem m pos h = elim (Bool-cases (ltb 0 pos)) [
  | inr root ↦ rw root (_, refl, ((λ e. cc), λ e up. absurd (ground arith)))
  | inl inner ↦
      rw
        (
          inner,
          get_elem?-get_or m.items (heap_parent pos) no_item (omega arith),
          get_elem?-get_or m.items pos no_item h,
        )
        (_, refl, ((λ e. ground arith), λ e up. ground arith))
]

-- In an array that is in heap order save at `pos`, whose items but the one at `pos` have right
-- back pointers, none of them shared with the item at `pos`, `heap_update` reads and writes inside the array, ends, and leaves the same items
-- in heap order, with every back pointer right and no other memory changed.
pub heap_update-Settled :
    (m : HeapMem) (pos : ℕ)
    → pos < length m.items
    → IsDented m.items pos
    → IsLinkedFor m pos (at m.items pos).ref
    → Returns (Settled m.items m.idx) (heap_update m pos (length m.items))
unfolding heap_update
heap_update-Settled m pos h d l =
    let (b, test, s) = above_is_larger_lem m pos h in
    elim (Bool-cases b) [
      | inl up ↦
          let (below, less) = s.0 up in
          rw (test, up, ◌>>=◌)
            (rw (set_self m.items pos) at
              (heap_up-Settled m pos h d (λ c p q e. ground (arith, d.bridges c)) l))
      | inr down ↦
          rw (test, down, ◌>>=◌)
            (rw (set_self m.items pos) at (heap_down-Settled m pos h d (s.1 down) l))
    ]
