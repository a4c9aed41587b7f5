-- ===== src/Heap/Up.antt =====
-- `heap_up` of heap.cpp, for when the item at the open place may be too small for it.
use redis_lite.Base.{
  ◌>>=◌, ℕ, zero, suc, ◌<◌, ◌≢◌, refl, ◌∙◌, length, set, get_or-set, length-set, get_elem?-get_or,
  Bool-cases, inl, inr, ltb, count-get_or, arith, Returns,
}
use redis_lite.Heap.{HeapItem, HeapMem, put, heap_parent, heap_up_loop, heap_up}
use redis_lite.Heap.Order.{at, no_item, IsDented, IsBelowKids, IsAboveParent, close-IsHeap}
use redis_lite.Heap.Links.{
  IsLinkedFor, Settled, put-IsLinked, move-IsLinkedFor, move-SameItems, move-frame, is_owner,
}

-- The last write of both loops.
pub put-Settled :
    (m : HeapMem) (pos : ℕ) (t : HeapItem)
    → pos < length m.items
    → IsDented m.items pos
    → IsBelowKids m.items pos t.val
    → IsAboveParent m.items pos t.val
    → IsLinkedFor m pos t.ref
    → Settled (set m.items pos t) m.idx (put m pos t)
put-Settled m pos t h d kids up l = record {
  heap = unfold put in close-IsHeap m.items pos t h d kids up;
  same = unfold put in λ p. refl;
  linked = put-IsLinked m pos t h l;
  frame = λ r e.
      unfold put in
      ground (
        arith,
        get_or-set m.items pos pos t no_item,
        count-get_or (is_owner r) (set m.items pos t) pos no_item
            (omega (arith, length-set m.items pos t)),
      );
}

-- A move changes neither the items that the array stands for nor the memory of others.
pub move-Settled :
    (m : HeapMem) (pos k : ℕ) (t : HeapItem) (r : HeapMem)
    → pos < length m.items
    → k < length m.items
    → k ≢ pos
    → Settled (set (put m pos (at m.items k)).items k t) (put m pos (at m.items k)).idx r
    → Settled (set m.items pos t) m.idx r
move-Settled m pos k t r h hk ne s =
    let keep = move-SameItems m pos k 0 h hk ne t in
    record {
      heap = s.heap;
      same = λ p. s.same p ∙ unfold put in keep p;
      linked = s.linked;
      frame = λ q e.
          s.frame q (unfold put in keep (is_owner q) ∙ e) ∙ move-frame m pos k 0 h hk ne t q e;
    }

module _ (m : HeapMem) (pos : ℕ) (h : pos < length m.items) (up : 0 < pos) where
  abbrev risen : HeapMem
  risen = put m pos (at m.items (heap_parent pos))

  rise-IsDented : IsDented m.items pos → IsDented risen.items (heap_parent pos)
  unfolding put
  rise-IsDented d =
      let a = m.items in
      let p = heap_parent pos in
      let size = length-set a pos (at a p) in
      let read = λ (i : ℕ). get_or-set a pos i (at a p) no_item h in
      record {
        edges =
            λ c x y z w. ground (arith, size, read c, read (heap_parent c), d.edges c, d.bridges c);
        bridges =
            λ c x y z w. ground (arith, size, read c, read (heap_parent p), d.edges c, d.edges p);
      }

  rise-IsBelowKids :
      (v : ℕ)
      → IsDented m.items pos
      → v < (at m.items (heap_parent pos)).val
      → IsBelowKids risen.items (heap_parent pos) v
  unfolding put
  rise-IsBelowKids v d lt c x y z =
      let a = m.items in
      let p = heap_parent pos in
      ground (arith, length-set a pos (at a p), get_or-set a pos c (at a p) no_item, d.edges c)

heap_up_loop-Settled :
    (fuel : ℕ) (t : HeapItem) (m : HeapMem) (pos : ℕ)
    → pos < fuel
    → pos < length m.items
    → IsDented m.items pos
    → IsBelowKids m.items pos t.val
    → IsLinkedFor m pos t.ref
    → Returns (Settled (set m.items pos t) m.idx) (heap_up_loop fuel t m pos)
unfolding heap_up_loop
heap_up_loop-Settled zero t m pos f h d kids l = absurd (omega arith)
heap_up_loop-Settled (suc fuel) t m pos f h d kids l = elim (Bool-cases (ltb 0 pos)) [
  | inr root ↦
      rw (root, heap_up_loop)
        (_, refl, put-Settled m pos t h d kids (λ up. absurd (ground arith)) l)
  | inl inner ↦
      let p = heap_parent pos in
      let x = at m.items p in
      let up : 0 < pos = ground arith in
      rw (inner, heap_up_loop, get_elem?-get_or m.items p no_item (omega arith), ◌>>=◌)
        (elim (Bool-cases (ltb t.val x.val)) [
          | inr stop ↦ rw (stop) (_, refl, put-Settled m pos t h d kids (λ _. ground arith) l)
          | inl more ↦
              let (r, run, s) =
                heap_up_loop-Settled fuel t (put m pos x) p (omega arith)
                  (unfold put in omega (arith, length-set m.items pos x))
                  (rise-IsDented m pos h up d) (rise-IsBelowKids m pos h up t.val d (ground arith))
                  (move-IsLinkedFor m pos p t.ref h (omega arith) (omega arith) l) in
              rw (more, ◌>>=◌, heap_up_loop)
                (r, run, move-Settled m pos p t r h (omega arith) (omega arith) s)
        ])
]

-- `heap_up` does not fault, its loop ends, and the heap is restored.
pub heap_up-Settled :
    (m : HeapMem) (pos : ℕ)
    → pos < length m.items
    → IsDented m.items pos
    → IsBelowKids m.items pos (at m.items pos).val
    → IsLinkedFor m pos (at m.items pos).ref
    → Returns (Settled (set m.items pos (at m.items pos)) m.idx) (heap_up m pos)
unfolding heap_up
heap_up-Settled m pos h d kids l = rw (get_elem?-get_or m.items pos no_item h) (
    unfold heap_up_loop put in
    heap_up_loop-Settled (suc pos) (at m.items pos) m pos (omega arith) h d kids l)
