-- ===== src/Ttl/Upsert.antt =====
-- `heap_upsert` of server.cpp.
use redis_lite.Base.{
  ℕ, ◌≤◌, ◌<◌, ◌≡◌, List, [], ◌∷◌, ◌++◌, length, set, get_or-set, get_or-append, get_or-append_end,
  length-append, length-set, lt→ltb, le→ltb, ◌>>=◌, count, count-get_or, arith, Returns, SameItems,
}
use redis_lite.Heap.{HeapItem, HeapMem, heap_parent}
use redis_lite.Heap.Order.{at, no_item, open-IsDented, set-IsDented}
use redis_lite.Heap.Links.{Settled, is_owner}
use redis_lite.Heap.Update.{heap_update-Settled}
use redis_lite.Ttl.{heap_upsert}
use redis_lite.Ttl.Remove.{IsValid}

-- The timers are now those of `c`, and no memory but that of their owners has changed.
pub record Updated (m : HeapMem) (c : List HeapItem) (r : HeapMem) : Type 0 where
  pub valid : IsValid r
  pub same : SameItems r.items c
  pub frame : (q : ℕ) → count (is_owner q) c ≡ 0 → r.idx q ≡ m.idx q

Settled-Updated :
    (m : HeapMem) (c : List HeapItem) (r : HeapMem) → Settled c m.idx r → Updated m c r
Settled-Updated m c r s = record {
  valid = record { heap = s.heap; linked = s.linked };
  same = s.same;
  frame = s.frame;
}

-- An owner that has a timer (its index says which one) gets the new one in its place: the others
-- are kept, in heap order with right back pointers.
pub heap_upsert-Updated :
    (m : HeapMem) (pos : ℕ) (t : HeapItem)
    → IsValid m
    → pos < length m.items
    → (at m.items pos).ref ≡ t.ref
    → Returns (Updated m (set m.items pos t)) (heap_upsert m pos t)
unfolding heap_upsert
heap_upsert-Updated m pos t v h own =
    let a = set m.items pos t in
    let size = length-set m.items pos t in
    let read = λ (i : ℕ). get_or-set m.items pos i t no_item h in
    let (r, run, s) =
      heap_update-Settled (record m { items = a }) pos (omega (arith, size))
        (set-IsDented m.items pos t h (open-IsDented m.items pos v.heap))
        (record {
          others = λ i p q. ground (arith, size, read i, v.linked i);
          fresh = λ i p q. ground (arith, size, read i, read pos, v.linked i, v.linked pos);
        }) in
    rw (lt→ltb pos (length m.items) h, ◌>>=◌) (r, run, Settled-Updated m a r s)

-- An owner without a timer (its index is no place of the heap) gets one more: the others are
-- kept, in heap order with right back pointers.
pub heap_upsert-Updated_new :
    (m : HeapMem) (pos : ℕ) (t : HeapItem)
    → IsValid m
    → length m.items ≤ pos
    → count (is_owner t.ref) m.items ≡ 0
    → Returns (Updated m (m.items ++ t ∷ [])) (heap_upsert m pos t)
unfolding heap_upsert
heap_upsert-Updated_new m pos t v h own =
    let n = length m.items in
    let a = m.items ++ t ∷ [] in
    let size = length-append m.items (t ∷ []) in
    let read = λ (i : ℕ) (p : i < n). get_or-append m.items (t ∷ []) i no_item p in
    let end = get_or-append_end m.items t no_item in
    let (r, run, s) =
      heap_update-Settled (record m { items = a }) n (omega (arith, size))
        (record {
          edges = λ c p q x y. ground (
            arith,
            size,
            read c (omega (arith, size)),
            read (heap_parent c) (omega (arith, size)),
            v.heap c,
          );
          bridges = λ c p q x y. absurd (omega (arith, size));
        })
        (record {
          others = λ i p q. ground (arith, size, read i (omega (arith, size)), v.linked i);
          fresh = λ i p q e. ground (
            arith,
            size,
            end,
            read i (omega (arith, size)),
            count-get_or (is_owner t.ref) m.items i no_item (omega (arith, size)),
          );
        }) in
    rw (le→ltb pos n h) (r, run, Settled-Updated m a r s)
