-- ===== src/Heap/Links.antt =====
-- heap.cpp: the back pointers: what `*ref` holds while the items move.
use redis_lite.Base.{
  ℕ, ◌<◌, ◌≡◌, ◌≢◌, Bool, List, length, set, get_or-set, length-set, ◌==◌, count, SameItems,
  count-set, count-get_or, arith,
}
use redis_lite.Heap.{HeapItem, HeapMem, put}
use redis_lite.Heap.Order.{at, no_item, IsHeap}

-- Each item's back pointer holds the item's index.
abbrev pub IsLinked : HeapMem → Type 0
IsLinked m = (i : ℕ) → i < length m.items → m.idx (at m.items i).ref ≡ i

-- The same save at `pos`, where an item owned by `r` is about to be written.
pub record IsLinkedFor (m : HeapMem) (pos r : ℕ) : Type 0 where
  pub others : (i : ℕ) → i < length m.items → i ≢ pos → m.idx (at m.items i).ref ≡ i
  pub fresh : (i : ℕ) → i < length m.items → i ≢ pos → (at m.items i).ref ≢ r

abbrev pub is_owner : ℕ → HeapItem → Bool
is_owner r x = x.ref == r

-- What the routines of heap.cpp promise, from an array that stands for the items `c`, with the
-- back pointers `idx`: the same items in heap order, each back pointer right, and the memory of
-- others untouched.
pub record Settled (c : List HeapItem) (idx : ℕ → ℕ) (m : HeapMem) : Type 0 where
  pub heap : IsHeap m.items
  pub same : SameItems m.items c
  pub linked : IsLinked m
  pub frame : (r : ℕ) → count (is_owner r) c ≡ 0 → m.idx r ≡ idx r

module _ (m : HeapMem) (pos : ℕ) (t : HeapItem) (h : pos < length m.items) where
  pub put-IsLinked : IsLinkedFor m pos t.ref → IsLinked (put m pos t)
  unfolding put
  put-IsLinked l i p =
      ground
        (arith, length-set m.items pos t, get_or-set m.items pos i t no_item, l.others i, l.fresh i)

-- Moving the item at `k` to the open place `pos` opens `k`.
module _ (m : HeapMem) (pos k r : ℕ) (h : pos < length m.items) (hk : k < length m.items)
    (ne : k ≢ pos) where
  abbrev pub move : HeapMem
  move = put m pos (at m.items k)

  pub move-IsLinkedFor : IsLinkedFor m pos r → IsLinkedFor move k r
  unfolding put
  move-IsLinkedFor l =
      let x = at m.items k in
      record {
        others = λ i p q. ground (
          arith,
          length-set m.items pos x,
          get_or-set m.items pos i x no_item,
          l.others i,
          l.others k,
        );
        fresh = λ i p q. ground (
          arith,
          length-set m.items pos x,
          get_or-set m.items pos i x no_item,
          l.fresh i,
          l.fresh k,
        );
      }

  -- The items that the array stands for do not change.
  pub move-SameItems :
      (t : HeapItem) → SameItems (set (set m.items pos (at m.items k)) k t) (set m.items pos t)
  move-SameItems t p =
      let x = at m.items k in
      let kept : at (set m.items pos x) k ≡ x =
        ground (arith, get_or-set m.items pos k x no_item) in
      let inside : k < length (set m.items pos x) = omega (arith, length-set m.items pos x) in
      omega (
        arith,
        rw kept at (count-set p (set m.items pos x) k t no_item inside),
        count-set p m.items pos x no_item h,
        count-set p m.items pos t no_item h,
      )

  pub move-frame :
      (t : HeapItem) (q : ℕ) → count (is_owner q) (set m.items pos t) ≡ 0 → move.idx q ≡ m.idx q
  unfolding put
  move-frame t q e = ground (
    arith,
    get_or-set m.items pos k t no_item,
    count-get_or (is_owner q) (set m.items pos t) k no_item
        (omega (arith, length-set m.items pos t)),
  )
