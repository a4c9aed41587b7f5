-- ===== src/Heap/Order.antt =====
-- The heap order of heap.cpp, and what is left of it while one place is open.
use redis_lite.Base.{
  zero, suc, ℕ, ◌≤◌, ◌<◌, ◌≡◌, ◌≢◌, List, get_or, length, set, get_or-set, length-set, arith,
}
use redis_lite.Heap.{HeapItem, heap_parent}

abbrev pub no_item : HeapItem
no_item = record { val = 0; ref = 0 }

abbrev pub at : List HeapItem → ℕ → HeapItem
at a i = get_or a i no_item

-- Every item but the first is at or above its parent.
abbrev pub IsHeap : List HeapItem → Type 0
IsHeap a = (c : ℕ) → 0 < c → c < length a → (at a (heap_parent c)).val ≤ (at a c).val

-- `a` is in order save at `pos`, whose item does not count: the edges elsewhere are in order, and
-- so are those that skip `pos`.
pub record IsDented (a : List HeapItem) (pos : ℕ) : Type 0 where
  pub edges :
      (c : ℕ)
      → 0 < c
      → c < length a
      → c ≢ pos
      → heap_parent c ≢ pos
      → (at a (heap_parent c)).val ≤ (at a c).val
  pub bridges :
      (c : ℕ)
      → 0 < c
      → c < length a
      → heap_parent c ≡ pos
      → 0 < pos
      → (at a (heap_parent pos)).val ≤ (at a c).val

-- No kid of `pos` is below `v`.
abbrev pub IsBelowKids : List HeapItem → ℕ → ℕ → Type 0
IsBelowKids a pos v = (c : ℕ) → 0 < c → c < length a → heap_parent c ≡ pos → v ≤ (at a c).val

-- The parent of `pos` is not above `v`.
abbrev pub IsAboveParent : List HeapItem → ℕ → ℕ → Type 0
IsAboveParent a pos v = 0 < pos → (at a (heap_parent pos)).val ≤ v

-- An item in the open place that fits on both sides closes it.
pub close-IsHeap :
    (a : List HeapItem) (pos : ℕ) (t : HeapItem)
    → pos < length a
    → IsDented a pos
    → IsBelowKids a pos t.val
    → IsAboveParent a pos t.val
    → IsHeap (set a pos t)
close-IsHeap a pos t h d kids up c p q = ground (
  arith,
  length-set a pos t,
  get_or-set a pos c t no_item,
  get_or-set a pos (heap_parent c) t no_item,
  d.edges c,
  kids c,
  up,
)

-- A valid heap stays in order elsewhere when one place is opened.
pub open-IsDented : (a : List HeapItem) (pos : ℕ) → IsHeap a → IsDented a pos
open-IsDented a pos h = record {
  edges = λ c p q r s. h c p q;
  bridges = λ c p q r s. ground (arith, h c, h pos);
}

-- What is written at the open place does not matter.
pub set-IsDented :
    (a : List HeapItem) (pos : ℕ) (x : HeapItem)
    → pos < length a
    → IsDented a pos
    → IsDented (set a pos x) pos
set-IsDented a pos x h d = record {
  edges = λ c p q r s. ground (
    arith,
    length-set a pos x,
    get_or-set a pos c x no_item,
    get_or-set a pos (heap_parent c) x no_item,
    d.edges c,
  );
  bridges = λ c p q r s. ground (
    arith,
    length-set a pos x,
    get_or-set a pos c x no_item,
    get_or-set a pos (heap_parent pos) x no_item,
    d.bridges c,
  );
}

root_least_below :
    (k : ℕ) (a : List HeapItem) (i : ℕ)
    → IsHeap a
    → i < k
    → i < length a
    → (at a 0).val ≤ (at a i).val
root_least_below zero a i h f p = absurd (omega arith)
root_least_below (suc k) a i h f p = ground (arith, h i, root_least_below k a (heap_parent i) h)

-- The first item of a heap is the soonest timer.
pub root_least : (a : List HeapItem) (i : ℕ) → IsHeap a → i < length a → (at a 0).val ≤ (at a i).val
root_least a i h p = root_least_below (suc i) a i h (omega arith) p
