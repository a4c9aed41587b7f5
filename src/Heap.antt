-- ===== src/Heap.antt =====
-- heap.cpp: the binary min-heap of timers. An item knows its owner's copy of its index (`ref`),
-- and every move of an item writes that copy.
pub mod Order
pub mod Links
pub mod Up
pub mod Down
pub mod Update
use redis_lite.Base.{
  ℕ, zero, suc, ◌+◌, ◌-◌, ◌*◌, ◌/◌, Bool, true, false, List, Option, none, some, ◌>>=◌, ltb, ◌==◌,
  if◌then◌else◌, get_elem?, set,
}

pub record HeapItem : Type 0 where
  pub val : ℕ
  pub ref : ℕ

-- The array with the memory that the `ref` pointers point into.
pub record HeapMem : Type 0 where
  pub items : List HeapItem
  pub idx : ℕ → ℕ

-- `a[pos] = x; *a[pos].ref = pos;`
unfoldable pub put : HeapMem → ℕ → HeapItem → HeapMem
put m pos x = record { items = set m.items pos x; idx = λ r. if r == x.ref then pos else m.idx r }

-- Asked only at `i > 0`, so that the subtraction does not wrap.
abbrev pub heap_parent : ℕ → ℕ
heap_parent i = (i + 1) / 2 - 1

abbrev pub heap_left : ℕ → ℕ
heap_left i = i * 2 + 1

abbrev pub heap_right : ℕ → ℕ
heap_right i = i * 2 + 2

-- The loop of `heap_up`, and the writes behind it. `none` is a read outside the array, or the
-- fuel running out.
pub heap_up_loop : ℕ → HeapItem → HeapMem → ℕ → Option HeapMem
heap_up_loop zero t m pos = none
heap_up_loop (suc fuel) t m pos = elim (ltb 0 pos) [
  | false ↦ some (put m pos t)
  | true ↦ get_elem? m.items (heap_parent pos) >>= λ p. elim (ltb t.val p.val) [
    | true ↦ heap_up_loop fuel t (put m pos p) (heap_parent pos)
    | false ↦ some (put m pos t)
  ]
]

unfoldable pub heap_up : HeapMem → ℕ → Option HeapMem
unfolding heap_up_loop put
heap_up m pos = get_elem? m.items pos >>= λ t. heap_up_loop (suc pos) t m pos

-- The first test of the loop of `heap_down`: the position and the value of the smaller one of the
-- parent and its left kid.
pub min_left : HeapItem → HeapMem → ℕ → ℕ → Option (ℕ × ℕ)
min_left t m pos len =
    if ltb (heap_left pos) len
    then (get_elem? m.items (heap_left pos) >>= λ x.
        some (if ltb x.val t.val then (heap_left pos, x.val) else (pos, t.val)))
    else some (pos, t.val)

-- Both tests: the position of the smallest one among the parent and its kids.
pub min_pos : HeapItem → HeapMem → ℕ → ℕ → Option ℕ
min_pos t m pos len = min_left t m pos len >>= λ best.
    if ltb (heap_right pos) len
    then (get_elem? m.items (heap_right pos) >>= λ y.
        some (if ltb y.val best.1 then heap_right pos else best.0))
    else some best.0

pub heap_down_loop : ℕ → HeapItem → HeapMem → ℕ → ℕ → Option HeapMem
heap_down_loop zero t m pos len = none
heap_down_loop (suc fuel) t m pos len = min_pos t m pos len >>= λ k. elim (k == pos) [
  | true ↦ some (put m pos t)
  | false ↦ get_elem? m.items k >>= λ x. heap_down_loop fuel t (put m pos x) k len
]

unfoldable pub heap_down : HeapMem → ℕ → ℕ → Option HeapMem
unfolding heap_down_loop min_pos min_left put
heap_down m pos len = get_elem? m.items pos >>= λ t. heap_down_loop (suc len) t m pos len

-- `pos > 0 && a[heap_parent(pos)].val > a[pos].val`
pub above_is_larger : HeapMem → ℕ → Option Bool
above_is_larger m pos =
    if ltb 0 pos
    then (get_elem? m.items (heap_parent pos) >>= λ p.
        get_elem? m.items pos >>= λ t. some (ltb t.val p.val))
    else some false

unfoldable pub heap_update : HeapMem → ℕ → ℕ → Option HeapMem
unfolding heap_up heap_down above_is_larger
heap_update m pos len =
    above_is_larger m pos >>= λ b. if b then heap_up m pos else heap_down m pos len
