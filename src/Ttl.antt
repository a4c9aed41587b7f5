-- ===== src/Ttl.antt =====
-- server.cpp: the vector of timers, `heap_delete` and `heap_upsert`.
pub mod Remove
pub mod Upsert
pub mod Owners
use redis_lite.Base.{
  ℕ, ◌-◌, ◌∷◌, [], ◌++◌, List, Option, none, some, ◌>>=◌, ltb, if◌then◌else◌, get_elem?, set,
  length, take,
}
use redis_lite.Heap.{HeapItem, HeapMem, heap_update}

-- `a[i] = v`; outside the vector it is a fault.
pub write : List HeapItem → ℕ → HeapItem → Option (List HeapItem)
write a i v = if ltb i (length a) then some (set a i v) else none

-- `a.back()`
pub back : List HeapItem → Option HeapItem
back a = get_elem? a (length a - 1)

-- `a.pop_back()`
abbrev pub pop_back : List HeapItem → List HeapItem
pop_back a = take (length a - 1) a

unfoldable pub heap_delete : HeapMem → ℕ → Option HeapMem
unfolding write back
heap_delete m pos = back m.items >>= λ last. write m.items pos last >>= λ a.
    let b = pop_back a in
    if ltb pos (length b)
    then heap_update (record m { items = b }) pos (length b)
    else some (record m { items = b })

unfoldable pub heap_upsert : HeapMem → ℕ → HeapItem → Option HeapMem
unfolding write
heap_upsert m pos t =
    if ltb pos (length m.items)
    then (write m.items pos t >>= λ a. heap_update (record m { items = a }) pos (length a))
    else (let a = m.items ++ t ∷ [] in
        heap_update (record m { items = a }) (length m.items) (length a))
