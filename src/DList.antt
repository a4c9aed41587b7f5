-- ===== src/DList.antt =====
-- list.h: the intrusive doubly linked list, on memories of the two pointers of its nodes.
pub mod Ring
pub mod Refined
use redis_lite.Base.{ℕ, Bool, ◌==◌}
use redis_lite.Base.Memory.{store}

-- The fields of all nodes, by address.
pub record DList : Type 0 where
  pub prev : ℕ → ℕ
  pub next : ℕ → ℕ

unfoldable pub dlist_init : DList → ℕ → DList
dlist_init m node = record { prev = store m.prev node node; next = store m.next node node }

unfoldable pub dlist_empty : DList → ℕ → Bool
dlist_empty m node = m.next node == node

unfoldable pub dlist_detach : DList → ℕ → DList
dlist_detach m node =
    let prev = m.prev node in
    let next = m.next node in
    record { next = store m.next prev next; prev = store m.prev next prev }

-- The four writes in their order.
unfoldable pub dlist_insert_before : DList → ℕ → ℕ → DList
dlist_insert_before m target rookie =
    let prev = m.prev target in
    record {
      next = store (store m.next prev rookie) rookie target;
      prev = store (store m.prev rookie prev) target rookie;
    }
