-- ===== src/Tests/Heap.antt =====
-- heap.cpp and the timers of server.cpp on a heap of three timers; the timer of owner `r` has its index at `idx r`.
use redis_lite.Base.{
  ℕ, zero, suc, ◌≤◌, ◌<◌, ◌≡◌, ◌≢◌, refl, [], ◌∷◌, ◌++◌, arith, Returns, ◌==◌, if◌then◌else◌,
}
use redis_lite.Heap.{HeapItem, HeapMem, heap_parent, heap_update}
use redis_lite.Heap.Order.{at, IsHeap, IsDented}
use redis_lite.Heap.Links.{IsLinked, IsLinkedFor, Settled}
use redis_lite.Heap.Update.{heap_update-Settled}
use redis_lite.Ttl.{heap_delete, heap_upsert}
use redis_lite.Ttl.Remove.{IsValid, Removed, heap_delete-Removed}
use redis_lite.Ttl.Upsert.{Updated, heap_upsert-Updated, heap_upsert-Updated_new}

abbrev timer : ℕ → ℕ → HeapItem
timer val ref = record { val = val; ref = ref }

abbrev three_timers : HeapMem
three_timers = record {
  items = timer 10 0 ∷ timer 30 1 ∷ timer 20 2 ∷ [];
  idx = λ r. if r == 2 then 2 else (if r == 1 then 1 else (if r == 0 then 0 else 99));
}

three_timers-IsHeap : IsHeap three_timers.items
three_timers-IsHeap zero p q = absurd (omega arith)
three_timers-IsHeap (suc zero) p q = omega arith
three_timers-IsHeap (suc (suc zero)) p q = omega arith
three_timers-IsHeap (suc (suc (suc i))) p q = absurd (omega arith)

three_timers-IsLinked : IsLinked three_timers
three_timers-IsLinked zero p = refl
three_timers-IsLinked (suc zero) p = refl
three_timers-IsLinked (suc (suc zero)) p = refl
three_timers-IsLinked (suc (suc (suc i))) p = absurd (omega arith)

three_timers-IsValid : IsValid three_timers
three_timers-IsValid = record { heap = three_timers-IsHeap; linked = three_timers-IsLinked }

-- The first timer was moved to 40, which puts it out of order.
abbrev late_timer : HeapMem
late_timer = record { items = timer 40 0 ∷ timer 30 1 ∷ timer 20 2 ∷ []; idx = three_timers.idx }

late_edges :
    (c : ℕ)
    → 0 < c
    → c < 3
    → heap_parent c ≢ 0
    → (at late_timer.items (heap_parent c)).val ≤ (at late_timer.items c).val
late_edges zero p q ne = absurd (omega arith)
late_edges (suc zero) p q ne = absurd (ne refl)
late_edges (suc (suc zero)) p q ne = absurd (ne refl)
late_edges (suc (suc (suc c))) p q ne = absurd (omega arith)

late_timer-IsDented : IsDented late_timer.items 0
late_timer-IsDented = record {
  edges = λ c p q _ ne. late_edges c p q ne;
  bridges = λ c p q e up. absurd (omega arith);
}

late_fresh : (i : ℕ) → i < 3 → i ≢ 0 → (at late_timer.items i).ref ≢ 0
late_fresh zero p ne e = ne refl
late_fresh (suc zero) p ne e = absurd (omega arith)
late_fresh (suc (suc zero)) p ne e = absurd (omega arith)
late_fresh (suc (suc (suc i))) p ne e = absurd (omega arith)

late_others : (i : ℕ) → i < 3 → i ≢ 0 → late_timer.idx (at late_timer.items i).ref ≡ i
late_others zero p ne = refl
late_others (suc zero) p ne = refl
late_others (suc (suc zero)) p ne = refl
late_others (suc (suc (suc i))) p ne = absurd (omega arith)

late_timer-IsLinkedFor : IsLinkedFor late_timer 0 0
late_timer-IsLinkedFor = record { others = late_others; fresh = late_fresh }

heap_update-Settled_example :
    Returns (Settled late_timer.items late_timer.idx) (heap_update late_timer 0 3)
heap_update-Settled_example =
    heap_update-Settled late_timer 0 (omega arith) late_timer-IsDented late_timer-IsLinkedFor

heap_delete-Removed_example :
    Returns (Removed three_timers (timer 10 0)) (heap_delete three_timers 0)
heap_delete-Removed_example = heap_delete-Removed three_timers 0 three_timers-IsValid (omega arith)

heap_upsert-Updated_example :
    Returns
      (Updated three_timers (timer 10 0 ∷ timer 5 1 ∷ timer 20 2 ∷ []))
      (heap_upsert three_timers 1 (timer 5 1))
heap_upsert-Updated_example =
    heap_upsert-Updated three_timers 1 (timer 5 1) three_timers-IsValid (omega arith) refl

heap_upsert-Updated_new_example :
    Returns
      (Updated three_timers (three_timers.items ++ timer 15 7 ∷ []))
      (heap_upsert three_timers 99 (timer 15 7))
heap_upsert-Updated_new_example =
    heap_upsert-Updated_new three_timers 99 (timer 15 7) three_timers-IsValid (omega arith) refl
