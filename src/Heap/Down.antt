-- ===== src/Heap/Down.antt =====
-- `heap_down` of heap.cpp, for when the item at the open place may be too large for it.
use redis_lite.Base.{
  ◌>>=◌, ℕ, zero, suc, ◌-◌, ◌≤◌, ◌<◌, ◌≡◌, ◌≢◌, refl, List, length, set, get_or-set, length-set,
  get_elem?-get_or, Bool-cases, inl, inr, ltb, ◌==◌, ◌⊎◌, arith, Returns,
}
use redis_lite.Heap.{
  HeapItem, HeapMem, put, heap_parent, heap_left, heap_right, min_pos, min_left, heap_down_loop,
  heap_down,
}
use redis_lite.Heap.Order.{at, no_item, IsDented, IsBelowKids, IsAboveParent}
use redis_lite.Heap.Links.{IsLinkedFor, Settled, move-IsLinkedFor}
use redis_lite.Heap.Up.{put-Settled, move-Settled}

-- What the two tests of the loop find: `pos` if no kid is below `t`, otherwise a least kid.
pub record IsLeastKid (a : List HeapItem) (pos v k : ℕ) : Type 0 where
  pub inside : k < length a
  pub stays : k ≡ pos → IsBelowKids a pos v
  pub sinks :
      k ≢ pos
      → (heap_parent k ≡ pos) × (0 < k) × ((at a k).val < v) × IsBelowKids a pos (at a k).val

abbrev IsLeastOfLeft : List HeapItem → ℕ → ℕ → ℕ × ℕ → Type 0
IsLeastOfLeft a pos v b =
    ((b.0 ≡ pos) × (b.1 ≡ v) × (heap_left pos < length a → v ≤ (at a (heap_left pos)).val))
    ⊎ ((b.0 ≡ heap_left pos)
        × (heap_left pos < length a)
        × (b.1 ≡ (at a (heap_left pos)).val)
        × (b.1 < v))

min_left-IsLeastOfLeft :
    (t : HeapItem) (m : HeapMem) (pos : ℕ)
    → Returns (IsLeastOfLeft m.items pos t.val) (min_left t m pos (length m.items))
unfolding min_left
min_left-IsLeastOfLeft t m pos =
    let x = at m.items (heap_left pos) in
    elim (Bool-cases (ltb (heap_left pos) (length m.items))) [
      | inr out ↦ rw out (_, refl, inl (refl, refl, λ h. absurd (ground arith)))
      | inl inside ↦
          rw (inside, get_elem?-get_or m.items (heap_left pos) no_item (ground arith))
            (elim (Bool-cases (ltb x.val t.val)) [
              | inl below ↦ rw below (_, refl, inr (refl, ground arith, refl, ground arith))
              | inr above ↦ rw above (_, refl, inl (refl, refl, λ h. ground arith))
            ])
    ]

kid_cases : (c pos : ℕ) → 0 < c → heap_parent c ≡ pos → (c ≡ heap_left pos) ⊎ (c ≡ heap_right pos)
kid_cases c pos p e = ground arith

min_pos-IsLeastKid :
    (t : HeapItem) (m : HeapMem) (pos : ℕ)
    → pos < length m.items
    → Returns (IsLeastKid m.items pos t.val) (min_pos t m pos (length m.items))
unfolding min_pos
min_pos-IsLeastKid t m pos h =
    let (b, run, s) = min_left-IsLeastOfLeft t m pos in
    let y = at m.items (heap_right pos) in
    rw run (elim (Bool-cases (ltb (heap_right pos) (length m.items))) [
      | inr out ↦ rw out (
        _,
        refl,
        record {
          inside = ground arith;
          stays = λ e c p q k. ground (arith, kid_cases c pos);
          sinks = λ e. (
            ground arith,
            ground arith,
            ground arith,
            λ c p q k. ground (arith, kid_cases c pos),
          );
        },
      )
      | inl inside ↦
          rw (inside, get_elem?-get_or m.items (heap_right pos) no_item (ground arith))
            (elim (Bool-cases (ltb y.val b.1)) [
              | inl below ↦ rw below (
                _,
                refl,
                record {
                  inside = ground arith;
                  stays = λ e c p q k. ground (arith, kid_cases c pos);
                  sinks = λ e. (
                    ground arith,
                    ground arith,
                    ground arith,
                    λ c p q k. ground (arith, kid_cases c pos),
                  );
                },
              )
              | inr above ↦ rw above (
                _,
                refl,
                record {
                  inside = ground arith;
                  stays = λ e c p q k. ground (arith, kid_cases c pos);
                  sinks = λ e. (
                    ground arith,
                    ground arith,
                    ground arith,
                    λ c p q k. ground (arith, kid_cases c pos),
                  );
                },
              )
            ])
    ])

module _ (m : HeapMem) (pos k : ℕ) (h : pos < length m.items) (hk : k < length m.items)
    (kid : heap_parent k ≡ pos) (pk : 0 < k) where
  sink-IsDented :
      IsDented m.items pos
      → IsBelowKids m.items pos (at m.items k).val
      → IsDented (put m pos (at m.items k)).items k
  unfolding put
  sink-IsDented d least =
      let a = m.items in
      let size = length-set a pos (at a k) in
      let read = λ (i : ℕ). get_or-set a pos i (at a k) no_item h in
      record {
        edges = λ c x y z w.
            ground (arith, size, read c, read (heap_parent c), d.edges c, least c, d.bridges k);
        bridges = λ c x y z w. ground (arith, size, read c, read pos, d.edges c);
      }

heap_down_loop-Settled :
    (fuel : ℕ) (t : HeapItem) (m : HeapMem) (pos len : ℕ)
    → len ≡ length m.items
    → len - pos < fuel
    → pos < length m.items
    → IsDented m.items pos
    → IsAboveParent m.items pos t.val
    → IsLinkedFor m pos t.ref
    → Returns (Settled (set m.items pos t) m.idx) (heap_down_loop fuel t m pos len)
unfolding heap_down_loop
heap_down_loop-Settled zero t m pos len n f h d up l = absurd (omega arith)
heap_down_loop-Settled (suc fuel) t m pos len n f h d up l =
    let (k, found, s) = min_pos-IsLeastKid t m pos h in
    let x = at m.items k in
    rw (n, found, heap_down_loop, ◌>>=◌)
      (elim (Bool-cases (k == pos)) [
        | inl stop ↦ rw stop (_, refl, put-Settled m pos t h d (s.stays (ground arith)) up l)
        | inr more ↦
            let ne : k ≢ pos = ground arith in
            let (kid, pk, below, least) = s.sinks ne in
            let (r, run, done) =
              heap_down_loop-Settled fuel t (put m pos x) k len
                (unfold put in omega (arith, length-set m.items pos x)) (omega arith)
                (unfold put in omega (arith, s.inside, length-set m.items pos x))
                (sink-IsDented m pos k h s.inside kid pk d least)
                (unfold put in λ _. ground (arith, get_or-set m.items pos pos x no_item))
                (move-IsLinkedFor m pos k t.ref h s.inside ne l) in
            rw (more, get_elem?-get_or m.items k no_item s.inside, ◌>>=◌)
              (r, run, move-Settled m pos k t r h s.inside ne done)
      ])

-- `heap_down` does not fault, its loop ends, and the heap is restored.
pub heap_down-Settled :
    (m : HeapMem) (pos : ℕ)
    → pos < length m.items
    → IsDented m.items pos
    → IsAboveParent m.items pos (at m.items pos).val
    → IsLinkedFor m pos (at m.items pos).ref
    → Returns (Settled (set m.items pos (at m.items pos)) m.idx) (heap_down m pos (length m.items))
unfolding heap_down
heap_down-Settled m pos h d up l = rw (get_elem?-get_or m.items pos no_item h) (
    unfold heap_down_loop put min_pos min_left in
    heap_down_loop-Settled (suc (length m.items)) (at m.items pos) m pos (length m.items) refl
      (omega arith) h d up l)
