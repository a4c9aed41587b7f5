-- ===== src/Server/Timers.antt =====
-- `next_timer_ms` of server.cpp.
use redis_lite.Base.{
  ℕ, ◌+◌, ◌-◌, ◌%◌, ◌^◌, ◌≤◌, ◌<◌, ◌≡◌, ◌≢◌, ◌⊎◌, inl, inr, refl, ◌∙◌, ap, List, [], ◌∷◌, some,
  ◌==◌, ltb, leb, arith, to_nat, length, Bool-cases, Returns,
}
use redis_lite.Base.Memory.{==-same, ==-true}
use redis_lite.DList.Ring.{times}
use redis_lite.DList.Refined.{dlist_empty-is_nil}
use redis_lite.Heap.{HeapItem}
use redis_lite.Heap.Order.{IsHeap, at, root_least}
use redis_lite.Server.{
  Client, Server, idle_list, k_idle_timeout_ms, idle_deadline, sooner, wait_ms, first_deadline,
  next_timer_ms,
}
use redis_lite.Server.Valid.{IsServer}
use redis_lite.Server.Idle.{IsAged, aged_bounds, aged_each, deadline_lem, not_ltb, is_ltb}

-- What `poll` gets for the soonest deadline `d`: -1 without one, 0 if it is over, and else the time
-- that is left, in 32 bits.
abbrev pub IsWait : ℕ → ℕ → ℕ → Type 0
IsWait now d t =
    ((d ≡ 2 ^ 64 - 1) × (t ≡ 2 ^ 32 - 1))
    ⊎ ((d ≢ 2 ^ 64 - 1) × (((d ≤ now) × (t ≡ 0)) ⊎ ((now < d) × (t ≡ (d - now) % 2 ^ 32))))

wait_ms-IsWait : (now d : ℕ) → IsWait now d (wait_ms now d)
unfolding wait_ms
wait_ms-IsWait now d = elim (Bool-cases (d == 2 ^ 64 - 1)) [
  | inl e ↦ rw e (inl (==-true d (2 ^ 64 - 1) e, refl))
  | inr e ↦ elim (Bool-cases (leb d now)) [
    | inl over ↦ rw (e, over) (inr (ground (arith, e), inl (ground (arith, over), refl)))
    | inr left ↦ rw (e, left) (inr (ground (arith, e), inr (ground (arith, left), refl)))
  ]
]

module _ {S : Type 0} where
  -- `d` is at most every deadline, and one of them if there is any.
  pub record IsSoonest (s : Server S) (ps : List ℕ) (heap : List HeapItem) (d : ℕ) : Type 0 where
    pub idle :
        (p : ℕ)
        → 0 < times p ps
        → (c : Client) × (s.clients p ≡ some c) × (d ≤ c.last_active_ms + k_idle_timeout_ms)
    pub timers : (i : ℕ) → i < length heap → d ≤ (at heap i).val
    pub attained :
        ((ps ≡ []) × (d ≡ 2 ^ 64 - 1))
        ⊎ (((p : ℕ) × (c : Client) × (s.clients p ≡ some c)
              × (0 < times p ps)
              × (d ≡ c.last_active_ms + k_idle_timeout_ms))
            ⊎ ((i : ℕ) × (i < length heap) × (d ≡ (at heap i).val)))

  -- The first connection of the list has the soonest deadline of them.
  abbrev IsFirst : Server S → List ℕ → ℕ → Type 0
  IsFirst s ps d = IsSoonest s ps [] d

  no_timer_left : (s : Server S) (d : ℕ) → d ≡ 2 ^ 64 - 1 → IsFirst s [] d
  no_timer_left s d e = record {
    idle = λ p h. absurd (omega (arith, h));
    timers = λ i h. absurd (omega (arith, h));
    attained = inl (refl, e);
  }

  first_deadline-IsFirst :
      (lo now : ℕ) (s : Server S) (ps : List ℕ)
      → IsServer s ps
      → IsAged s.clients lo ps now
      → now + k_idle_timeout_ms < 2 ^ 64
      → Returns (IsFirst s ps) (first_deadline s)
  unfolding first_deadline
  first_deadline-IsFirst lo now s [] v a small =
      rw (dlist_empty-is_nil s.links idle_list [] v.ring) (_, refl, no_timer_left s _ refl)
  first_deadline-IsFirst lo now s (p ∷ ps) v (c, e, le, a) small =
      let dl = deadline_lem now c (aged_bounds s.clients c.last_active_ms ps now a) small in
      rw (dlist_empty-is_nil s.links idle_list (p ∷ ps) v.ring, ap s.clients v.ring.path.0 ∙ e)
        (
          idle_deadline c,
          refl,
          record {
            idle = λ q h.
                let (x, f, u, _) =
                  aged_each s.clients c.last_active_ms (p ∷ ps) now q (c, e, omega arith, a) h in
                (x, f, omega (arith, u, dl));
            timers = λ i h. absurd (omega (arith, h));
            attained = inr (inl (p, c, e, omega (arith, ap to_nat (==-same p)), dl));
          },
        )

  sooner-IsSoonest :
      (s : Server S) (ps : List ℕ) (heap : List HeapItem) (d : ℕ)
      → IsFirst s ps d
      → IsHeap heap
      → IsSoonest s ps heap (sooner d heap)
  sooner-IsSoonest s ps [] d f h = f
  sooner-IsSoonest s ps (t ∷ heap) d f h = elim (Bool-cases (ltb t.val d)) [
    | inl less ↦ rw less (record {
      idle = λ p on. let (c, e, le) = f.idle p on in (c, e, omega (arith, le, is_ltb t.val d less));
      timers = λ i lt. root_least (t ∷ heap) i h lt;
      attained = inr (inr (0, omega arith, refl));
    })
    | inr more ↦ rw more (record {
      idle = f.idle;
      timers = λ i lt. omega (arith, root_least (t ∷ heap) i h lt, not_ltb t.val d more);
      attained = elim f.attained [
        | inl e ↦ inl e
        | inr (inl e) ↦ inr (inl e)
        | inr (inr (i, lt, e)) ↦ absurd (omega (arith, lt))
      ];
    })
  ]

  -- On valid connections in the order of their last activity and a heap of timers, `next_timer_ms`
  -- does not fault, and gives the wait for the soonest of all deadlines: -1 if there is none (or that
  -- of 2 ^ 64 - 1), 0 if it is over, and else the time that is left, in 32 bits.
  pub next_timer_ms-IsSoonest :
      (lo now : ℕ) (heap : List HeapItem) (s : Server S) (ps : List ℕ)
      → IsServer s ps
      → IsAged s.clients lo ps now
      → now + k_idle_timeout_ms < 2 ^ 64
      → IsHeap heap
      → Returns (λ t. (d : ℕ) × IsSoonest s ps heap d × IsWait now d t) (next_timer_ms now heap s)
  unfolding next_timer_ms
  next_timer_ms-IsSoonest lo now heap s ps v a small h =
      let (d, run, f) = first_deadline-IsFirst lo now s ps v a small in
      rw run (
        _,
        refl,
        (sooner d heap, sooner-IsSoonest s ps heap d f h, wait_ms-IsWait now (sooner d heap)),
      )
