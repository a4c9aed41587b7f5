-- ===== src/Db/ProcessKeys.antt =====
-- `process_timers` of server.cpp, on all the entries whose timers have ended: the loop.
use redis_lite.Base.{
  ℕ, zero, suc, ◌+◌, ◌≤◌, ◌<◌, ◌≡◌, ◌⊎◌, inl, inr, refl, ◌∙◌, ap, true, false, List, [], ◌∷◌,
  Option, some, ltb, arith, count, to_nat, Bool-cases,
}
use redis_lite.HashTable.{Chain}
use redis_lite.Heap.{HeapItem}
use redis_lite.Heap.Order.{at, root_least}
use redis_lite.Heap.Links.{is_owner}
use redis_lite.Db.{Db}
use redis_lite.Db.Store.{==-same}
use redis_lite.Db.Lookup.{IsDb}
use redis_lite.Db.Timers.{IsTimed}
use redis_lite.Db.Expire.{
  k_max_works, expire_key, after_key, expire_turn, expire_keys, process_keys,
}
use redis_lite.Db.Processed.{Processed, same-Processed, join-Processed, last-Processed}
use redis_lite.Db.Expired.{none_ended, Expired, expire_key-Expired}

List-cases : (a : List HeapItem) → (a ≡ []) ⊎ ((t : HeapItem) × (r : List HeapItem) × (a ≡ t ∷ r))
List-cases [] = inl refl
List-cases (t ∷ r) = inr (t, r, refl)

not_ltb : (a b : ℕ) → ltb a b ≡ false → b ≤ a
not_ltb a b e = ground (arith, e)

module _ {Z : Type 0} (zset_clear : Z → Z) where
  stop_none :
      (fuel now nworks : ℕ) (d : Db Z)
      → d.heap.items ≡ []
      → expire_keys zset_clear (suc fuel) now nworks d ≡ some d
  unfolding expire_keys expire_turn
  stop_none fuel now nworks d e =
      ap (expire_turn zset_clear (expire_keys zset_clear fuel now) now nworks d) e

  stop_later :
      (fuel now nworks : ℕ) (d : Db Z) (t : HeapItem) (r : List HeapItem)
      → d.heap.items ≡ t ∷ r
      → ltb t.val now ≡ false
      → expire_keys zset_clear (suc fuel) now nworks d ≡ some d
  unfolding expire_keys expire_turn
  stop_later fuel now nworks d t r e later =
      ap (expire_turn zset_clear (expire_keys zset_clear fuel now) now nworks d) e ∙ rw later refl

  step_key :
      (fuel now nworks : ℕ) (d d' : Db Z) (t : HeapItem) (r : List HeapItem)
      → d.heap.items ≡ t ∷ r
      → ltb t.val now ≡ true
      → expire_key zset_clear d t.ref ≡ some (true, d')
      → expire_keys zset_clear (suc fuel) now nworks d
        ≡ after_key (expire_keys zset_clear fuel now) nworks (true, d')
  unfolding expire_keys expire_turn
  step_key fuel now nworks d d' t r e ended run = rw (e, expire_turn, ended, run) refl

  none_left :
      (now : ℕ) (d : Db Z) (t : HeapItem) (r : List HeapItem)
      → IsTimed d
      → d.heap.items ≡ t ∷ r
      → ltb t.val now ≡ false
      → count (λ u. ltb u.val now) d.heap.items ≡ 0
  none_left now d t r v e later =
      none_ended now (at d.heap.items 0).val d.heap.items
        (λ i p. root_least d.heap.items i v.heap.heap p)
        (omega (arith, not_ltb t.val now later, ap (λ a. (at a 0).val) e))

  abbrev Answer : ℕ → ℕ → Db Z → List (Chain ℕ) → List (Chain ℕ) → Option (Db Z) → Type 0
  Answer now left d nb ob o =
      (d' : Db Z) × (o ≡ some d')
      × ((nb' : List (Chain ℕ)) × (ob' : List (Chain ℕ)) × Processed now left d nb ob d' nb' ob')

  -- A turn, by what follows a deletion.
  turn-Processed :
      (left fuel now nworks : ℕ) (d : Db Z) (nb ob : List (Chain ℕ))
      → IsDb d nb ob
      → IsTimed d
      → ((t : HeapItem) (r : List HeapItem)
          → d.heap.items ≡ t ∷ r
          → ltb t.val now ≡ true
          → (d₁ : Db Z) (nb₁ ob₁ : List (Chain ℕ)) → Expired d nb ob t.ref d₁ nb₁ ob₁
          → Answer now left d nb ob (after_key (expire_keys zset_clear fuel now) nworks (true, d₁)))
      → Answer now left d nb ob (expire_keys zset_clear (suc fuel) now nworks d)
  turn-Processed left fuel now nworks d nb ob v t next = elim (List-cases d.heap.items) [
    | inl e ↦ (
      d,
      stop_none fuel now nworks d e,
      (nb, ob, same-Processed now left d nb ob v t (ap (λ a. count (λ u. ltb u.val now) a) e)),
    )
    | inr (u, r, e) ↦ elim (Bool-cases (ltb u.val now)) [
      | inr later ↦ (
        d,
        stop_later fuel now nworks d u r e later,
        (nb, ob, same-Processed now left d nb ob v t (none_left now d u r t e later)),
      )
      | inl ended ↦
          let (d₁, run, (nb₁, ob₁, s)) =
            expire_key-Expired zset_clear d nb ob u.ref v t
              (omega (arith, ap (λ a. count (is_owner u.ref) a) e, ap to_nat (==-same u.ref))) in
          let (d', go, w) = next u r e ended d₁ nb₁ ob₁ s in
          (d', step_key fuel now nworks d d₁ u r e ended run ∙ go, w)
    ]
  ]

  after_last :
      (loop : ℕ → Db Z → Option (Db Z)) (nworks : ℕ) (d : Db Z)
      → k_max_works ≤ nworks
      → after_key loop nworks (true, d) ≡ some d
  after_last loop nworks d le = ground (arith, le)

  after_more :
      (loop : ℕ → Db Z → Option (Db Z)) (nworks : ℕ) (d : Db Z)
      → nworks < k_max_works
      → after_key loop nworks (true, d) ≡ loop (nworks + 1) d
  after_more loop nworks d lt = ground (arith, lt)

  -- With fuel for the deletions that are left.
  expire_keys-Processed :
      (left fuel now nworks : ℕ) (d : Db Z) (nb ob : List (Chain ℕ))
      → IsDb d nb ob
      → IsTimed d
      → nworks + left ≡ k_max_works
      → left ≤ fuel
      → Answer now (suc left) d nb ob (expire_keys zset_clear (suc fuel) now nworks d)
  expire_keys-Processed zero fuel now nworks d nb ob v t works le =
      turn-Processed 1 fuel now nworks d nb ob v t (λ u r e ended d₁ nb₁ ob₁ s. (
        d₁,
        after_last (expire_keys zset_clear fuel now) nworks d₁ (omega (arith, works)),
        (nb₁, ob₁, last-Processed now d nb ob u r t e ended d₁ nb₁ ob₁ s),
      ))
  expire_keys-Processed (suc left) (suc fuel) now nworks d nb ob v t works le =
      turn-Processed (suc (suc left)) (suc fuel) now nworks d nb ob v t (λ u r e ended d₁ nb₁ ob₁ s.
        let (d', run, (nb', ob', w)) =
          expire_keys-Processed left fuel now (nworks + 1) d₁ nb₁ ob₁ s.valid s.timed
            (omega (arith, works)) (omega (arith, le)) in
        (
          d',
          after_more (expire_keys zset_clear (suc fuel) now) nworks d₁ (omega (arith, works)) ∙ run,
          (nb', ob', join-Processed now d nb ob u r t e ended d₁ nb₁ ob₁ s (suc left) d' nb' ob' w),
        ))
  expire_keys-Processed (suc left) zero now nworks d nb ob v t works le = absurd (omega (arith, le))

  -- On a valid database with valid timers, the second loop of `process_timers` ends without a fault,
  -- and both stay valid. Only entries are gone whose timers have ended, the entry of each timer that is
  -- gone is gone with it, all timers that have not ended are kept, and at most 2001 timers are gone; if
  -- fewer are, none that has ended is left.
  pub process_keys-Processed :
      (now : ℕ) (d : Db Z) (nb ob : List (Chain ℕ))
      → IsDb d nb ob
      → IsTimed d
      → (d' : Db Z) × (process_keys zset_clear now d ≡ some d')
        × ((nb' : List (Chain ℕ)) × (ob' : List (Chain ℕ)) × Processed now 2001 d nb ob d' nb' ob')
  unfolding process_keys
  process_keys-Processed now d nb ob v t =
      expire_keys-Processed k_max_works k_max_works now 0 d nb ob v t (omega arith) (omega arith)
