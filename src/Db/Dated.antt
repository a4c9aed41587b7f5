-- ===== src/Db/Dated.antt =====
-- `entry_set_ttl` of server.cpp.
use redis_lite.Base.{
  ℕ, ◌+◌, ◌%◌, ◌^◌, ◌<◌, ◌≡◌, ◌≢◌, ◌⊎◌, inl, inr, ◌∙◌, sym, ap, Bool, true, false, List, none, some,
  ◌==◌, ◌&&◌, leb, arith, count, count-get_or, length, Bool-cases,
}
use redis_lite.Heap.{HeapItem, HeapMem}
use redis_lite.Heap.Order.{at, no_item}
use redis_lite.Heap.Links.{is_owner}
use redis_lite.Ttl.Remove.{Removed}
use redis_lite.Ttl.Upsert.{Updated}
use redis_lite.Ttl.Owners.{index_of, length-count}
use redis_lite.Db.{Entry, Db, no_timer, store}
use redis_lite.Db.Store.{==-true, ==-false, ==-same, eq-cases, store-same}
use redis_lite.Db.Timers.{
  IsTimed, same_bool, idx', p_gone, others, still_linked, finds, shorter, had, had_none,
}

-- A timer of `p` that ends at `val`.
abbrev pub is_timer : ℕ → ℕ → HeapItem → Bool
is_timer p val t = is_owner p t && t.val == val

-- Of the owner's timers there is one, at the given time; or there is none.
abbrev pub HasTimer : List HeapItem → ℕ → ℕ → ℕ → Type 0
HasTimer items now p ttl_ms =
    ((leb (2 ^ 63) ttl_ms ≡ true) × (count (is_owner p) items ≡ 0))
    ⊎ ((leb (2 ^ 63) ttl_ms ≡ false)
        × (count (is_owner p) items ≡ 1)
        × (0 < count (is_timer p ((now + ttl_ms) % 2 ^ 64)) items))

pub owner_away : (p q : ℕ) → q ≢ p → (t : HeapItem) → t.ref ≡ p → is_owner q t ≡ false
owner_away p q off t e = ap (λ r. r == q) e ∙ ==-false p q (λ f. off (sym f))

pub not_both {ℓ} : {A : Type ℓ} {a : A} → none ≡ some a → ⊥
not_both e = cc

module _ {Z : Type 0} where
  -- The entry's timer is set or removed; the timers of all others are the same.
  pub record Dated (now : ℕ) (d : Db Z) (p ttl_ms : ℕ) (d' : Db Z) : Type 0 where
    pub timed : IsTimed d'
    pub db : d'.db ≡ d.db
    pub entries : d'.entries ≡ d.entries
    pub fresh : d'.fresh ≡ d.fresh
    pub timer : HasTimer d'.heap.items now p ttl_ms
    pub timers :
        (f : HeapItem → Bool)
        → ((t : HeapItem) → t.ref ≡ p → f t ≡ false)
        → count f d'.heap.items ≡ count f d.heap.items

  -- The vector `c` has one timer of `p`, and those of the others as they were.
  pub record IsRevised (d : Db Z) (p : ℕ) (c : List HeapItem) : Type 0 where
    pub one : count (is_owner p) c ≡ 1
    pub rest :
        (f : HeapItem → Bool)
        → ((t : HeapItem) → t.ref ≡ p → f t ≡ false)
        → count f c ≡ count f d.heap.items
    pub short : length c < no_timer

  module _ (d : Db Z) (p : ℕ) (ent : Entry Z) (v : IsTimed d) (e : d.entries p ≡ some ent)
      (c : List HeapItem) (r : IsRevised d p c) (h : HeapMem) (s : Updated d.heap c h) where
    kept_count : (q : ℕ) → q ≢ p → count (is_owner q) h.items ≡ count (is_owner q) d.heap.items
    kept_count q off = s.same (is_owner q) ∙ r.rest (is_owner q) (owner_away p q off)

    short_heap : length h.items < no_timer
    short_heap = omega (arith, s.same (λ t. true), length-count h.items, length-count c, r.short)

    finds_timer :
        (q : ℕ)
        → 0 < count (is_owner q) h.items
        → (h.idx q < length h.items) × ((at h.items (h.idx q)).ref ≡ q)
    finds_timer q some_left =
        let (i, lt, own) = index_of (is_owner q) h.items some_left in
        let ref = ==-true (at h.items i).ref q own in
        let here : h.idx q ≡ i = sym (ap h.idx ref) ∙ s.valid.linked i lt in
        (omega (arith, here, lt), ap (λ j. (at h.items j).ref) here ∙ ref)

    -- An entry has a timer, or none, and its index says so.
    timer-cases :
        (q : ℕ) (x : Entry Z)
        → d.entries q ≡ some x
        → (0 < count (is_owner q) h.items)
          ⊎ ((count (is_owner q) h.items ≡ 0) × (h.idx q ≡ no_timer))
    timer-cases q x f = elim (eq-cases q p) [
      | inl same ↦
          inl (omega (arith, ap (λ o. count (is_owner o) h.items) same, s.same (is_owner p), r.one))
      | inr off ↦ elim (Bool-cases (d.heap.idx q == no_timer)) [
        | inl was ↦
            let none_left = r.rest (is_owner q) (owner_away p q off) ∙ v.free q x f was in
            inr (
              s.same (is_owner q) ∙ none_left,
              s.frame q none_left ∙ ==-true (d.heap.idx q) no_timer was,
            )
        | inr was ↦
            let (lt, ref) = v.owned q x f was in
            inl (
              omega (
                arith,
                kept_count q off,
                count-get_or (is_owner q) d.heap.items (d.heap.idx q) no_item lt
                    (ap (λ o. o == q) ref ∙ ==-same q),
              ))
      ]
    ]

    pub revised-IsTimed : IsTimed (record d { heap = h })
    revised-IsTimed = record {
      heap = s.valid;
      short = short_heap;
      owned = λ q x f set. elim (timer-cases q x f) [
        | inl some_left ↦ finds_timer q some_left
        | inr (none_left, unset) ↦ absurd (same_bool (ap (λ i. i == no_timer) unset) set)
      ];
      free = λ q x f unset. elim (timer-cases q x f) [
        | inl some_left ↦ absurd (
            omega
              (arith, (finds_timer q some_left).0, short_heap, ==-true (h.idx q) no_timer unset))
        | inr (none_left, _) ↦ none_left
      ];
      held = λ q f. elim (eq-cases q p) [
        | inl same ↦ absurd (not_both (sym f ∙ ap d.entries same ∙ e))
        | inr off ↦ kept_count q off ∙ v.held q f
      ];
    }

  -- The entry keeps its place among the others when its timer goes.
  module _ (d : Db Z) (p : ℕ) (ent : Entry Z) (v : IsTimed d) (e : d.entries p ≡ some ent)
      (set : (d.heap.idx p == no_timer) ≡ false) (h : HeapMem)
      (s : Removed d.heap (at d.heap.items (d.heap.idx p)) h) where
    unset_index : idx' d p ent v e set h s p ≡ no_timer
    unset_index = store-same h.idx p no_timer

    pub dropped-IsTimed : IsTimed (record d { heap = record h { idx = store h.idx p no_timer } })
    dropped-IsTimed = record {
      heap = record { heap = s.valid.heap; linked = still_linked d p ent v e set h s };
      short = shorter d p ent v e set h s;
      owned = λ q x f timed. elim (eq-cases q p) [
        | inl same ↦ absurd (
            same_bool (ap (λ i. i == no_timer) (ap (store h.idx p no_timer) same ∙ unset_index))
              timed)
        | inr off ↦ elim (Bool-cases (d.heap.idx q == no_timer)) [
          | inl was ↦ absurd (
              same_bool (ap (λ i. i == no_timer) (had_none d p ent v e set h s q x off f was))
                timed)
          | inr was ↦ finds d p ent v e set h s q (had d p ent v e set h s q x off f was)
        ]
      ];
      free = λ q x f timed. elim (eq-cases q p) [
        | inl same ↦ ap (λ r. count (is_owner r) h.items) same ∙ p_gone d p ent v e set h s
        | inr off ↦ elim (Bool-cases (d.heap.idx q == no_timer)) [
          | inl was ↦ others d p ent v e set h s q off ∙ v.free q x f was
          | inr was ↦
              let (lt, ref) = finds d p ent v e set h s q (had d p ent v e set h s q x off f was) in
              absurd (
                omega (
                  arith,
                  lt,
                  shorter d p ent v e set h s,
                  ==-true (store h.idx p no_timer q) no_timer timed,
                ))
        ]
      ];
      held = λ q f. elim (eq-cases q p) [
        | inl same ↦ absurd (not_both (sym f ∙ ap d.entries same ∙ e))
        | inr off ↦ others d p ent v e set h s q off ∙ v.held q f
      ];
    }
