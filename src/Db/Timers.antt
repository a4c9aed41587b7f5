-- ===== src/Db/Timers.antt =====
-- server.cpp: the timers of the database's entries, and `entry_del`.
use redis_lite.Base.{
  ℕ, ◌<◌, ◌≡◌, ◌≢◌, inl, inr, refl, ◌∙◌, sym, ap, Bool, true, false, none, some, ◌>>=◌, ◌==◌, arith,
  count, count-get_or, to_nat, length, Bool-cases, Returns,
}
use redis_lite.Heap.{HeapItem, HeapMem}
use redis_lite.Heap.Order.{at, no_item}
use redis_lite.Heap.Links.{is_owner}
use redis_lite.Ttl.Remove.{IsValid, Removed, heap_delete-Removed}
use redis_lite.Ttl.Owners.{linked_once, index_of, length-count}
use redis_lite.Db.{Entry, Db, no_timer, store, drop_timer, clear_zset, entry_del, t_zset}
use redis_lite.Db.Store.{
  ==-true, ==-false, ==-same, eq-cases, store-other, store-cases, store-again,
}

pub same_bool : {b : Bool} → b ≡ true → b ≡ false → ⊥
same_bool e f = cc

module _ {Z : Type 0} where
  -- The timers are valid; an entry without a timer has none, the index of any other is that of its
  -- timer, and each timer is that of an entry.
  pub record IsTimed (d : Db Z) : Type 0 where
    pub heap : IsValid d.heap
    pub short : length d.heap.items < no_timer
    pub owned :
        (p : ℕ) (ent : Entry Z)
        → d.entries p ≡ some ent
        → (d.heap.idx p == no_timer) ≡ false
        → (d.heap.idx p < length d.heap.items) × ((at d.heap.items (d.heap.idx p)).ref ≡ p)
    pub free :
        (p : ℕ) (ent : Entry Z)
        → d.entries p ≡ some ent
        → (d.heap.idx p == no_timer) ≡ true
        → count (is_owner p) d.heap.items ≡ 0
    pub held : (p : ℕ) → d.entries p ≡ none → count (is_owner p) d.heap.items ≡ 0

  -- The entry is freed, its timer is gone, and all other timers are kept.
  pub record Freed (d : Db Z) (p : ℕ) (d' : Db Z) : Type 0 where
    pub timed : IsTimed d'
    pub db : d'.db ≡ d.db
    pub entries : d'.entries ≡ store d.entries p none
    pub fresh : d'.fresh ≡ d.fresh
    pub timers :
        (f : HeapItem → Bool)
        → ((t : HeapItem) → t.ref ≡ p → f t ≡ false)
        → count f d'.heap.items ≡ count f d.heap.items

  free_untimed :
      (d : Db Z) (p : ℕ) (ent : Entry Z)
      → IsTimed d
      → d.entries p ≡ some ent
      → (d.heap.idx p == no_timer) ≡ true
      → Freed d p (record d { entries = store d.entries p none })
  free_untimed d p ent v e none_set = record {
    timed = record {
      heap = v.heap;
      short = v.short;
      owned = λ q x f. elim (store-cases d.entries p q none (some x) f) [
        | inl (same, odd) ↦ cc
        | inr (off, g) ↦ v.owned q x g
      ];
      free = λ q x f. elim (store-cases d.entries p q none (some x) f) [
        | inl (same, odd) ↦ cc
        | inr (off, g) ↦ v.free q x g
      ];
      held = λ q f. elim (eq-cases q p) [
        | inl same ↦ ap (λ r. count (is_owner r) d.heap.items) same ∙ v.free p ent e none_set
        | inr off ↦ v.held q (sym (store-other d.entries p q none off) ∙ f)
      ];
    };
    db = refl;
    entries = refl;
    fresh = refl;
    timers = λ f h. refl;
  }

  module _ (d : Db Z) (p : ℕ) (ent : Entry Z) (v : IsTimed d) (e : d.entries p ≡ some ent)
      (set : (d.heap.idx p == no_timer) ≡ false) (h : HeapMem)
      (s : Removed d.heap (at d.heap.items (d.heap.idx p)) h) where
    abbrev pub gone : HeapItem
    gone = at d.heap.items (d.heap.idx p)

    pub gone-ref : gone.ref ≡ p
    gone-ref = (v.owned p ent e set).1

    pub p_gone : count (is_owner p) h.items ≡ 0
    p_gone = omega (
      arith,
      s.rest (is_owner p),
      linked_once d.heap p v.heap.linked,
      ap to_nat (ap (λ r. r == p) gone-ref ∙ ==-same p),
    )

    pub others : (q : ℕ) → q ≢ p → count (is_owner q) h.items ≡ count (is_owner q) d.heap.items
    others q off = omega (
      arith,
      s.rest (is_owner q),
      ap to_nat (ap (λ r. r == q) gone-ref ∙ ==-false p q (λ f. off (sym f))),
    )

    abbrev pub idx' : ℕ → ℕ
    idx' = store h.idx p no_timer

    pub still_linked : (i : ℕ) → i < length h.items → idx' (at h.items i).ref ≡ i
    still_linked i q =
        store-other h.idx p (at h.items i).ref no_timer (λ f. absurd (
          omega (
            arith,
            p_gone,
            count-get_or (is_owner p) h.items i no_item q (ap (λ r. r == p) f ∙ ==-same p),
          )))
        ∙ s.valid.linked i q

    -- Another entry with a timer finds it.
    pub finds :
        (q : ℕ)
        → 0 < count (is_owner q) h.items
        → (idx' q < length h.items) × ((at h.items (idx' q)).ref ≡ q)
    finds q some_left =
        let (i, lt, own) = index_of (is_owner q) h.items some_left in
        let ref = ==-true (at h.items i).ref q own in
        let here : idx' q ≡ i = sym (ap idx' ref) ∙ still_linked i lt in
        (omega (arith, here, lt), ap (λ j. (at h.items j).ref) here ∙ ref)

    pub shorter : length h.items < no_timer
    shorter =
        omega (arith, v.short, s.rest (λ t. true), length-count h.items, length-count d.heap.items)

    -- An entry's other timers, by whether it had one.
    pub had :
        (q : ℕ) (x : Entry Z)
        → q ≢ p
        → d.entries q ≡ some x
        → (d.heap.idx q == no_timer) ≡ false
        → 0 < count (is_owner q) h.items
    had q x off f timed =
        let (lt, ref) = v.owned q x f timed in
        omega (
          arith,
          others q off,
          count-get_or (is_owner q) d.heap.items (d.heap.idx q) no_item lt
              (ap (λ r. r == q) ref ∙ ==-same q),
        )

    pub had_none :
        (q : ℕ) (x : Entry Z)
        → q ≢ p
        → d.entries q ≡ some x
        → (d.heap.idx q == no_timer) ≡ true
        → idx' q ≡ no_timer
    had_none q x off f timed =
        store-other h.idx p q no_timer off
        ∙ s.frame q (v.free q x f timed)
        ∙ ==-true (d.heap.idx q) no_timer timed

    free_timed :
        Freed d p (record d { heap = record h { idx = idx' }; entries = store d.entries p none })
    free_timed = record {
      timed = record {
        heap = record { heap = s.valid.heap; linked = still_linked };
        short = shorter;
        owned = λ q x f timed. elim (store-cases d.entries p q none (some x) f) [
          | inl (same, odd) ↦ cc
          | inr (off, g) ↦ elim (Bool-cases (d.heap.idx q == no_timer)) [
            | inl was ↦ absurd (same_bool (ap (λ i. i == no_timer) (had_none q x off g was)) timed)
            | inr was ↦ finds q (had q x off g was)
          ]
        ];
        free = λ q x f timed. elim (store-cases d.entries p q none (some x) f) [
          | inl (same, odd) ↦ cc
          | inr (off, g) ↦ elim (Bool-cases (d.heap.idx q == no_timer)) [
            | inl was ↦ others q off ∙ v.free q x g was
            | inr was ↦
                let (lt, ref) = finds q (had q x off g was) in
                absurd (omega (arith, lt, shorter, ==-true (idx' q) no_timer timed))
          ]
        ];
        held = λ q f. elim (eq-cases q p) [
          | inl same ↦ ap (λ r. count (is_owner r) h.items) same ∙ p_gone
          | inr off ↦ others q off ∙ v.held q (sym (store-other d.entries p q none off) ∙ f)
        ];
      };
      db = refl;
      entries = refl;
      fresh = refl;
      timers = λ f away. omega (arith, s.rest f, ap to_nat (away gone gone-ref));
    }

  -- A freed entry leaves nothing of its set.
  free_cleared :
      (zset_clear : Z → Z) (d : Db Z) (p : ℕ) (ent : Entry Z)
      → d.entries p ≡ some ent
      → (clear_zset zset_clear d p >>= λ d'. some (record d' { entries = store d'.entries p none }))
        ≡ some (record d { entries = store d.entries p none })
  unfolding clear_zset
  free_cleared zset_clear d p ent e = elim (Bool-cases (ent.type == t_zset)) [
    | inl is_set ↦
        rw (e, ◌>>=◌, is_set, ◌>>=◌)
          (ap (λ E. some (record d { entries = E })) (store-again d.entries p _ none))
    | inr other ↦ rw (e, ◌>>=◌, other, ◌>>=◌) refl
  ]

  -- `entry_del` of an allocated entry does not fault.
  pub entry_del-Freed :
      (zset_clear : Z → Z) (d : Db Z) (p : ℕ) (ent : Entry Z)
      → IsTimed d
      → d.entries p ≡ some ent
      → Returns (Freed d p) (entry_del zset_clear d p)
  unfolding entry_del drop_timer
  entry_del-Freed zset_clear d p ent v e = elim (Bool-cases (d.heap.idx p == no_timer)) [
    | inl none_set ↦
        (_, rw none_set (free_cleared zset_clear d p ent e), free_untimed d p ent v e none_set)
    | inr set ↦
        let (h, run, s) =
          heap_delete-Removed d.heap (d.heap.idx p) v.heap (v.owned p ent e set).0 in
        (
          _,
          rw (set, run)
              (free_cleared zset_clear
                (record d { heap = record h { idx = store h.idx p no_timer } }) p ent e),
          free_timed d p ent v e set h s,
        )
  ]
