-- ===== src/Db/SetTtl.antt =====
-- `entry_set_ttl` of server.cpp.
use redis_lite.Base.{
  ℕ, ◌+◌, ◌%◌, ◌^◌, ◌<◌, ◌≡◌, inl, inr, refl, ◌∙◌, ap, Bool, true, false, List, [], ◌∷◌, ◌++◌, some,
  ◌==◌, leb, arith, count, count-append, count-set, count-get_or, set, to_nat, length, length-set,
  length-append, Bool-cases, Returns,
}
use redis_lite.Heap.{HeapItem, HeapMem}
use redis_lite.Heap.Order.{at, no_item}
use redis_lite.Heap.Links.{is_owner}
use redis_lite.Ttl.Remove.{heap_delete-Removed}
use redis_lite.Ttl.Upsert.{Updated, heap_upsert-Updated, heap_upsert-Updated_new}
use redis_lite.Ttl.Owners.{linked_once}
use redis_lite.Db.{Entry, Db, no_timer, drop_timer, entry_set_ttl}
use redis_lite.Db.Store.{==-true, ==-same}
use redis_lite.Db.Timers.{IsTimed, gone-ref, p_gone}
use redis_lite.Db.Dated.{is_timer, Dated, IsRevised, revised-IsTimed, dropped-IsTimed}

abbrev timer : ℕ → ℕ → HeapItem
timer val p = record { val = val; ref = p }

is_timer-timer : (val p : ℕ) → is_timer p val (timer val p) ≡ true
is_timer-timer val p = ground arith

-- What is written into a vector is in it.
count-set_new :
    (f : HeapItem → Bool) (a : List HeapItem) (i : ℕ) (t : HeapItem)
    → i < length a
    → f t ≡ true
    → 0 < count f (set a i t)
count-set_new f a i t lt e = elim (Bool-cases (f (at a i))) [
  | inl old ↦ omega (
    arith,
    count-set f a i t no_item lt,
    count-get_or f a i no_item lt old,
    ap to_nat e,
    ap to_nat old,
  )
  | inr other ↦ omega (arith, count-set f a i t no_item lt, ap to_nat e, ap to_nat other)
]

module _ {Z : Type 0} where
  module _ (now : ℕ) (d : Db Z) (p ttl_ms : ℕ) (ent : Entry Z) (v : IsTimed d)
      (e : d.entries p ≡ some ent) where
    abbrev new : HeapItem
    new = timer ((now + ttl_ms) % 2 ^ 64) p

    -- Whichever vector the timer is written into, the entry is dated.
    revised-Dated :
        (c : List HeapItem) (h : HeapMem)
        → leb (2 ^ 63) ttl_ms ≡ false
        → IsRevised d p c
        → 0 < count (is_timer p ((now + ttl_ms) % 2 ^ 64)) c
        → Updated d.heap c h
        → Dated now d p ttl_ms (record d { heap = h })
    revised-Dated c h positive r timed s = record {
      timed = revised-IsTimed d p ent v e c r h s;
      db = refl;
      entries = refl;
      fresh = refl;
      timer = inr (
        positive,
        s.same (is_owner p) ∙ r.one,
        omega (arith, timed, s.same (is_timer p ((now + ttl_ms) % 2 ^ 64))),
      );
      timers = λ f away. s.same f ∙ r.rest f away;
    }

    -- The vector with the entry's timer replaced, or with one more.
    replaced-IsRevised :
        (d.heap.idx p == no_timer) ≡ false → IsRevised d p (set d.heap.items (d.heap.idx p) new)
    replaced-IsRevised has =
        let (lt, ref) = v.owned p ent e has in
        let counts =
          λ (f : HeapItem → Bool). count-set f d.heap.items (d.heap.idx p) new no_item lt in
        record {
          one = omega (
            arith,
            counts (is_owner p),
            linked_once d.heap p v.heap.linked,
            ap to_nat (ap (λ r. r == p) ref ∙ ==-same p),
            ap to_nat (==-same p),
            count-get_or (is_owner p) d.heap.items (d.heap.idx p) no_item lt
                (ap (λ r. r == p) ref ∙ ==-same p),
          );
          rest = λ f away. omega (
            arith,
            counts f,
            ap to_nat (away (at d.heap.items (d.heap.idx p)) ref),
            ap to_nat (away new refl),
          );
          short = omega (arith, v.short, length-set d.heap.items (d.heap.idx p) new);
        }

    added-IsRevised :
        (d.heap.idx p == no_timer) ≡ true
        → length d.heap.items + 1 < no_timer
        → IsRevised d p (d.heap.items ++ new ∷ [])
    added-IsRevised unset room =
        let counts = λ (f : HeapItem → Bool). count-append f d.heap.items (new ∷ []) in
        record {
          one = omega (arith, counts (is_owner p), v.free p ent e unset, ap to_nat (==-same p));
          rest = λ f away. omega (arith, counts f, ap to_nat (away new refl));
          short = omega (arith, length-append d.heap.items (new ∷ []), room);
        }

    -- `entry_set_ttl` of an entry, while there is room for one more timer.
    pub entry_set_ttl-Dated :
        length d.heap.items + 1 < no_timer
        → Returns (Dated now d p ttl_ms) (entry_set_ttl now d p ttl_ms)
    unfolding entry_set_ttl drop_timer
    entry_set_ttl-Dated room = elim (Bool-cases (leb (2 ^ 63) ttl_ms)) [
      | inl negative ↦ rw negative (elim (Bool-cases (d.heap.idx p == no_timer)) [
        | inl unset ↦ rw unset (
          d,
          refl,
          record {
            timed = v;
            db = refl;
            entries = refl;
            fresh = refl;
            timer = inl (negative, v.free p ent e unset);
            timers = λ f away. refl;
          },
        )
        | inr has ↦
            let (h, run, s) =
              heap_delete-Removed d.heap (d.heap.idx p) v.heap (v.owned p ent e has).0 in
            rw (has, run)
              (
                _,
                refl,
                record {
                  timed = dropped-IsTimed d p ent v e has h s;
                  db = refl;
                  entries = refl;
                  fresh = refl;
                  timer = inl (negative, p_gone d p ent v e has h s);
                  timers = λ f away. omega (
                    arith,
                    s.rest f,
                    ap to_nat
                        (away (at d.heap.items (d.heap.idx p)) (gone-ref d p ent v e has h s)),
                  );
                },
              )
      ])
      | inr positive ↦ rw positive (elim (Bool-cases (d.heap.idx p == no_timer)) [
        | inl unset ↦
            let (h, run, s) =
              heap_upsert-Updated_new d.heap (d.heap.idx p) new v.heap
                (omega (arith, v.short, ==-true (d.heap.idx p) no_timer unset))
                (v.free p ent e unset) in
            rw run (
              _,
              refl,
              revised-Dated _ h positive (added-IsRevised unset room)
                  (omega (
                    arith,
                    count-append (is_timer p ((now + ttl_ms) % 2 ^ 64)) d.heap.items (new ∷ []),
                    ap to_nat (is_timer-timer ((now + ttl_ms) % 2 ^ 64) p),
                  ))
                  s,
            )
        | inr has ↦
            let (lt, ref) = v.owned p ent e has in
            let (h, run, s) = heap_upsert-Updated d.heap (d.heap.idx p) new v.heap lt ref in
            rw run (
              _,
              refl,
              revised-Dated _ h positive (replaced-IsRevised has)
                  (count-set_new (is_timer p ((now + ttl_ms) % 2 ^ 64)) d.heap.items (d.heap.idx p)
                    new lt (is_timer-timer ((now + ttl_ms) % 2 ^ 64) p))
                  s,
            )
      ])
    ]
