-- ===== src/Db/SetTimed.antt =====
-- `do_set` of server.cpp and the timers.
use redis_lite.Base.{
  ℕ, ◌<◌, ◌≡◌, ◌≢◌, inl, inr, ◌∙◌, sym, ap, List, none, some, ◌==◌, arith, count, count-get_or,
  length, Bool-cases, Returns,
}
use redis_lite.Bytes.{Str}
use redis_lite.HashTable.{HNode, Chain}
use redis_lite.HashTable.Insert.{hm_insert-Inserted}
use redis_lite.Heap.Order.{at, no_item}
use redis_lite.Heap.Links.{is_owner}
use redis_lite.Db.{Entry, Db, t_str, no_timer, str_hash, store}
use redis_lite.Db.Commands.{do_set}
use redis_lite.Db.Lookup.{IsDb, lookup_key-Found}
use redis_lite.Db.Store.{==-same, store-same, store-other, store-cases}
use redis_lite.Db.Set.{free-none}
use redis_lite.Db.Write.{set_add, set_update, set_refuse}
use redis_lite.Db.Timers.{IsTimed, same_bool}
use redis_lite.Db.Same.{IsTimed-same}
use redis_lite.Db.Dated.{not_both}

module _ {Z : Type 0} where
  -- Changing an entry that is there.
  pub update-IsTimed :
      (d : Db Z) (p : ℕ) (ent ent' : Entry Z)
      → IsTimed d
      → d.entries p ≡ some ent
      → IsTimed (record d { entries = store d.entries p (some ent') })
  update-IsTimed d p ent ent' v e = record {
    heap = v.heap;
    short = v.short;
    owned = λ q x f. elim (store-cases d.entries p q (some ent') (some x) f) [
      | inl (same, _) ↦ v.owned q ent (ap d.entries same ∙ e)
      | inr (off, g) ↦ v.owned q x g
    ];
    free = λ q x f. elim (store-cases d.entries p q (some ent') (some x) f) [
      | inl (same, _) ↦ v.free q ent (ap d.entries same ∙ e)
      | inr (off, g) ↦ v.free q x g
    ];
    held = λ q f. elim (store-cases d.entries p q (some ent') none f) [
      | inl (same, odd) ↦ absurd (not_both (sym odd))
      | inr (off, g) ↦ v.held q g
    ];
  }

  module _ (d : Db Z) (new : Entry Z) (v : IsTimed d) (free : d.entries d.fresh ≡ none) where
    abbrev idx' : ℕ → ℕ
    idx' = store d.heap.idx d.fresh no_timer

    ref_off : (i : ℕ) → i < length d.heap.items → (at d.heap.items i).ref ≢ d.fresh
    ref_off i lt e = absurd (
        omega (
          arith,
          v.held d.fresh free,
          count-get_or (is_owner d.fresh) d.heap.items i no_item lt
              (ap (λ r. r == d.fresh) e ∙ ==-same d.fresh),
        ))

    -- A new entry without a timer.
    pub added-IsTimed : IsTimed (record d {
      entries = store d.entries d.fresh (some new);
      heap = record d.heap { idx = idx' };
    })
    added-IsTimed = record {
      heap = record {
        heap = v.heap.heap;
        linked = λ i lt.
            store-other d.heap.idx d.fresh (at d.heap.items i).ref no_timer (ref_off i lt)
            ∙ v.heap.linked i lt;
      };
      short = v.short;
      owned = λ q x f has. elim (store-cases d.entries d.fresh q (some new) (some x) f) [
        | inl (same, _) ↦ absurd (
            same_bool
              (ap (λ i. i == no_timer) (ap idx' same ∙ store-same d.heap.idx d.fresh no_timer)) has)
        | inr (off, g) ↦
            let here = store-other d.heap.idx d.fresh q no_timer off in
            let (lt, ref) = v.owned q x g (sym (ap (λ i. i == no_timer) here) ∙ has) in
            (omega (arith, here, lt), ap (λ i. (at d.heap.items i).ref) here ∙ ref)
      ];
      free = λ q x f unset. elim (store-cases d.entries d.fresh q (some new) (some x) f) [
        | inl (same, _) ↦ ap (λ r. count (is_owner r) d.heap.items) same ∙ v.held d.fresh free
        | inr (off, g) ↦
            let here = store-other d.heap.idx d.fresh q no_timer off in
            v.free q x g (sym (ap (λ i. i == no_timer) here) ∙ unset)
      ];
      held = λ q f. elim (store-cases d.entries d.fresh q (some new) none f) [
        | inl (same, odd) ↦ absurd (not_both (sym odd))
        | inr (off, g) ↦ v.held q g
      ];
    }

  -- On a valid database with valid timers, `do_set` keeps the timers valid, and the heap of them is
  -- the same.
  pub do_set-IsTimed :
      (zset : Z) (d : Db Z) (nb ob : List (Chain ℕ)) (key val : Str) (out : List ℕ)
      → IsDb d nb ob
      → IsTimed d
      → Returns
          (λ (r : Db Z × List ℕ). IsTimed r.0 × (r.0.heap.items ≡ d.heap.items))
          (do_set zset d key val out)
  do_set-IsTimed zset d nb ob key val out v t =
      let ((o, d₁), run, (nb₁, ob₁, s)) = lookup_key-Found d nb ob key v in
      let t₁ = IsTimed-same d d₁ t s.entries s.heap in
      let same = ap (λ h. h.items) s.heap in
      elim s.answer [
        | inl (e, missing) ↦
            let node : HNode ℕ = record { hcode = str_hash key; item = d₁.fresh } in
            let (db, ins, _) = hm_insert-Inserted node s.valid.map in
            let w = added-IsTimed d₁ _ t₁ (free-none d₁ nb₁ ob₁ s.valid) in
            (
              _,
              set_add d d₁ zset key val out db (run ∙ ap (λ q. some (q, d₁)) e) ins,
              (
                record {
                  heap = w.heap;
                  short = w.short;
                  owned = w.owned;
                  free = w.free;
                  held = w.held;
                },
                same,
              ),
            )
        | inr (p, ent, e, (f, here), k) ↦
            let g : d₁.entries p ≡ some ent = ap (λ E. E p) s.entries ∙ f in
            let found = run ∙ ap (λ q. some (q, d₁)) e in
            elim (Bool-cases (ent.type == t_str)) [
              | inl is_str ↦ (
                _,
                set_update d d₁ zset key val out p ent found g is_str,
                (update-IsTimed d₁ p ent _ t₁ g, same),
              )
              | inr other ↦ (_, set_refuse d d₁ zset key val out p ent found g other, (t₁, same))
            ]
      ]
