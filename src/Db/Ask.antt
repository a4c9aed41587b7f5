-- ===== src/Db/Ask.antt =====
-- `do_ttl` of server.cpp.
use redis_lite.Base.{
  ℕ, ◌-◌, ◌<◌, ◌≡◌, ◌⊎◌, ◌^◌, inl, inr, refl, ◌∙◌, ap, true, false, List, none, some, ◌>>=◌, ◌==◌,
  ltb, if◌then◌else◌, arith, count, length, Bool-cases, get_elem?-get_or,
}
use redis_lite.Bytes.{Str}
use redis_lite.HashTable.{Chain}
use redis_lite.HashTable.Lookup.{tally}
use redis_lite.Heap.Order.{at, no_item}
use redis_lite.Heap.Links.{is_owner}
use redis_lite.Reply.{out_int}
use redis_lite.Db.{Entry, Db, no_timer, entry_eq, lookup_key}
use redis_lite.Db.Commands.{do_ttl}
use redis_lite.Db.Lookup.{IsDb, IsEntry, lookup_key-Found}
use redis_lite.Db.Timers.{IsTimed}

remaining : (now t : ℕ) → (if ltb now t then t - now else 0) ≡ t - now
remaining now t = ground arith

module _ {Z : Type 0} where
  -- The answer for the entry at `p`: -1 without a timer, or the time left of its timer.
  abbrev pub TimeLeft : ℕ → Db Z → ℕ → List ℕ → List ℕ → Type 0
  TimeLeft now d p out reply =
      ((count (is_owner p) d.heap.items ≡ 0) × (reply ≡ out_int out (2 ^ 64 - 1)))
      ⊎ ((i : ℕ) × (i < length d.heap.items)
          × ((at d.heap.items i).ref ≡ p)
          × (reply ≡ out_int out ((at d.heap.items i).val - now)))

  pub record Asked (now : ℕ) (d : Db Z) (nb ob : List (Chain ℕ)) (key : Str) (out : List ℕ)
      (r : Db Z × List ℕ) (nb' ob' : List (Chain ℕ)) : Type 0 where
    pub valid : IsDb r.0 nb' ob'
    pub entries : r.0.entries ≡ d.entries
    pub heap : r.0.heap ≡ d.heap
    pub reply :
        ((tally nb ob (entry_eq d key) ≡ 0) × (r.1 ≡ out_int out (2 ^ 64 - 2)))
        ⊎ ((p : ℕ) × (ent : Entry Z) × IsEntry d nb ob p ent
            × (ent.key ≡ key)
            × TimeLeft now d p out r.1)

  ttl_none :
      (now : ℕ) (d d' : Db Z) (key : Str) (out : List ℕ)
      → lookup_key d key ≡ some (none, d')
      → do_ttl now d key out ≡ some (d', out_int out (2 ^ 64 - 2))
  unfolding do_ttl
  ttl_none now d d' key out e = rw e refl

  ttl_unset :
      (now : ℕ) (d d' : Db Z) (key : Str) (out : List ℕ) (p : ℕ)
      → lookup_key d key ≡ some (some p, d')
      → (d'.heap.idx p == no_timer) ≡ true
      → do_ttl now d key out ≡ some (d', out_int out (2 ^ 64 - 1))
  unfolding do_ttl
  ttl_unset now d d' key out p e f = rw (e, ◌>>=◌, f) refl

  ttl_set :
      (now : ℕ) (d d' : Db Z) (key : Str) (out : List ℕ) (p : ℕ)
      → lookup_key d key ≡ some (some p, d')
      → (d'.heap.idx p == no_timer) ≡ false
      → d'.heap.idx p < length d'.heap.items
      → do_ttl now d key out ≡ some (d', out_int out ((at d'.heap.items (d'.heap.idx p)).val - now))
  unfolding do_ttl
  ttl_set now d d' key out p e f lt =
      rw (e, ◌>>=◌, f, get_elem?-get_or d'.heap.items (d'.heap.idx p) no_item lt)
        (ap (λ t. some (d', out_int out t)) (remaining now (at d'.heap.items (d'.heap.idx p)).val))

  -- On a valid database with valid timers `do_ttl` does not fault, the database stays valid, and its
  -- entries and timers are the same. The reply is -2 if no entry has the key; otherwise, for an entry
  -- with the key, -1 if it has no timer, and else the time that is left of its timer, at least 0.
  pub do_ttl-Asked :
      (now : ℕ) (d : Db Z) (nb ob : List (Chain ℕ)) (key : Str) (out : List ℕ)
      → IsDb d nb ob
      → IsTimed d
      → (r : Db Z × List ℕ) × (do_ttl now d key out ≡ some r)
        × ((nb' : List (Chain ℕ)) × (ob' : List (Chain ℕ)) × Asked now d nb ob key out r nb' ob')
  do_ttl-Asked now d nb ob key out v t =
      let ((o, d'), run, (nb', ob', s)) = lookup_key-Found d nb ob key v in
      elim s.answer [
        | inl (e, missing) ↦ (
          (d', out_int out (2 ^ 64 - 2)),
          ttl_none now d d' key out (run ∙ ap (λ q. some (q, d')) e),
          (
            nb',
            ob',
            record {
              valid = s.valid;
              entries = s.entries;
              heap = s.heap;
              reply = inl (missing, refl);
            },
          ),
        )
        | inr (p, ent, e, here, k) ↦
            let found = run ∙ ap (λ q. some (q, d')) e in
            let idx : d'.heap.idx p ≡ d.heap.idx p = ap (λ h. h.idx p) s.heap in
            elim (Bool-cases (d.heap.idx p == no_timer)) [
              | inl f ↦ (
                (d', out_int out (2 ^ 64 - 1)),
                ttl_unset now d d' key out p found (ap (λ i. i == no_timer) idx ∙ f),
                (
                  nb',
                  ob',
                  record {
                    valid = s.valid;
                    entries = s.entries;
                    heap = s.heap;
                    reply = inr (p, ent, here, k, inl (t.free p ent here.0 f, refl));
                  },
                ),
              )
              | inr f ↦
                  let (lt, ref) = t.owned p ent here.0 f in
                  let i = d.heap.idx p in
                  (
                    (d', out_int out ((at d'.heap.items (d'.heap.idx p)).val - now)),
                    ttl_set now d d' key out p found (ap (λ i. i == no_timer) idx ∙ f)
                        (omega (arith, idx, ap (λ h. length h.items) s.heap, lt)),
                    (
                      nb',
                      ob',
                      record {
                        valid = s.valid;
                        entries = s.entries;
                        heap = s.heap;
                        reply = inr (
                          p,
                          ent,
                          here,
                          k,
                          inr (
                            i,
                            lt,
                            ref,
                            ap (λ h. out_int out ((at h.items (h.idx p)).val - now)) s.heap,
                          ),
                        );
                      },
                    ),
                  )
            ]
      ]
