-- ===== src/Db/Expiring.antt =====
-- `do_expire` of server.cpp.
use redis_lite.Base.{
  ℕ, ◌+◌, ◌<◌, ◌≡◌, ◌⊎◌, inl, inr, refl, ◌∙◌, ap, Bool, false, List, none, some, ◌>>=◌, arith,
  count, length, Option-cases,
}
use redis_lite.Bytes.{Str}
use redis_lite.Number.{str2int}
use redis_lite.HashTable.{Chain}
use redis_lite.HashTable.Lookup.{tally}
use redis_lite.Heap.{HeapItem}
use redis_lite.Reply.{out_int, out_err, err_bad_arg}
use redis_lite.Db.{Entry, Db, no_timer, entry_eq, lookup_key, entry_set_ttl}
use redis_lite.Db.Commands.{do_expire, expect_int64}
use redis_lite.Db.Lookup.{IsDb, IsEntry, lookup_key-Found}
use redis_lite.Db.Timers.{IsTimed}
use redis_lite.Db.Same.{IsTimed-same, IsDb-same}
use redis_lite.Db.Dated.{HasTimer}
use redis_lite.Db.SetTtl.{entry_set_ttl-Dated}

module _ {Z : Type 0} where
  -- What `do_expire` leaves: the database and its entries as they were, and the deadline set for the
  -- entry with the key, if there is one and the number can be read.
  pub record Expiring (now : ℕ) (d : Db Z) (nb ob : List (Chain ℕ)) (key ttl : Str) (out : List ℕ)
      (r : Db Z × List ℕ) (nb' ob' : List (Chain ℕ)) : Type 0 where
    pub valid : IsDb r.0 nb' ob'
    pub timed : IsTimed r.0
    pub entries : r.0.entries ≡ d.entries
    pub outcome :
        ((str2int ttl ≡ none) × (r.1 ≡ out_err out err_bad_arg expect_int64) × (r.0.heap ≡ d.heap))
        ⊎ (((ttl_ms : ℕ) × (str2int ttl ≡ some ttl_ms)
              × (tally nb ob (entry_eq d key) ≡ 0)
              × (r.1 ≡ out_int out 0)
              × (r.0.heap ≡ d.heap))
            ⊎ ((ttl_ms p : ℕ) × (ent : Entry Z) × (str2int ttl ≡ some ttl_ms)
                × IsEntry d nb ob p ent
                × (ent.key ≡ key)
                × HasTimer r.0.heap.items now p ttl_ms
                × ((f : HeapItem → Bool)
                    → ((t : HeapItem) → t.ref ≡ p → f t ≡ false)
                    → count f r.0.heap.items ≡ count f d.heap.items)
                × (r.1 ≡ out_int out 1)))

  expire_bad :
      (now : ℕ) (d : Db Z) (key ttl : Str) (out : List ℕ)
      → str2int ttl ≡ none
      → do_expire now d key ttl out ≡ some (d, out_err out err_bad_arg expect_int64)
  unfolding do_expire
  expire_bad now d key ttl out e = rw (do_expire, e) refl

  expire_none :
      (now ttl_ms : ℕ) (d d' : Db Z) (key ttl : Str) (out : List ℕ)
      → str2int ttl ≡ some ttl_ms
      → lookup_key d key ≡ some (none, d')
      → do_expire now d key ttl out ≡ some (d', out_int out 0)
  unfolding do_expire
  expire_none now ttl_ms d d' key ttl out e f = rw (do_expire, e, f) refl

  expire_some :
      (now ttl_ms p : ℕ) (d d₁ d' : Db Z) (key ttl : Str) (out : List ℕ)
      → str2int ttl ≡ some ttl_ms
      → lookup_key d key ≡ some (some p, d₁)
      → entry_set_ttl now d₁ p ttl_ms ≡ some d'
      → do_expire now d key ttl out ≡ some (d', out_int out 1)
  unfolding do_expire
  expire_some now ttl_ms p d d₁ d' key ttl out e f g = rw (do_expire, e, f, ◌>>=◌, g) refl

  -- On a valid database with valid timers and room for one more, `do_expire` does not fault, both
  -- stay valid and the entries are the same. If the number cannot be read, the reply is an error, and
  -- if it can and no entry has the key the reply is 0, and in both cases the timers are the same;
  -- otherwise, for an entry with the
  -- key, the reply is 1 and its timer is gone if the number is negative, else it ends so many
  -- milliseconds from now; the timers of all other entries are the same.
  pub do_expire-Expiring :
      (now : ℕ) (d : Db Z) (nb ob : List (Chain ℕ)) (key ttl : Str) (out : List ℕ)
      → IsDb d nb ob
      → IsTimed d
      → length d.heap.items + 1 < no_timer
      → (r : Db Z × List ℕ) × (do_expire now d key ttl out ≡ some r)
        × ((nb' : List (Chain ℕ)) × (ob' : List (Chain ℕ)) × Expiring now d nb ob key ttl out r nb'
              ob')
  do_expire-Expiring now d nb ob key ttl out v t room = elim (Option-cases (str2int ttl)) [
    | inl bad ↦ (
      (d, out_err out err_bad_arg expect_int64),
      expire_bad now d key ttl out bad,
      (nb, ob, record { valid = v; timed = t; entries = refl; outcome = inl (bad, refl, refl) }),
    )
    | inr (ttl_ms, good) ↦
        let ((o, d₁), run, (nb', ob', s)) = lookup_key-Found d nb ob key v in
        let t₁ = IsTimed-same d d₁ t s.entries s.heap in
        elim s.answer [
          | inl (e, missing) ↦ (
            (d₁, out_int out 0),
            expire_none now ttl_ms d d₁ key ttl out good (run ∙ ap (λ q. some (q, d₁)) e),
            (
              nb',
              ob',
              record {
                valid = s.valid;
                timed = t₁;
                entries = s.entries;
                outcome = inr (inl (ttl_ms, good, missing, refl, s.heap));
              },
            ),
          )
          | inr (p, ent, e, here, k) ↦
              let (d₂, set, w) =
                entry_set_ttl-Dated now d₁ p ttl_ms ent t₁ (ap (λ E. E p) s.entries ∙ here.0)
                  (omega (arith, room, ap (λ h. length h.items) s.heap)) in
              (
                (d₂, out_int out 1),
                expire_some now ttl_ms p d d₁ d₂ key ttl out good (run ∙ ap (λ q. some (q, d₁)) e)
                    set,
                (
                  nb',
                  ob',
                  record {
                    valid = IsDb-same d₁ d₂ nb' ob' s.valid w.db w.entries w.fresh;
                    timed = w.timed;
                    entries = w.entries ∙ s.entries;
                    outcome = inr (
                        inr (
                          ttl_ms,
                          p,
                          ent,
                          good,
                          here,
                          k,
                          w.timer,
                          λ f away. w.timers f away ∙ ap (λ h. count f h.items) s.heap,
                          refl,
                        ));
                  },
                ),
              )
        ]
  ]
