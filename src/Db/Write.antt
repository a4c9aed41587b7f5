-- ===== src/Db/Write.antt =====
-- `do_set` of server.cpp, with its search for the key.
use redis_lite.Base.{
  ℕ, ◌≡◌, ◌≢◌, ◌⊎◌, inl, inr, refl, ◌∙◌, sym, ap, true, false, List, Option, none, some, ◌>>=◌,
  ◌==◌, arith, Bool-cases,
}
use redis_lite.Bytes.{Str}
use redis_lite.HashTable.{HNode, HMap, Chain, hm_insert}
use redis_lite.HashTable.Rehash.{SameNodes}
use redis_lite.HashTable.Lookup.{tally}
use redis_lite.HashTable.Insert.{hm_insert-Inserted}
use redis_lite.Reply.{out_nil, out_err, err_bad_typ}
use redis_lite.Db.{Entry, Db, t_str, str_hash, store, has_key, entry_eq, lookup_key}
use redis_lite.Db.Commands.{do_set, add_str, non_string_exists}
use redis_lite.Db.Unique.{counted, one_place}
use redis_lite.Db.Store.{==-true}
use mathlib.Core.Option.{some-injective}
use redis_lite.Db.Lookup.{IsDb, IsEntry, Found, lookup_key-Found}
use redis_lite.Db.Set.{HasValue, update-HasValue, added, added-HasValue}

module _ {Z : Type 0} where
  -- The key belongs to strings only and is set, or to an entry that is no string, and nothing changes.
  abbrev pub Wrote :
      Db Z
      → List (Chain ℕ)
      → List (Chain ℕ)
      → Str
      → Str
      → List ℕ
      → Db Z × List ℕ
      → List (Chain ℕ)
      → List (Chain ℕ)
      → Type 0
  Wrote d nb ob key val out r nb' ob' =
      (((q : ℕ) (x : Entry Z) → d.entries q ≡ some x → x.key ≡ key → x.type ≡ t_str)
        × HasValue d nb ob key val r.0 nb' ob'
        × (r.1 ≡ out_nil out))
      ⊎ ((p : ℕ) × (ent : Entry Z) × IsEntry d nb ob p ent
          × (ent.key ≡ key)
          × (ent.type ≢ t_str)
          × IsDb r.0 nb' ob'
          × SameNodes nb ob nb' ob'
          × (r.0.entries ≡ d.entries)
          × (r.1 ≡ out_err out err_bad_typ non_string_exists))

  -- Looking the key up first makes no difference.
  after_lookup :
      (d d₁ d' : Db Z) (nb ob nb₁ ob₁ nb' ob' : List (Chain ℕ)) (key val : Str) (o : Option ℕ)
      → Found d nb ob key (o, d₁) nb₁ ob₁
      → HasValue d₁ nb₁ ob₁ key val d' nb' ob'
      → HasValue d nb ob key val d' nb' ob'
  after_lookup d d₁ d' nb ob nb₁ ob₁ nb' ob' key val o s w = record {
    valid = w.valid;
    has = w.has;
    kept = λ q x other (f, here).
        w.kept q x other (ap (λ E. E q) s.entries ∙ f, omega (arith, s.same (λ n. n.item == q)));
    only = λ q x other g.
        let (f, here) = w.only q x other g in
        (sym (ap (λ E. E q) s.entries) ∙ f, omega (arith, s.same (λ n. n.item == q)));
  }

  pub set_add :
      (d d₁ : Db Z) (zset : Z) (key val : Str) (out : List ℕ) (db : HMap ℕ)
      → lookup_key d key ≡ some (none, d₁)
      → hm_insert d₁.db (record { hcode = str_hash key; item = d₁.fresh }) ≡ some db
      → do_set zset d key val out ≡ some (added d₁ zset key val db, out_nil out)
  unfolding do_set add_str
  set_add d d₁ zset key val out db e f = rw (e, ◌>>=◌, f) refl

  pub set_update :
      (d d₁ : Db Z) (zset : Z) (key val : Str) (out : List ℕ) (p : ℕ) (ent : Entry Z)
      → lookup_key d key ≡ some (some p, d₁)
      → d₁.entries p ≡ some ent
      → (ent.type == t_str) ≡ true
      → do_set zset d key val out
        ≡ some (
          record d₁ { entries = store d₁.entries p (some (record ent { str = val })) },
          out_nil out,
        )
  unfolding do_set
  set_update d d₁ zset key val out p ent e f t = rw (e, ◌>>=◌, f, t) refl

  pub set_refuse :
      (d d₁ : Db Z) (zset : Z) (key val : Str) (out : List ℕ) (p : ℕ) (ent : Entry Z)
      → lookup_key d key ≡ some (some p, d₁)
      → d₁.entries p ≡ some ent
      → (ent.type == t_str) ≡ false
      → do_set zset d key val out ≡ some (d₁, out_err out err_bad_typ non_string_exists)
  unfolding do_set
  set_refuse d d₁ zset key val out p ent e f t = rw (e, ◌>>=◌, f, t) refl

  -- On a valid database `do_set` does not fault, and the database stays valid. If an entry with the
  -- key is not a string, the entries are unchanged and the reply is an error; if all entries
  -- with the key are strings, the key has the value afterwards, the entries of all other keys are the
  -- same, and the reply is nil.
  pub do_set-Wrote :
      (zset : Z) (d : Db Z) (nb ob : List (Chain ℕ)) (key val : Str) (out : List ℕ)
      → IsDb d nb ob
      → (r : Db Z × List ℕ) × (do_set zset d key val out ≡ some r)
        × ((nb' : List (Chain ℕ)) × (ob' : List (Chain ℕ)) × Wrote d nb ob key val out r nb' ob')
  do_set-Wrote zset d nb ob key val out v =
      let ((o, d₁), run, (nb₁, ob₁, s)) = lookup_key-Found d nb ob key v in
      elim s.answer [
        | inl (e, missing) ↦
            let node : HNode ℕ = record { hcode = str_hash key; item = d₁.fresh } in
            let (db, ins, (nb₂, ob₂, w)) = hm_insert-Inserted node s.valid.map in
            let still : tally nb₁ ob₁ (entry_eq d₁ key) ≡ 0 =
              s.same (entry_eq d₁ key)
              ∙ ap (λ (E : ℕ → Option (Entry Z)). tally nb ob (λ n. has_key key (E n.item)))
                  s.entries
              ∙ missing in
            (
              (added d₁ zset key val db, out_nil out),
              set_add d d₁ zset key val out db (run ∙ ap (λ q. some (q, d₁)) e) ins,
              (
                nb₂,
                ob₂,
                inl (
                  λ q x f k.
                      let l = counted d nb ob q x (f, v.rooted q x f) in
                      absurd (omega (arith, l, ap (λ i. tally nb ob (entry_eq d i)) k, missing)),
                  after_lookup d d₁ _ nb ob nb₁ ob₁ nb₂ ob₂ key val o s
                      (added-HasValue d₁ nb₁ ob₁ zset key val db nb₂ ob₂ s.valid w still),
                  refl,
                ),
              ),
            )
        | inr (p, ent, e, (f, here), k) ↦
            let g : d₁.entries p ≡ some ent = ap (λ E. E p) s.entries ∙ f in
            let found = run ∙ ap (λ q. some (q, d₁)) e in
            elim (Bool-cases (ent.type == t_str)) [
              | inl t ↦ (
                _,
                set_update d d₁ zset key val out p ent found g t,
                (
                  nb₁,
                  ob₁,
                  inl (
                    λ q x h m.
                        let at =
                          one_place d nb ob p q ent x v (f, here) (h, v.rooted q x h) (m ∙ sym k) in
                        ap (λ (y : Entry Z). y.type)
                          (some-injective x ent (sym h ∙ sym (ap d.entries at) ∙ f))
                        ∙ ==-true ent.type t_str t,
                    after_lookup d d₁ _ nb ob nb₁ ob₁ nb₁ ob₁ key val o s (
                        update-HasValue d₁ nb₁ ob₁ key val p ent s.valid
                          (g, omega (arith, s.same (λ n. n.item == p))) k (ground (arith, t))),
                    refl,
                  ),
                ),
              )
              | inr t ↦ (
                (d₁, out_err out err_bad_typ non_string_exists),
                set_refuse d d₁ zset key val out p ent found g t,
                (
                  nb₁,
                  ob₁,
                  inr (p, ent, (f, here), k, ground (arith, t), s.valid, s.same, s.entries, refl),
                ),
              )
            ]
      ]
