-- ===== src/Dispatch/Overwrite.antt =====
-- server.cpp: what `do_set` keeps.
use redis_lite.Base.{
  ℕ, ◌≡◌, ◌⊎◌, inl, inr, refl, ◌∙◌, sym, ap, List, Option, some, ◌==◌, Bool-cases, Returns,
}
use mathlib.Core.Option.{some-injective}
use mathlib.Core.Path.{subst}
use redis_lite.Base.Memory.{store-cases}
use redis_lite.Bytes.{Str}
use redis_lite.HashTable.{HNode, Chain}
use redis_lite.HashTable.Insert.{hm_insert-Inserted}
use redis_lite.Db.{Entry, Db, t_str, str_hash}
use redis_lite.Db.Commands.{do_set}
use redis_lite.Db.Lookup.{IsDb, lookup_key-Found}
use redis_lite.Db.Timers.{IsTimed}
use redis_lite.Db.Write.{do_set-Wrote, set_add, set_update, set_refuse}
use redis_lite.Db.SetTimed.{do_set-IsTimed}
use redis_lite.ZSet.{ZSet}
use redis_lite.Dispatch.Sets.{empty_zset}
use redis_lite.Dispatch.Safe.{IsSafe, IsSomeZSet, KeepsSafe, empty-IsSomeZSet}

-- Every entry's sorted set is the given one or was an entry's before.
do_set-sets :
    (zset : ZSet) (d : Db ZSet) (nb ob : List (Chain ℕ)) (key val : Str) (out : List ℕ)
    → IsDb d nb ob
    → Returns
        (λ (r : Db ZSet × List ℕ).
          (q : ℕ) (x : Entry ZSet)
          → r.0.entries q ≡ some x
          → (x.zset ≡ zset) ⊎ ((ent : Entry ZSet) × (d.entries q ≡ some ent) × (ent.zset ≡ x.zset)))
        (do_set zset d key val out)
do_set-sets zset d nb ob key val out v =
    let ((o, d₁), run, (nb₁, ob₁, s)) = lookup_key-Found d nb ob key v in
    let old = λ (q : ℕ). ap (λ E. E q) (sym s.entries) in
    elim s.answer [
      | inl (e, missing) ↦
          let node : HNode ℕ = record { hcode = str_hash key; item = d₁.fresh } in
          let (db, ins, _) = hm_insert-Inserted node s.valid.map in
          (
            _,
            set_add d d₁ zset key val out db (run ∙ ap (λ q. some (q, d₁)) e) ins,
            λ q x f. elim (store-cases d₁.entries d₁.fresh q _ (some x) f) [
              | inl (_, same) ↦
                  inl (ap (λ (y : Entry ZSet). y.zset) (sym (some-injective _ x same)))
              | inr (_, g) ↦ inr (x, old q ∙ g, refl)
            ],
          )
      | inr (p, ent, e, (f, here), k) ↦
          let g : d₁.entries p ≡ some ent = ap (λ E. E p) s.entries ∙ f in
          let found = run ∙ ap (λ q. some (q, d₁)) e in
          elim (Bool-cases (ent.type == t_str)) [
            | inl is_str ↦ (
              _,
              set_update d d₁ zset key val out p ent found g is_str,
              λ q x h. elim (store-cases d₁.entries p q _ (some x) h) [
                | inl (at_p, same) ↦ inr (
                  ent,
                  ap d.entries at_p ∙ f,
                  ap (λ (y : Entry ZSet). y.zset)
                      (some-injective (record ent { str = val }) x same),
                )
                | inr (_, i) ↦ inr (x, old q ∙ i, refl)
              ],
            )
            | inr other ↦ (
              _,
              set_refuse d d₁ zset key val out p ent found g other,
              λ q x h. inr (x, old q ∙ h, refl),
            )
          ]
    ]

Returns-same :
    {A : Type 0} {o : Option A} (B : A → Type 0) (a b : A) → o ≡ some a → o ≡ some b → B b → B a
Returns-same B a b e f x = subst B (some-injective b a (sym f ∙ e)) x

pub set-KeepsSafe :
    (d : Db ZSet) (key val : Str) (out : List ℕ)
    → IsSafe d
    → Returns KeepsSafe (do_set empty_zset d key val out)
set-KeepsSafe d key val out v =
    let (r, run, (nb, ob, w)) = do_set-Wrote empty_zset d v.nb v.ob key val out v.db in
    let (r₁, run₁, t) = do_set-IsTimed empty_zset d v.nb v.ob key val out v.db v.timed in
    let (r₂, run₂, s) = do_set-sets empty_zset d v.nb v.ob key val out v.db in
    let sets =
      Returns-same
        (λ (x : Db ZSet × List ℕ).
          (q : ℕ) (y : Entry ZSet)
          → x.0.entries q ≡ some y
          → (y.zset ≡ empty_zset)
            ⊎ ((ent : Entry ZSet) × (d.entries q ≡ some ent) × (ent.zset ≡ y.zset)))
        r r₂ run run₂ s in
    (
      r,
      run,
      record {
        nb = nb;
        ob = ob;
        db = elim w [ inl (_, h, _) ↦ h.valid | inr (_, _, _, _, _, h, _, _, _) ↦ h ];
        timed = Returns-same (λ (x : Db ZSet × List ℕ). IsTimed x.0) r r₁ run run₁ t.0;
        sets = λ q y f. elim (sets q y f) [
          | inl same ↦ subst IsSomeZSet (sym same) empty-IsSomeZSet
          | inr (ent, e, same) ↦ subst IsSomeZSet same (v.sets q ent e)
        ];
      },
    )
