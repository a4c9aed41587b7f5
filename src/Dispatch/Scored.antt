-- ===== src/Dispatch/Scored.antt =====
-- server.cpp: the end of `do_zadd`, which puts the tuple into an entry's set.
use redis_lite.Base.{
  ℕ, ◌<◌, ◌≡◌, ◌≢◌, ◌⊎◌, inl, inr, refl, ◌∙◌, sym, ap, Bool, List, Option, some, ◌>>=◌, Returns,
  if◌then◌else◌,
}
use mathlib.Core.Option.{some-injective}
use redis_lite.Base.Memory.{store, store-same, store-other}
use redis_lite.Bytes.{Str}
use redis_lite.Avl.Inorder.{size}
use redis_lite.Db.{t_zset, Entry, Db}
use redis_lite.Reply.{out_int}
use redis_lite.ZSet.{ZNode, ZSet, zset_insert, dbl_rank}
use redis_lite.ZSet.Stored.{zset_insert-Stored}
use redis_lite.Dispatch.Sets.{zadd_at}
use redis_lite.Dispatch.Safe.{IsSafe}
use redis_lite.Dispatch.Stored.{put-IsSafe}

-- An entry with the key, which is new or had the key and was a sorted set before, is a sorted set in
-- which the name has the score, up to the two zeros. The entry differs in the set only; its other names keep their nodes, the other entries are the same, and the reply is 1 if the name was
-- not in the set before, and 0 if it was.
pub record Scored (E : ℕ → Option (Entry ZSet)) (key name : Str) (val : ℕ) (out : List ℕ)
    (r : Db ZSet × List ℕ) : Type 0 where
  pub at : ℕ
  pub ent : Entry ZSet
  pub here : r.0.entries at ≡ some ent
  pub owned : ent.key ≡ key
  pub type : ent.type ≡ t_zset
  pub was : (x : Entry ZSet) → E at ≡ some x → ent ≡ record x { zset = ent.zset }
  pub has :
      (q : ℕ) × (m : ZNode) × (ent.zset.nodes q ≡ some m)
      × (m.name ≡ name)
      × (dbl_rank m.score ≡ dbl_rank val)
  pub kept :
      (x : Entry ZSet) (q : ℕ) (m : ZNode)
      → E at ≡ some x
      → x.zset.nodes q ≡ some m
      → m.name ≢ name
      → ent.zset.nodes q ≡ some m
  pub others : (q : ℕ) → q ≢ at → r.0.entries q ≡ E q
  pub reply :
      ((r.1 ≡ out_int out 1)
        × ((x : Entry ZSet) (q : ℕ) (m : ZNode)
            → E at ≡ some x
            → x.zset.nodes q ≡ some m
            → m.name ≢ name))
      ⊎ ((r.1 ≡ out_int out 0)
          × ((x : Entry ZSet) × (q : ℕ) × (m : ZNode) × (E at ≡ some x)
              × (x.zset.nodes q ≡ some m)
              × (m.name ≡ name)))

module _ (strtod : Str → ℕ × ℕ) where
  abbrev wrote : Db ZSet → ℕ → Entry ZSet → List ℕ → Bool × ZSet → Db ZSet × List ℕ
  wrote d p ent out r = (
    record d { entries = store d.entries p (some (record ent { zset = r.1 })) },
    out_int out (if r.0 then 1 else 0),
  )

  zadd_run :
      (d : Db ZSet) (p : ℕ) (ent : Entry ZSet) (name : Str) (val : ℕ) (out : List ℕ)
      (r : Bool × ZSet)
      → d.entries p ≡ some ent
      → zset_insert ent.zset name val ≡ some r
      → zadd_at strtod d p name val out ≡ some (wrote d p ent out r)
  unfolding zadd_at
  zadd_run d p ent name val out r e f = rw (e, ◌>>=◌, f) refl

  -- On a valid database, when the entry at an address is a sorted set with room for one more node.
  pub zadd_at-Scored :
      (d : Db ZSet) (p : ℕ) (ent : Entry ZSet) (name : Str) (val : ℕ) (out : List ℕ)
      → IsSafe d
      → d.entries p ≡ some ent
      → ent.type ≡ t_zset
      → size ent.zset.root < 2147483647
      → Returns
          (λ (r : Db ZSet × List ℕ).
            IsSafe r.0 × ((s : Scored d.entries ent.key name val out r) × (s.at ≡ p)))
          (zadd_at strtod d p name val out)
  zadd_at-Scored d p ent name val out v e t small =
      let (nb, ob, w) = v.sets p ent e in
      let (r, run, (nb', ob', s)) = zset_insert-Stored ent.zset nb ob name val w small in
      let new : Entry ZSet = record ent { zset = r.1 } in
      let old = λ (x : Entry ZSet) (f : d.entries p ≡ some x).
        ap (λ (y : Entry ZSet). y.zset) (some-injective x ent (sym f ∙ e)) in
      (
        wrote d p ent out r,
        zadd_run d p ent name val out r e run,
        (
          put-IsSafe d p ent r.1 v e (nb', ob', s.valid),
          (
            record {
              at = p;
              ent = new;
              here = store-same d.entries p (some new);
              owned = refl;
              type = t;
              has = s.has;
              was = λ x f.
                  ap (λ (y : Entry ZSet). record y { zset = r.1 })
                    (some-injective ent x (sym e ∙ f));
              kept = λ x q m f g other. s.kept q m other (ap (λ z. z.nodes q) (sym (old x f)) ∙ g);
              others = λ q off. store-other d.entries p q (some new) off;
              reply = elim s.flag [
                | inl (was_new, fresh) ↦ inl (
                  ap (λ b. out_int out (if b then 1 else 0)) was_new,
                  λ x q m f g. fresh q m (ap (λ z. z.nodes q) (sym (old x f)) ∙ g),
                )
                | inr (was_old, (q, m, g, same)) ↦
                    inr
                      (ap (λ b. out_int out (if b then 1 else 0)) was_old, (ent, q, m, e, g, same))
              ];
            },
            refl,
          ),
        ),
      )
