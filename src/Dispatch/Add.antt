-- ===== src/Dispatch/Add.antt =====
-- server.cpp: `do_zadd` on a valid database.
use redis_lite.Base.{
  ℕ, ◌≡◌, ◌≢◌, ◌⊎◌, inl, inr, refl, ◌∙◌, sym, ap, true, false, List, Option, none, some, ◌>>=◌,
  ◌==◌, arith, Bool-cases, Returns, Option-cases,
}
use mathlib.Core.Option.{some-injective}
use mathlib.Core.Path.{subst}
use redis_lite.Base.Memory.{store, store-same, store-other, ==-true, ==-same}
use redis_lite.Bytes.{Str}
use redis_lite.HashTable.Lookup.{tally}
use redis_lite.Db.{t_zset, Entry, Db, lookup_key, entry_eq, has_key}
use redis_lite.Db.Lookup.{lookup_key-Found}
use redis_lite.Db.Timers.{same_bool}
use redis_lite.Db.Same.{IsTimed-same}
use redis_lite.Db.Dated.{not_both}
use redis_lite.Db.Set.{free-none}
use redis_lite.Reply.{out_err, err_bad_typ, err_bad_arg}
use redis_lite.ZSet.{ZSet}
use redis_lite.Dispatch.Words.{expect_float, expect_zset_text}
use redis_lite.Dispatch.Sets.{str2dbl, add_zset, zadd_at, do_zadd}
use redis_lite.Dispatch.Safe.{IsSafe, IsRoomy}
use redis_lite.Dispatch.Stored.{add_zset-IsSafe, with_zset, zset_entry}
use redis_lite.Dispatch.Scored.{Scored, zadd_at-Scored}

module _ (strtod : Str → ℕ × ℕ) where
  zadd_refuse_score :
      (d : Db ZSet) (key score name : Str) (out : List ℕ)
      → str2dbl strtod score ≡ none
      → do_zadd strtod d key score name out ≡ some (d, out_err out err_bad_arg expect_float)
  unfolding do_zadd
  zadd_refuse_score d key score name out e = rw (do_zadd, e) refl

  zadd_new :
      (d d₁ d₂ : Db ZSet) (key score name : Str) (val : ℕ) (out : List ℕ)
      → str2dbl strtod score ≡ some val
      → lookup_key d key ≡ some (none, d₁)
      → add_zset strtod d₁ key ≡ some d₂
      → do_zadd strtod d key score name out ≡ zadd_at strtod d₂ d₁.fresh name val out
  unfolding do_zadd
  zadd_new d d₁ d₂ key score name val out e f g = rw (do_zadd, e, f, ◌>>=◌, g) refl

  zadd_old :
      (d d₁ : Db ZSet) (key score name : Str) (val : ℕ) (out : List ℕ) (p : ℕ) (ent : Entry ZSet)
      → str2dbl strtod score ≡ some val
      → lookup_key d key ≡ some (some p, d₁)
      → d₁.entries p ≡ some ent
      → (ent.type == t_zset) ≡ true
      → do_zadd strtod d key score name out ≡ zadd_at strtod d₁ p name val out
  unfolding do_zadd
  zadd_old d d₁ key score name val out p ent e f g t = rw (do_zadd, e, f, ◌>>=◌, g, t) refl

  zadd_refuse_type :
      (d d₁ : Db ZSet) (key score name : Str) (val : ℕ) (out : List ℕ) (p : ℕ) (ent : Entry ZSet)
      → str2dbl strtod score ≡ some val
      → lookup_key d key ≡ some (some p, d₁)
      → d₁.entries p ≡ some ent
      → (ent.type == t_zset) ≡ false
      → do_zadd strtod d key score name out ≡ some (d₁, out_err out err_bad_typ expect_zset_text)
  unfolding do_zadd
  zadd_refuse_type d d₁ key score name val out p ent e f g t = rw (do_zadd, e, f, ◌>>=◌, g, t) refl

  -- The score is not a number, the key's entry is not a sorted set, or the name has the score.
  abbrev pub IsAdded : Db ZSet → Str → Str → Str → List ℕ → Db ZSet × List ℕ → Type 0
  IsAdded d key score name out r =
      ((str2dbl strtod score ≡ none) × (r ≡ (d, out_err out err_bad_arg expect_float)))
      ⊎ (((p : ℕ) × (ent : Entry ZSet) × (d.entries p ≡ some ent)
            × (ent.key ≡ key)
            × (ent.type ≢ t_zset)
            × (r.0.entries ≡ d.entries)
            × (r.1 ≡ out_err out err_bad_typ expect_zset_text))
          ⊎ ((val : ℕ) × (str2dbl strtod score ≡ some val) × Scored d.entries key name val out r))

  -- What a set that was empty has after an insertion was not there before.
  first_score :
      (E : ℕ → Option (Entry ZSet)) (p : ℕ) (key name : Str) (val : ℕ) (out : List ℕ)
      (r : Db ZSet × List ℕ)
      → E p ≡ none
      → (s : Scored (store E p (some (zset_entry key))) key name val out r) → s.at ≡ p
      → Scored E key name val out r
  first_score E p key name val out r empty s at_p =
      let lost = λ (x : Entry ZSet) (f : E s.at ≡ some x). not_both (sym (ap E at_p ∙ empty) ∙ f) in
      let new = some (zset_entry key) in
      record {
        at = s.at;
        ent = s.ent;
        here = s.here;
        owned = s.owned;
        type = s.type;
        has = s.has;
        was = λ x f. absurd (lost x f);
        kept = λ x q m f g other. absurd (lost x f);
        others = λ q off. s.others q off ∙ store-other E p q new (λ at_q. off (at_q ∙ sym at_p));
        reply = elim s.reply [
          | inl (one, _) ↦ inl (one, λ x q m f g. absurd (lost x f))
          | inr (_, (x, q, m, f, g, _)) ↦
              let first : zset_entry key ≡ x =
                some-injective (zset_entry key) x
                  (sym (ap (store E p new) at_p ∙ store-same E p new) ∙ f) in
              absurd (not_both (ap (λ (y : Entry ZSet). y.zset.nodes q) first ∙ g))
        ];
      }

  zadd_fresh :
      (d d₁ : Db ZSet) (key score name : Str) (val : ℕ) (out : List ℕ)
      → str2dbl strtod score ≡ some val
      → lookup_key d key ≡ some (none, d₁)
      → (v : IsSafe d₁) → tally v.nb v.ob (entry_eq d₁ key) ≡ 0
      → Returns
          (λ (r : Db ZSet × List ℕ). IsSafe r.0 × Scored d₁.entries key name val out r)
          (do_zadd strtod d key score name out)
  zadd_fresh d d₁ key score name val out e f v gone =
      let (db, add, w) = add_zset-IsSafe strtod d₁ key v gone in
      let p = d₁.fresh in
      let (r, run, (safe, (s, at_p))) =
        zadd_at-Scored strtod (with_zset d₁ key db) p (zset_entry key) name val out w
          (store-same d₁.entries p (some (zset_entry key))) refl (omega arith) in
      (
        r,
        zadd_new d d₁ _ key score name val out e f add ∙ run,
        (safe, first_score d₁.entries p key name val out r (free-none d₁ v.nb v.ob v.db) s at_p),
      )

  pub do_zadd-Added :
      (d : Db ZSet) (key score name : Str) (out : List ℕ)
      → IsSafe d
      → IsRoomy d
      → Returns
          (λ (r : Db ZSet × List ℕ). IsSafe r.0 × IsAdded d key score name out r)
          (do_zadd strtod d key score name out)
  do_zadd-Added d key score name out v room = elim (Option-cases (str2dbl strtod score)) [
    | inl bad ↦ (_, zadd_refuse_score d key score name out bad, (v, inl (bad, refl)))
    | inr (val, good) ↦
        let ((o, d₁), run, (nb, ob, s)) = lookup_key-Found d v.nb v.ob key v.db in
        let v₁ : IsSafe d₁ = record {
          nb = nb;
          ob = ob;
          db = s.valid;
          timed = IsTimed-same d d₁ v.timed s.entries s.heap;
          sets = λ p x f. v.sets p x (ap (λ E. E p) (sym s.entries) ∙ f);
        } in
        let move = λ (r : Db ZSet × List ℕ) (w : Scored d₁.entries key name val out r).
          subst (λ E. Scored E key name val out r) s.entries w in
        elim s.answer [
          | inl (e, missing) ↦
              let found = run ∙ ap (λ q. some (q, d₁)) e in
              let gone : tally nb ob (entry_eq d₁ key) ≡ 0 =
                s.same (entry_eq d₁ key)
                ∙ ap
                    (λ (E : ℕ → Option (Entry ZSet)). tally v.nb v.ob (λ n. has_key key (E n.item)))
                    s.entries
                ∙ missing in
              let (r, run', (safe, w)) =
                zadd_fresh d d₁ key score name val out good found v₁ gone in
              (r, run', (safe, inr (inr (val, good, move r w))))
          | inr (p, ent, e, (f, here), k) ↦
              let g : d₁.entries p ≡ some ent = ap (λ E. E p) s.entries ∙ f in
              let found = run ∙ ap (λ q. some (q, d₁)) e in
              elim (Bool-cases (ent.type == t_zset)) [
                | inl is_set ↦
                    let (r, run', (safe, (w, _))) =
                      zadd_at-Scored strtod d₁ p ent name val out v₁ g
                        (==-true ent.type t_zset is_set) (room.sets p ent f) in
                    let w' = subst (λ l. Scored d₁.entries l name val out r) k w in
                    (
                      r,
                      zadd_old d d₁ key score name val out p ent good found g is_set ∙ run',
                      (safe, inr (inr (val, good, move r w'))),
                    )
                | inr other ↦
                    let off = λ (t : ent.type ≡ t_zset).
                      same_bool (ap (λ i. i == t_zset) t ∙ ==-same t_zset) other in
                    (
                      _,
                      zadd_refuse_type d d₁ key score name val out p ent good found g other,
                      (v₁, inr (inl (p, ent, f, k, off, s.entries, refl))),
                    )
              ]
        ]
  ]
