-- ===== src/Dispatch/Score.antt =====
-- server.cpp: `do_zscore` on a valid database.
use redis_lite.Base.{
  ℕ, ◌≡◌, ◌≢◌, ◌⊎◌, inl, inr, refl, ◌∙◌, sym, ap, false, List, Option, some, ◌>>=◌, Returns,
}
use redis_lite.Base.Memory.{store, store-same, store-other}
use redis_lite.Bytes.{Str}
use redis_lite.HashTable.Lookup.{tally}
use redis_lite.Db.{t_zset, Entry, Db, entry_eq}
use redis_lite.Reply.{out_nil, out_dbl, out_err, err_bad_typ}
use redis_lite.ZSet.{ZNode, ZSet}
use redis_lite.Dispatch.Words.{expect_zset_text}
use redis_lite.Dispatch.Sets.{
  Found, no_key, wrong_type, zset_of, expect_zset, lookup_in, answer_score, do_zscore,
  is_wrong_type,
}
use redis_lite.Dispatch.Safe.{IsSafe}
use redis_lite.Dispatch.Expect.{expect_zset-IsExpected, InSet, lookup_in-no_key, lookup_in-LookedIn}

-- An entry with the key is not a sorted set, or no entry has the key.
abbrev pub IsRefused : Db ZSet → Str → List ℕ → Db ZSet × List ℕ → Type 0
IsRefused d key out r =
    (p : ℕ) × (ent : Entry ZSet) × (d.entries p ≡ some ent)
    × (ent.key ≡ key)
    × (ent.type ≢ t_zset)
    × (r.0.entries ≡ d.entries)
    × (r.1 ≡ out_err out err_bad_typ expect_zset_text)

abbrev pub IsAbsent : (d : Db ZSet) → IsSafe d → Str → List ℕ → Db ZSet × List ℕ → Type 0
IsAbsent d v key reply r =
    (tally v.nb v.ob (entry_eq d key) ≡ 0) × (r.0.entries ≡ d.entries) × (r.1 ≡ reply)

-- The set has the same nodes, and the reply is the score of the node with the name, or nil.
abbrev pub IsScore : Db ZSet → Str → Str → List ℕ → Db ZSet × List ℕ → Type 0
IsScore d key name out r =
    (p : ℕ) × (ent : Entry ZSet) × (z : ZSet) × InSet d.entries key r.0.entries p ent z
    × (z.root ≡ ent.zset.root)
    × (z.nodes ≡ ent.zset.nodes)
    × (((r.1 ≡ out_nil out) × ((q : ℕ) (m : ZNode) → ent.zset.nodes q ≡ some m → m.name ≢ name))
        ⊎ ((q : ℕ) × (m : ZNode) × (r.1 ≡ out_dbl out m.score)
            × (ent.zset.nodes q ≡ some m)
            × (m.name ≡ name)))

score_wrong :
    (d d₁ : Db ZSet) (key name : Str) (out : List ℕ)
    → expect_zset d key ≡ some (wrong_type, d₁)
    → do_zscore d key name out ≡ some (d₁, out_err out err_bad_typ expect_zset_text)
unfolding do_zscore
score_wrong d d₁ key name out e = rw (e, ◌>>=◌) refl

score_found :
    (d d₁ : Db ZSet) (key name : Str) (out : List ℕ) (found : Found)
    → expect_zset d key ≡ some (found, d₁)
    → is_wrong_type found ≡ false
    → do_zscore d key name out ≡ lookup_in d₁ found name (answer_score out)
unfolding do_zscore
score_found d d₁ key name out found e f = rw (e, ◌>>=◌, f) refl

answer_some :
    (out : List ℕ) (d : Db ZSet) (z : ZSet) (q : ℕ) (m : ZNode)
    → z.nodes q ≡ some m
    → answer_score out d z (some q) ≡ some (d, out_dbl out m.score)
answer_some out d z q m e = rw (e, ◌>>=◌) refl

-- The entry's set is replaced, on entries that are the same as before.
pub in_set :
    (E E₁ E' : ℕ → Option (Entry ZSet)) (key : Str) (p : ℕ) (ent : Entry ZSet) (z : ZSet)
    → E₁ ≡ E
    → E p ≡ some ent
    → ent.key ≡ key
    → ent.type ≡ t_zset
    → E' ≡ store E₁ p (some (record ent { zset = z }))
    → InSet E key E' p ent z
in_set E E₁ E' key p ent z same e k t after = record {
  before = e;
  owned = k;
  type = t;
  after = ap (λ F. F p) after ∙ store-same E₁ p (some (record ent { zset = z }));
  others = λ q off.
      ap (λ F. F q) after
      ∙ store-other E₁ p q (some (record ent { zset = z })) off
      ∙ ap (λ F. F q) same;
}

-- On a valid database `do_zscore` does not fault, and the database stays valid. If the key's entry is
-- not a sorted set, or no entry has the key, the entries are unchanged and the reply is an error or
-- nil; otherwise an entry with the key is a sorted set, which keeps its tree and its nodes, the other
-- entries are the same, and the reply is the score of its node with the name, or nil if none has it.
pub do_zscore-Scored :
    (d : Db ZSet) (key name : Str) (out : List ℕ) (v : IsSafe d)
    → Returns
        (λ (r : Db ZSet × List ℕ).
          IsSafe r.0
          × (IsRefused d key out r ⊎ (IsAbsent d v key (out_nil out) r ⊎ IsScore d key name out r)))
        (do_zscore d key name out)
do_zscore-Scored d key name out v =
    let ((found, d₁), run, (v₁, same, answer)) = expect_zset-IsExpected d key v in
    elim answer [
      | inl (e, missing) ↦ (
        _,
        score_found d d₁ key name out no_key (run ∙ ap (λ q. some (q, d₁)) e) refl
            ∙ lookup_in-no_key d₁ name (answer_score out),
        (v₁, inr (inl (missing, same, refl))),
      )
      | inr (inl (p, ent, e, f, k, other)) ↦ (
        _,
        score_wrong d d₁ key name out (run ∙ ap (λ q. some (q, d₁)) e),
        (v₁, inl (p, ent, f, k, other, same, refl)),
      )
      | inr (inr (p, ent, e, f, k, t)) ↦
          let (d₂, z, o, run', s) =
            lookup_in-LookedIn d₁ p ent name (answer_score out) v₁ (ap (λ E. E p) same ∙ f) in
          let start =
            score_found d d₁ key name out (zset_of p) (run ∙ ap (λ q. some (q, d₁)) e) refl
            ∙ run' in
          let here = in_set d.entries d₁.entries d₂.entries key p ent z same f k t s.entries in
          let old = λ (q : ℕ). ap (λ N. N q) s.nodes in
          elim s.named [
            | inl (gone, unnamed) ↦ (
              _,
              start ∙ ap (answer_score out d₂ z) gone,
              (
                s.safe,
                inr (
                    inr (
                      p,
                      ent,
                      z,
                      here,
                      s.root,
                      s.nodes,
                      inl (refl, λ q m g. unnamed q m (old q ∙ g)),
                    )),
              ),
            )
            | inr (q, m, hit, g, n) ↦ (
              _,
              start ∙ ap (answer_score out d₂ z) hit ∙ answer_some out d₂ z q m g,
              (
                s.safe,
                inr (inr (p, ent, z, here, s.root, s.nodes, inr (q, m, refl, sym (old q) ∙ g, n))),
              ),
            )
          ]
    ]
