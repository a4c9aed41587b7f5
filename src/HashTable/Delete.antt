-- ===== src/HashTable/Delete.antt =====
-- `hm_delete` of hashtable.cpp.
use redis_lite.Base.{
  ℕ, ◌+◌, ◌≡◌, ◌⊎◌, refl, ap, ◌∙◌, Bool, true, List, [], count, to_nat, arith, Option, none, some,
  inl, inr,
}
use redis_lite.HashTable.{
  HNode, HTab, HMap, Chain, hits, hm_delete, h_lookup, h_detach, hm_help_rehashing,
}
use redis_lite.HashTable.Buckets.{chain_nodes}
use redis_lite.HashTable.Valid.{IsTab, any_node}
use redis_lite.HashTable.Search.{IsWithout}
use redis_lite.HashTable.Shape.{
  IsMap, unused, single, double, newer-IsTabOrNull, older-IsTabOrNull, h_lookup-Searched_null,
  hm_help_rehashing-Helped,
}
use redis_lite.HashTable.Lookup.{tally}

module _ {ℓ} {A : Type ℓ} where
  -- No node matches and none is gone; or one that matches is returned and is gone.
  abbrev pub Removes :
      (nb ob nb' ob' : List (Chain A)) → (HNode A → Bool) → Option (HNode A) → Type ℓ
  Removes nb ob nb' ob' hit o =
      ((o ≡ none)
        × (tally nb ob hit ≡ 0)
        × ((p : HNode A → Bool) → tally nb' ob' p ≡ tally nb ob p))
      ⊎ ((node : HNode A) × (o ≡ some node)
          × (hit node ≡ true)
          × ((p : HNode A → Bool) → tally nb' ob' p + to_nat (p node) ≡ tally nb ob p))

  pub record Deleted (nb ob : List (Chain A)) (hit : HNode A → Bool) (r : Option (HNode A) × HMap A)
      (nb' ob' : List (Chain A)) : Type ℓ where
    pub valid : IsMap r.1 nb' ob'
    pub removes : Removes nb ob nb' ob' hit r.0

  -- A new newer table keeps the map valid.
  pub with_newer :
      {m : HMap A} {nb ob : List (Chain A)} (t : HTab A) (b : List (Chain A))
      → IsMap m nb ob
      → IsTab t b
      → IsMap (record m { newer = t }) b ob
  with_newer t b (unused p q r s) v = single v q s
  with_newer t b (single w q s) v = single v q s
  with_newer t b (double w) v = double (record { newer = v; older = w.older; passed = w.passed })

  not_from_null :
      (b : List (Chain A)) (t t' : HTab A) (b' : List (Chain A)) (node : HNode A)
      → b ≡ []
      → IsWithout t b node t' b'
      → ⊥
  not_from_null b t t' b' node e w =
      let none_here : count any_node (chain_nodes b) ≡ 0 = rw e refl in
      omega (arith, w.rest any_node)

  with_older :
      {m : HMap A} {nb ob : List (Chain A)} (t : HTab A) (b : List (Chain A)) (node : HNode A)
      → IsMap m nb ob
      → IsWithout m.older ob node t b
      → IsMap (record m { older = t }) nb b
  with_older {m} {nb} {ob} t b node (unused p q r s) w =
      absurd (not_from_null ob m.older t b node s w)
  with_older {m} {nb} {ob} t b node (single v q s) w =
      absurd (not_from_null ob m.older t b node s w)
  with_older t b node (double v) w =
      double
        (record { newer = v.newer; older = w.valid; passed = λ i p. w.empties i (v.passed i p) })

  -- Steps of the function, by what the searches find.
  module _ (m m' : HMap A) (hcode : ℕ) (eq : HNode A → Bool)
      (help : hm_help_rehashing m ≡ some m') where
    delete_newer :
        (l : ℕ × ℕ) (node : HNode A) (t : HTab A)
        → h_lookup m'.newer hcode eq ≡ some (some l)
        → h_detach m'.newer l ≡ some (node, t)
        → hm_delete m hcode eq ≡ some (some node, record m' { newer = t })
    unfolding hm_delete
    delete_newer l node t e f = ground arith

    delete_older :
        (l : ℕ × ℕ) (node : HNode A) (t : HTab A)
        → h_lookup m'.newer hcode eq ≡ some none
        → h_lookup m'.older hcode eq ≡ some (some l)
        → h_detach m'.older l ≡ some (node, t)
        → hm_delete m hcode eq ≡ some (some node, record m' { older = t })
    unfolding hm_delete
    delete_older l node t d e f = ground arith

    delete_none :
        h_lookup m'.newer hcode eq ≡ some none
        → h_lookup m'.older hcode eq ≡ some none
        → hm_delete m hcode eq ≡ some (none, m')
    unfolding hm_delete
    delete_none d e = ground arith

  -- On a valid map `hm_delete` does not fault, and the map stays valid: NULL if no node matches,
  -- with the nodes unchanged; otherwise exactly one matching node, which it returns, is gone.
  pub hm_delete-Deleted :
      {m : HMap A} {nb ob : List (Chain A)} (hcode : ℕ) (eq : HNode A → Bool)
      → IsMap m nb ob
      → (r : Option (HNode A) × HMap A) × (hm_delete m hcode eq ≡ some r)
        × ((nb' : List (Chain A)) × (ob' : List (Chain A)) × Deleted nb ob
              (hits hcode eq)
              r
              nb'
              ob')
  hm_delete-Deleted {m} {nb} {ob} hcode eq v =
      let (m', help, (nb', ob', s)) = hm_help_rehashing-Helped v in
      let (r₁, run₁, s₁) =
        h_lookup-Searched_null m'.newer nb' hcode eq (newer-IsTabOrNull s.valid) in
      let (r₂, run₂, s₂) =
        h_lookup-Searched_null m'.older ob' hcode eq (older-IsTabOrNull s.valid) in
      elim s₁ [
        | inr (l, e, (node, k)) ↦
            let (t, out, (b, w)) = k.detach in
            (
              (some node, record m' { newer = t }),
              delete_newer m m' hcode eq help l node t (run₁ ∙ ap some e) out,
              (
                b,
                ob',
                record {
                  valid = with_newer t b s.valid w.valid;
                  removes = inr (node, refl, k.matches, λ p. omega (arith, s.same p, w.rest p));
                },
              ),
            )
        | inl (e₁, zero₁) ↦ elim s₂ [
          | inr (l, e, (node, k)) ↦
              let (t, out, (b, w)) = k.detach in
              (
                (some node, record m' { older = t }),
                delete_older m m' hcode eq help l node t (run₁ ∙ ap some e₁) (run₂ ∙ ap some e) out,
                (
                  nb',
                  b,
                  record {
                    valid = with_older t b node s.valid w;
                    removes = inr (node, refl, k.matches, λ p. omega (arith, s.same p, w.rest p));
                  },
                ),
              )
          | inl (e₂, zero₂) ↦ (
            (none, m'),
            delete_none m m' hcode eq help (run₁ ∙ ap some e₁) (run₂ ∙ ap some e₂),
            (
              nb',
              ob',
              record {
                valid = s.valid;
                removes = inl (refl, omega (arith, s.same (hits hcode eq)), s.same);
              },
            ),
          )
        ]
      ]
